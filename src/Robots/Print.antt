-- ===== src/Robots/Print.antt =====
-- A printed line is read back.
use wget.Prelude.{
  ℕ, ◌≡◌, refl, ap, ◌∙◌, Bool, true, false, not, ◌&&◌, ◌||◌, [], ◌∷◌, ◌++◌, Option, ◌==◌,
  if◌then◌else◌, Bytes, codes, Ctype, ascii, streq, skip, Stops, span-append, skip-stop,
}
use wget.Iri.Parse.Pieces.{each_passes, each_passes-Each}
use wget.Robots.{
  Collect, before, within, after, is_within, is_open, Robots, Parser, value_behind, next_line,
  add_path, add_sitemap, begins, is_client, user_agent, word, disallow_value, line,
}
use wget.Robots.Lines.{
  Line, agent, disallow, sitemap, other, print_line, is_blank, is_keyword, No, is_newline,
  ends_value, IsWord, IsLine, disallowed, apply, IsClient,
}
use wget.Robots.Newline.{streq-newline, next_line-append, begins-ascii, is_client-newline, or_false}

-- what a line leaves, and that the next line is `rest`
abbrev pub Does : Parser × Bytes → Parser → Bytes → Type 0
Does q p rest = (q.0 ≡ p) × (next_line q.1 ≡ rest)

does :
    {q r : Parser × Bytes} {p : Parser} {rest : Bytes}
    → q ≡ r
    → r.0 ≡ p
    → next_line r.1 ≡ rest
    → Does q p rest
does e f g = (ap (λ x. x.0) e ∙ f, ap (λ x. next_line x.1) e ∙ g)

module _ (ctype : Ctype) where
  module _ (isspace : ℕ → Bool) where
    -- the branches, once the three comparisons are known
    line-begins :
        (client : Option Bytes) (n : Collect) (r : Robots) (t : Bytes) (a b c : Bool)
        → begins ascii (codes "User-agent:") t ≡ a
        → begins ascii (codes "Disallow:") t ≡ b
        → begins ascii (codes "Sitemap:") t ≡ c
        → let p : Parser = record { collect = n; robots = r } in
          line ctype isspace client p t ≡ (
            if is_open n && a
            then user_agent ctype client p t
            else if is_within n && b
            then (disallow_value isspace p (value_behind 9 t), value_behind 9 t)
            else if c
            then (add_sitemap p (word isspace (value_behind 8 t)), value_behind 8 t)
            else (p, t))
    unfolding line
    line-begins client n r t a b c ha hb hc = rw (begins-ascii ctype (codes "User-agent:") t ∙ ha) (
        rw (begins-ascii ctype (codes "Disallow:") t ∙ hb)
          (rw (begins-ascii ctype (codes "Sitemap:") t ∙ hc) refl))

    -- a value behind its keyword
    value-append :
        (s rest : Bytes)
        → Stops is_blank s
        → skip (λ c. c == b' ' || c == 9) (b' ' ∷ (s ++ (10 ∷ rest))) ≡ s ++ (10 ∷ rest)
    value-append [] rest h = refl
    value-append (c ∷ s) rest h = skip-stop is_blank (c ∷ (s ++ (10 ∷ rest))) h

    agent-print :
        (client : Option Bytes) (n : Collect) (r : Robots) (name rest : Bytes)
        → IsClient client
        → No is_newline name
        → Stops is_blank name
        → let p : Parser = record { collect = n; robots = r } in
          Does
            (line ctype isspace client p (print_line (agent name) ++ (10 ∷ rest)))
            (apply ctype client p (agent name))
            rest
    unfolding streq user_agent
    agent-print client before r name rest k h g =
        let value = value-append name rest g in
        does
          (line-begins client before r (print_line (agent name) ++ (10 ∷ rest)) true false false
            refl refl refl)
          (ap
              (λ v. record {
                collect = if is_client ctype client v then within else before;
                robots = r;
              })
              value
            ∙ ap (λ b. record { collect = if b then within else before; robots = r })
                (is_client-newline ctype client name rest k))
          (ap next_line value ∙ next_line-append name rest h)
    agent-print client within r name rest k h g =
        does
          (line-begins client within r (print_line (agent name) ++ (10 ∷ rest)) true false false
            refl refl refl)
          refl (next_line-append name rest h)
    agent-print client after r name rest k h g =
        does
          (line-begins client after r (print_line (agent name) ++ (10 ∷ rest)) true false false refl
            refl refl)
          refl (next_line-append name rest h)

    word-append :
        (s rest : Bytes)
        → isspace 10 ≡ true
        → IsWord isspace s
        → word isspace (s ++ (10 ∷ rest)) ≡ s
    word-append s rest newline h =
        ap (λ r. r.0) (span-append (λ c. not (isspace c)) s (10 ∷ rest) h.solid (ap not newline))

    disallow_value-append :
        (p : Parser) (path rest : Bytes)
        → isspace 10 ≡ true
        → IsWord isspace path
        → disallow_value isspace p (path ++ (10 ∷ rest)) ≡ disallowed p path
    disallow_value-append p [] rest newline h = refl
    disallow_value-append p (c ∷ path) rest newline h =
        let full : ends_value c ≡ false = h.filled in
        rw full (ap (add_path p) (word-append (c ∷ path) rest newline h))

    disallow-print :
        (client : Option Bytes) (n : Collect) (r : Robots) (path rest : Bytes)
        → isspace 10 ≡ true
        → IsWord isspace path
        → let p : Parser = record { collect = n; robots = r } in
          Does
            (line ctype isspace client p (print_line (disallow path) ++ (10 ∷ rest)))
            (apply ctype client p (disallow path))
            rest
    unfolding streq
    disallow-print client before r path rest newline h =
        does
          (line-begins client before r (print_line (disallow path) ++ (10 ∷ rest)) false true false
            refl refl refl)
          refl (next_line-append path rest h.no_newline)
    disallow-print client within r path rest newline h =
        does
          (line-begins client within r (print_line (disallow path) ++ (10 ∷ rest)) false true false
            refl refl refl)
          (ap (disallow_value isspace (record { collect = within; robots = r }))
              (value-append path rest h.unindented)
            ∙ disallow_value-append (record { collect = within; robots = r }) path rest newline h)
          (ap next_line (value-append path rest h.unindented)
            ∙ next_line-append path rest h.no_newline)
    disallow-print client after r path rest newline h =
        does
          (line-begins client after r (print_line (disallow path) ++ (10 ∷ rest)) false true false
            refl refl refl)
          refl (next_line-append path rest h.no_newline)

    sitemap-line :
        (client : Option Bytes) (n : Collect) (r : Robots) (t : Bytes) (a : Bool)
        → begins ascii (codes "User-agent:") t ≡ false
        → begins ascii (codes "Disallow:") t ≡ false
        → begins ascii (codes "Sitemap:") t ≡ a
        → let p : Parser = record { collect = n; robots = r } in
          line ctype isspace client p t ≡ (
            if a
            then (add_sitemap p (word isspace (value_behind 8 t)), value_behind 8 t)
            else (p, t))
    sitemap-line client before r t a h g k = line-begins client before r t false false a h g k
    sitemap-line client within r t a h g k = line-begins client within r t false false a h g k
    sitemap-line client after r t a h g k = line-begins client after r t false false a h g k

    sitemap-print :
        (client : Option Bytes) (n : Collect) (r : Robots) (url rest : Bytes)
        → isspace 10 ≡ true
        → IsWord isspace url
        → let p : Parser = record { collect = n; robots = r } in
          Does
            (line ctype isspace client p (print_line (sitemap url) ++ (10 ∷ rest)))
            (apply ctype client p (sitemap url))
            rest
    unfolding streq
    sitemap-print client n r url rest newline h =
        let value = value-append url rest h.unindented in
        does (sitemap-line client n r (print_line (sitemap url) ++ (10 ∷ rest)) true refl refl refl)
          (ap (λ v. add_sitemap (record { collect = n; robots = r }) (word isspace v)) value
            ∙ ap (add_sitemap (record { collect = n; robots = r }))
                (word-append url rest newline h))
          (ap next_line value ∙ next_line-append url rest h.no_newline)

    other-print :
        (client : Option Bytes) (n : Collect) (r : Robots) (text rest : Bytes)
        → No is_newline text
        → is_keyword text ≡ false
        → let p : Parser = record { collect = n; robots = r } in
          Does (line ctype isspace client p (text ++ (10 ∷ rest))) p rest
    other-print client n r text rest h k =
        let kinds = or_false _ _ _ k in
        let keyword : (kw : Bytes)
            → each_passes (λ c. not (is_newline c)) kw ≡ true
            → begins ascii kw (text ++ (10 ∷ rest)) ≡ begins ascii kw text =
          λ kw f. streq-newline kw text rest (each_passes-Each (λ c. not (is_newline c)) kw f) in
        does
          (sitemap-line client n r (text ++ (10 ∷ rest)) false
            (keyword (codes "User-agent:") refl ∙ kinds.0)
            (keyword (codes "Disallow:") refl ∙ kinds.1)
            (keyword (codes "Sitemap:") refl ∙ kinds.2))
          refl (next_line-append text rest h)

    -- One line is parsed to what it does.
    pub line-print :
        (client : Option Bytes) (p : Parser) (l : Line) (rest : Bytes)
        → isspace 10 ≡ true
        → IsClient client
        → IsLine isspace l
        → Does
            (line ctype isspace client p (print_line l ++ (10 ∷ rest)))
            (apply ctype client p l)
            rest
    line-print client p (agent name) rest newline k h =
        agent-print client p.collect p.robots name rest k h.0 h.1
    line-print client p (disallow path) rest newline k h =
        disallow-print client p.collect p.robots path rest newline h
    line-print client p (sitemap url) rest newline k h =
        sitemap-print client p.collect p.robots url rest newline h
    line-print client p (other text) rest newline k h =
        other-print client p.collect p.robots text rest h.0 h.1
