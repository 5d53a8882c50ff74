-- ===== src/Http/Announced.antt =====
-- libwget/http_parse.c: what a Strict-Transport-Security header announces.
use wget.Http.Directives.{names, parse_strict_transport_security, sts_step}
use wget.Http.Loops.{fold_params, parse_strict_transport_security-fold_params}
use wget.Http.RoundTrip.{Value, bare, token, quoted, value_of, IsParam, print_params, param_of}
use wget.Prelude.{
  ◌≡◌, ◌≢◌, ◌↔◌, ◌⊎◌, inl, inr, refl, ap, Bool, Bool-cases, true, false, List, [], ◌∷◌, ◌++◌, All,
  map, some, none, Bytes, codes, streq_iff, strcaseeq-ascii, Ctype, ascii, ℤ, pos,
}

-- a directive that gives no age
abbrev pub NoAge : Bytes × Value → Type 0
NoAge (name, v) = (map ascii.tolower name ≢ codes "max-age") ⊎ (v ≡ bare)

-- an includeSubDomains without a value
pub record HasSubdomains (ps : List (Bytes × Value)) : Type 0 where
  pub front : List (Bytes × Value)
  pub name : Bytes
  pub behind : List (Bytes × Value)
  pub parts : ps ≡ front ++ ((name, bare) ∷ behind)
  pub is_named : map ascii.tolower name ≡ codes "includesubdomains"

-- What directives announce, in whatever case of ASCII letters their names are: the age in the last
-- max-age that has a value, 0 if there is none, and the subdomains if there is an includeSubDomains
-- that has no value.
pub record Announced (atoll : Bytes → ℤ) (ps : List (Bytes × Value)) (r : ℤ × Bool) : Type 0 where
  pub last_age :
      (pre post : List (Bytes × Value)) (name text : Bytes) (v : Value)
      → ps ≡ pre ++ ((name, v) ∷ post)
      → map ascii.tolower name ≡ codes "max-age"
      → value_of v ≡ some text
      → All NoAge post
      → r.0 ≡ atoll text
  pub no_age : All NoAge ps → r.0 ≡ pos 0
  pub subdomains : (r.1 ≡ true) ↔ HasSubdomains ps

none_ne : (text : Bytes) → none ≢ some text
none_ne text h = cc

some_elim : (t text : Bytes) → some t ≡ some text → t ≡ text
some_elim t text h = cc

token_ne : (t : Bytes) → token t ≢ bare
token_ne t h = cc

quoted_ne : (t : Bytes) → quoted t ≢ bare
quoted_ne t h = cc

token-NoAge : (name t : Bytes) → NoAge (name, token t) → map ascii.tolower name ≢ codes "max-age"
token-NoAge name t (inl n) = n
token-NoAge name t (inr e) = λ h. token_ne t e

quoted-NoAge : (name t : Bytes) → NoAge (name, quoted t) → map ascii.tolower name ≢ codes "max-age"
quoted-NoAge name t (inl n) = n
quoted-NoAge name t (inr e) = λ h. quoted_ne t e

behind_another :
    {ps : List (Bytes × Value)} (p : Bytes × Value) → HasSubdomains ps → HasSubdomains (p ∷ ps)
behind_another p h = record {
  front = p ∷ h.front;
  name = h.name;
  behind = h.behind;
  parts = ap (◌∷◌ p) h.parts;
  is_named = h.is_named;
}

module _ (ctype : Ctype) where
  is_age :
      (name : Bytes)
      → (names ctype (some name) (codes "max-age") ≡ true)
        ↔ (map ascii.tolower name ≡ codes "max-age")
  is_age name =
      rw (strcaseeq-ascii ctype name (codes "max-age"))
        (streq_iff (map ascii.tolower name) (codes "max-age"))

  is_subdomains :
      (name : Bytes)
      → (names ctype (some name) (codes "includeSubDomains") ≡ true)
        ↔ (map ascii.tolower name ≡ codes "includesubdomains")
  is_subdomains name =
      rw (strcaseeq-ascii ctype name (codes "includeSubDomains"))
        (streq_iff (map ascii.tolower name) (codes "includesubdomains"))

  module _ (atoll : Bytes → ℤ) where
    abbrev read : ℤ × Bool → List (Bytes × Value) → ℤ × Bool
    read = fold_params (sts_step ctype atoll)

    read-append :
        (xs ys : List (Bytes × Value)) (state : ℤ × Bool)
        → read state (xs ++ ys) ≡ read (read state xs) ys
    read-append [] ys state = refl
    read-append (p ∷ xs) ys state = read-append xs ys (sts_step ctype atoll state (param_of p))

    read-NoAge :
        (ps : List (Bytes × Value)) (age : ℤ) (flag : Bool)
        → All NoAge ps
        → (read (age, flag) ps).0 ≡ age
    read-NoAge [] age flag h = refl
    read-NoAge ((name, bare) ∷ ps) age flag h = read-NoAge ps age _ h.1
    read-NoAge ((name, token t) ∷ ps) age flag h =
        elim (Bool-cases (names ctype (some name) (codes "max-age"))) [
          | inl e ↦ absurd (token-NoAge name t h.0 ((is_age name).0 e))
          | inr e ↦ rw (e, fold_params) (read-NoAge ps age flag h.1)
        ]
    read-NoAge ((name, quoted t) ∷ ps) age flag h =
        elim (Bool-cases (names ctype (some name) (codes "max-age"))) [
          | inl e ↦ absurd (quoted-NoAge name t h.0 ((is_age name).0 e))
          | inr e ↦ rw (e, fold_params) (read-NoAge ps age flag h.1)
        ]

    read_age :
        (state : ℤ × Bool) (name text : Bytes) (v : Value) (post : List (Bytes × Value))
        → map ascii.tolower name ≡ codes "max-age"
        → value_of v ≡ some text
        → All NoAge post
        → (read state ((name, v) ∷ post)).0 ≡ atoll text
    read_age state name text bare post n e h = absurd (none_ne text e)
    read_age (age, flag) name text (token t) post n e h =
        let same : t ≡ text = some_elim t text e in
        rw ((is_age name).1 n, fold_params) (rw same (read-NoAge post (atoll text) flag h))
    read_age (age, flag) name text (quoted t) post n e h =
        let same : t ≡ text = some_elim t text e in
        rw ((is_age name).1 n, fold_params) (rw same (read-NoAge post (atoll text) flag h))

    read-true : (ps : List (Bytes × Value)) (age : ℤ) → (read (age, true) ps).1 ≡ true
    read-true [] age = refl
    read-true ((name, bare) ∷ ps) age =
        elim (Bool-cases (names ctype (some name) (codes "includeSubDomains"))) [
          | inl e ↦ rw (e, fold_params) (read-true ps age)
          | inr e ↦ rw (e, fold_params) (read-true ps age)
        ]
    read-true ((name, token t) ∷ ps) age = read-true ps _
    read-true ((name, quoted t) ∷ ps) age = read-true ps _

    HasSubdomains-read :
        (state : ℤ × Bool) (ps : List (Bytes × Value)) → HasSubdomains ps → (read state ps).1 ≡ true
    HasSubdomains-read state ps h = rw h.parts (
        rw (read-append h.front ((h.name, bare) ∷ h.behind) state)
          (read_named (read state h.front) h.name h.behind h.is_named))
      where
        read_named :
            (state : ℤ × Bool) (name : Bytes) (post : List (Bytes × Value))
            → map ascii.tolower name ≡ codes "includesubdomains"
            → (read state ((name, bare) ∷ post)).1 ≡ true
        read_named (age, flag) name post n =
            rw ((is_subdomains name).1 n, fold_params) (read-true post age)

    read-HasSubdomains :
        (ps : List (Bytes × Value)) (age : ℤ) → (read (age, false) ps).1 ≡ true → HasSubdomains ps
    read-HasSubdomains [] age h = cc
    read-HasSubdomains ((name, bare) ∷ ps) age h =
        elim (Bool-cases (names ctype (some name) (codes "includeSubDomains"))) [
          | inl e ↦ record {
            front = [];
            name = name;
            behind = ps;
            parts = refl;
            is_named = (is_subdomains name).0 e;
          }
          | inr e ↦
              behind_another (name, bare) (read-HasSubdomains ps age (rw (e, fold_params) at h))
        ]
    read-HasSubdomains ((name, token t) ∷ ps) age h =
        behind_another (name, token t) (read-HasSubdomains ps _ h)
    read-HasSubdomains ((name, quoted t) ∷ ps) age h =
        behind_another (name, quoted t) (read-HasSubdomains ps _ h)

    -- A Strict-Transport-Security header that was printed from directives, each with no value, a token
    -- or a quoted string, is read as what the directives announce: the age in the last max-age with a
    -- value, 0 if there is none, and the subdomains just if there is an includeSubDomains without one.
    pub parse_strict_transport_security-print :
        (ps : List (Bytes × Value))
        → All IsParam ps
        → Announced atoll ps (parse_strict_transport_security ctype atoll (print_params ps))
    parse_strict_transport_security-print ps h =
        rw (parse_strict_transport_security-fold_params ctype atoll ps h) (record {
          last_age = λ pre post name text v e n t k. rw e (
              rw (read-append pre ((name, v) ∷ post) (pos 0, false))
                (read_age (read (pos 0, false) pre) name text v post n t k));
          no_age = read-NoAge ps (pos 0) false;
          subdomains = (read-HasSubdomains ps (pos 0), HasSubdomains-read (pos 0, false) ps);
        })
