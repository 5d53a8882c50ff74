-- ===== src/Robots/Newline.antt =====
-- Comparisons in front of the end of a line.
use wget.Prelude.{
  ℕ, ◌≡◌, refl, ap, ◌∙◌, sym, Bool, true, false, not, ◌&&◌, ◌||◌, [], ◌∷◌, ◌++◌, Option, none, some,
  drop, take, length, ◌==◌, Bytes, arith, Ctype, ascii, strcaseeq-ascii, streq, span-append, map,
}
use wget.Robots.{next_line, begins, is_client}
use wget.Robots.Lines.{No, is_newline, IsClient}

pub or_false : (a b c : Bool) → (a || (b || c)) ≡ false → (a ≡ false) × (b ≡ false) × (c ≡ false)
or_false true b c h = absurd (ground (arith, h))
or_false false true c h = absurd (ground (arith, h))
or_false false false c h = (refl, refl, h)

lower-newline : (c : ℕ) → not (c == 10) ≡ true → (ascii.tolower c == 10) ≡ false
lower-newline c h = ground (arith, h)

-- an equation of strings is decided in front of a newline
pub streq-newline :
    (kw s rest : Bytes)
    → No is_newline kw
    → streq (map ascii.tolower kw) (map ascii.tolower (take (length kw) (s ++ (10 ∷ rest))))
      ≡ streq (map ascii.tolower kw) (map ascii.tolower (take (length kw) s))
unfolding streq
streq-newline [] s rest h = refl
streq-newline (c ∷ kw) [] rest h =
    ap (λ e. e && streq (map ascii.tolower kw) (map ascii.tolower (take (length kw) rest)))
      (lower-newline c h.0)
streq-newline (c ∷ kw) (d ∷ s) rest h =
    ap (λ e. (ascii.tolower c == ascii.tolower d) && e) (streq-newline kw s rest h.1)

pub next_line-append : (s rest : Bytes) → No is_newline s → next_line (s ++ (10 ∷ rest)) ≡ rest
next_line-append s rest h =
    ap (λ r. drop 1 r.1) (span-append (λ c. not (c == 10)) s (10 ∷ rest) h refl)

module _ (ctype : Ctype) where
  pub begins-ascii : (kw s : Bytes) → begins ctype kw s ≡ begins ascii kw s
  begins-ascii kw s = strcaseeq-ascii ctype kw (take (length kw) s)

  begins-newline :
      (kw s rest : Bytes)
      → No is_newline kw
      → begins ctype kw (s ++ (10 ∷ rest)) ≡ begins ctype kw s
  begins-newline kw s rest h =
      begins-ascii kw (s ++ (10 ∷ rest)) ∙ streq-newline kw s rest h ∙ sym (begins-ascii kw s)

  pub is_client-newline :
      (client : Option Bytes) (s rest : Bytes)
      → IsClient client
      → is_client ctype client (s ++ (10 ∷ rest)) ≡ is_client ctype client s
  is_client-newline none [] rest h = refl
  is_client-newline none (c ∷ s) rest h = refl
  is_client-newline (some client) [] rest h = ap (λ b. b || false) (begins-newline client [] rest h)
  is_client-newline (some client) (c ∷ s) rest h =
      ap (λ b. b || (c == b'*')) (begins-newline client (c ∷ s) rest h)
