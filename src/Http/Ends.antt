-- ===== src/Http/Ends.antt =====
-- The fuel of the loops that stop at a parameter.
use wget.Prelude.{
  length-skip, ℕ, zero, suc, ◌≤◌, ◌≡◌, refl, ap, [], ◌∷◌, Option, none, some, length, ◌==◌,
  if◌then◌else◌, Bytes, codes, Ctype, arith, ℤ,
}
use wget.Http.{parse_param}
use wget.Http.Directives.{names, find_charset}
use wget.Http.Disposition.{disposition_name, filename_step}
use wget.Http.Links.{Link, link_param, link_rest, link_params}
use wget.Http.Progress.{length-parse_param}

module _ (ctype : Ctype) where
  -- As many rounds as the string has bytes are enough to look for the parameter `charset`.
  find_charset_ends :
      (f g : ℕ) (s : Bytes)
      → length s ≤ f
      → length s ≤ g
      → find_charset ctype f s ≡ find_charset ctype g s
  unfolding find_charset
  find_charset_ends zero zero s h k = refl
  find_charset_ends zero (suc g) [] h k = refl
  find_charset_ends (suc f) zero [] h k = refl
  find_charset_ends (suc f) (suc g) [] h k = refl
  find_charset_ends zero (suc g) (c ∷ s) h k = absurd (omega arith)
  find_charset_ends (suc f) zero (c ∷ s) h k = absurd (omega arith)
  find_charset_ends (suc f) (suc g) (c ∷ s) h k =
      let (param, rest) = parse_param ctype (c ∷ s) in
      let less = length-parse_param ctype (c ∷ s) (omega arith) in
      ap (λ r. if names ctype param.name (codes "charset") then (param.value, rest) else r)
        (find_charset_ends f g rest (omega arith) (omega arith))

  -- As many rounds as the string has bytes are enough to look for a file name.
  disposition_name_ends :
      (to_utf8 : Bytes → Bytes → Option Bytes) (f g : ℕ) (s : Bytes)
      → length s ≤ f
      → length s ≤ g
      → disposition_name ctype to_utf8 f s ≡ disposition_name ctype to_utf8 g s
  unfolding disposition_name
  disposition_name_ends to_utf8 zero zero s h k = refl
  disposition_name_ends to_utf8 zero (suc g) [] h k = refl
  disposition_name_ends to_utf8 (suc f) zero [] h k = refl
  disposition_name_ends to_utf8 (suc f) (suc g) [] h k = refl
  disposition_name_ends to_utf8 zero (suc g) (c ∷ s) h k = absurd (omega arith)
  disposition_name_ends to_utf8 (suc f) zero (c ∷ s) h k = absurd (omega arith)
  disposition_name_ends to_utf8 (suc f) (suc g) (c ∷ s) h k =
      let (param, rest) = parse_param ctype (c ∷ s) in
      let less = length-parse_param ctype (c ∷ s) (omega arith) in
      ap (λ r. filename_step ctype to_utf8 r param)
        (disposition_name_ends to_utf8 f g rest (omega arith) (omega arith))

  length-link_rest :
      (name value : Option Bytes) (s : Bytes) → length (link_rest ctype name value s) ≤ length s
  length-link_rest none value s = omega arith
  length-link_rest (some name) none s = omega arith
  length-link_rest (some name) (some value) s = length-skip ctype.isblank s

  -- As many rounds as the string has bytes are enough for the parameters of a link.
  link_params_ends :
      (atoi : Bytes → ℤ) (f g : ℕ) (link : Link) (s : Bytes)
      → length s ≤ f
      → length s ≤ g
      → link_params ctype atoi f link s ≡ link_params ctype atoi g link s
  unfolding link_params
  link_params_ends atoi zero zero link s h k = refl
  link_params_ends atoi zero (suc g) link [] h k = refl
  link_params_ends atoi (suc f) zero link [] h k = refl
  link_params_ends atoi (suc f) (suc g) link [] h k = refl
  link_params_ends atoi zero (suc g) link (c ∷ s) h k = absurd (omega arith)
  link_params_ends atoi (suc f) zero link (c ∷ s) h k = absurd (omega arith)
  link_params_ends atoi (suc f) (suc g) link (c ∷ s) h k =
      let (param, rest) = parse_param ctype (c ∷ s) in
      let less = length-parse_param ctype (c ∷ s) (omega arith) in
      let behind = link_rest ctype param.name param.value rest in
      let room = length-link_rest param.name param.value rest in
      ap (λ r. if c == b';' then r else (link, c ∷ s))
        (link_params_ends atoi f g (link_param ctype atoi link param.name param.value) behind
          (omega (arith, room)) (omega (arith, room)))
