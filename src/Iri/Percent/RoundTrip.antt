-- ===== src/Iri/Percent/RoundTrip.antt =====
-- Unescaping what the escape functions of libwget/iri.c wrote.
use wget.Iri.Percent.Each.{
  keep_query-ne, isunreserved-hex_digit, each, some_escaped, escape_loop-each, hex_byte-hex_digit,
  isxdigit-hex_digit, isunreserved-ne, isunreserved_path-ne,
}
use wget.Iri.Percent.{
  escape_query, write_query, keep_query, percent, isunreserved, isunreserved_path, escape,
  escape_path, keep_byte, put_byte, unescape,
}
use wget.Prelude.{
  ◌∙◌, ap, map, ◌||◌, ℕ, ◌/◌, ◌%◌, ◌<◌, Bool, true, false, [], ◌∷◌, ◌++◌, ◌≡◌, ◌≢◌, refl, ◌==◌,
  if◌then◌else◌, Bool-cases, inl, inr, Bytes, IsByte, All, Ctype, arith,
}

abbrev pub plus_of_space : ℕ → ℕ
plus_of_space c = if c == b' ' then b'+' else c

module _ (ctype : Ctype) where
  unescape-keep :
      (c : ℕ) (s : Bytes) → c ≢ b'%' → unescape ctype (c ∷ s) ≡ keep_byte ctype c (unescape ctype s)
  unfolding unescape
  unescape-keep c [] h = refl
  unescape-keep c (a ∷ []) h = refl
  unescape-keep c (a ∷ b ∷ s) h =
      let other : (c == b'%') ≡ false = ground arith in rw (other, unescape)

  unescape-percent :
      (c : ℕ) (s : Bytes)
      → c < 256
      → unescape ctype (percent c ++ s) ≡ put_byte ctype c (unescape ctype s)
  unfolding unescape percent
  unescape-percent c s h = rw (
    isxdigit-hex_digit ctype (c / 16) (omega arith),
    isxdigit-hex_digit ctype (c % 16) (omega arith),
    hex_byte-hex_digit c h,
  )

  unescape-each :
      (keep : ℕ → Bool)
      → ((c : ℕ) → keep c ≡ true → c ≢ b'%')
      → (s : Bytes) → All IsByte s
      → unescape ctype (each keep percent s) ≡ (some_escaped keep s, s)
  unfolding keep_byte put_byte
  unescape-each keep plain [] h = unfold unescape in refl
  unescape-each keep plain (c ∷ s) h = elim (Bool-cases (keep c)) [
    | inl e ↦ rw e (rw (unescape-keep c _ (plain c e), unescape-each keep plain s h.1))
    | inr e ↦ rw e (rw (unescape-percent c _ h.0, unescape-each keep plain s h.1))
  ]

  -- Unescaping what `wget_iri_escape` wrote for a string gives the string back, and says that
  -- something changed exactly when a byte of it was not unreserved.
  unescape-escape :
      (s : Bytes)
      → All IsByte s
      → unescape ctype (escape ctype s []) ≡ (some_escaped (isunreserved ctype) s, s)
  unfolding escape
  unescape-escape s h =
      rw escape_loop-each (unescape-each (isunreserved ctype) (isunreserved-ne ctype) s h)

  -- The same for `wget_iri_escape_path`, which leaves the path separator as well.
  unescape-escape_path :
      (s : Bytes)
      → All IsByte s
      → unescape ctype (escape_path ctype s []) ≡ (some_escaped (isunreserved_path ctype) s, s)
  unfolding escape_path
  unescape-escape_path s h =
      rw escape_loop-each (unescape-each (isunreserved_path ctype) (isunreserved_path-ne ctype) s h)

  unescape-write_query :
      (c : ℕ) (s : Bytes)
      → c < 256
      → (unescape ctype (write_query ctype c ++ s)).1 ≡ plus_of_space c ∷ (unescape ctype s).1
  unfolding write_query keep_byte put_byte
  unescape-write_query c s h = elim (Bool-cases (c == b' ')) [
    | inl e ↦ rw e (rw (unescape-keep b'+' s (omega arith)))
    | inr e ↦ rw e (rw (unescape-percent c s h))
  ]

  -- `+` is not kept as it is
  space-keep_query : (c : ℕ) → keep_query ctype c ≡ true → plus_of_space c ≡ c
  unfolding keep_query isunreserved
  space-keep_query c h = ground arith

  unescape-each_query :
      (s : Bytes)
      → All IsByte s
      → (unescape ctype (each (keep_query ctype) (write_query ctype) s)).1 ≡ map plus_of_space s
  unfolding keep_byte
  unescape-each_query [] h = unfold unescape in refl
  unescape-each_query (c ∷ s) h = elim (Bool-cases (keep_query ctype c)) [
    | inl e ↦
        rw (e, space-keep_query c e)
          (rw (unescape-keep c _ (keep_query-ne ctype c e))
            (ap (◌∷◌ c) (unescape-each_query s h.1)))
    | inr e ↦
        rw e (unescape-write_query c _ h.0 ∙ ap (◌∷◌ (plus_of_space c)) (unescape-each_query s h.1))
  ]

  -- Unescaping what `wget_iri_escape_query` wrote gives the string back with `+` for each space.
  unescape-escape_query :
      (s : Bytes)
      → All IsByte s
      → (unescape ctype (escape_query ctype s [])).1 ≡ map plus_of_space s
  unfolding escape_query
  unescape-escape_query s h = rw escape_loop-each (unescape-each_query s h)

  -- Unescaping what `wget_iri_escape` or `wget_iri_escape_path` wrote for a string of bytes gives the string
  -- back, and says that something changed exactly when a byte of it was escaped; what
  -- `wget_iri_escape_query` wrote gives the string back with `+` for each space.
  pub unescape-escapes :
      (s : Bytes)
      → All IsByte s
      → (unescape ctype (escape ctype s []) ≡ (some_escaped (isunreserved ctype) s, s))
        × (unescape ctype (escape_path ctype s []) ≡ (some_escaped (isunreserved_path ctype) s, s))
        × ((unescape ctype (escape_query ctype s [])).1 ≡ map plus_of_space s)
  unescape-escapes s h = (unescape-escape s h, unescape-escape_path s h, unescape-escape_query s h)

  -- what may stand in an escaped string
  abbrev pub IsEscaped : ℕ → Type 0
  IsEscaped c = (isunreserved ctype c || c == b'%') ≡ true

  each-IsEscaped : (s : Bytes) → All IsByte s → All IsEscaped (each (isunreserved ctype) percent s)
  unfolding percent
  each-IsEscaped [] h = tt
  each-IsEscaped (c ∷ s) h = elim (Bool-cases (isunreserved ctype c)) [
    | inl e ↦ rw e (rw e refl, each-IsEscaped s h.1)
    | inr e ↦ rw e (
      ground arith,
      (
        rw (isunreserved-hex_digit ctype (c / 16) (omega arith)),
        (rw (isunreserved-hex_digit ctype (c % 16) (omega arith)), each-IsEscaped s h.1),
      ),
    )
  ]

  -- `wget_iri_escape` appends unreserved characters and `%` only, behind what the buffer held.
  pub escape-IsEscaped :
      (s buf : Bytes)
      → All IsByte s
      → (out : Bytes) × (escape ctype s buf ≡ buf ++ out) × All IsEscaped out
  unfolding escape
  escape-IsEscaped s buf h =
      (each (isunreserved ctype) percent s, escape_loop-each _ _ buf [] s, each-IsEscaped s h)
