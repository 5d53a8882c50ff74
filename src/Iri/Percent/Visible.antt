-- ===== src/Iri/Percent/Visible.antt =====
-- Escaped strings hold printable ASCII without blanks only.
use wget.Prelude.{
  ℕ, ◌/◌, ◌%◌, ◌<◌, ◌≡◌, refl, Bool, true, ◌&&◌, [], ◌∷◌, ◌++◌, ltb, ◌==◌, Bool-cases, inl, inr,
  Bytes, IsByte, All, All-append, every, every_elim, Ctype, arith,
}
use wget.Iri.Percent.{
  percent, hex_digit, isunreserved, isunreserved_path, keep_query, write_query, escape_path,
  escape_query,
}
use wget.Iri.Percent.Each.{each, escape_loop-each}

abbrev pub is_visible : ℕ → Bool
is_visible c = ltb 32 c && ltb c 127

abbrev pub Visible : Bytes → Type 0
Visible s = All (λ c. is_visible c ≡ true) s

each-Visible :
    (keep : ℕ → Bool) (write : ℕ → Bytes) (s : Bytes)
    → ((c : ℕ) → keep c ≡ true → is_visible c ≡ true)
    → ((c : ℕ) → c < 256 → Visible (write c))
    → All IsByte s
    → Visible (each keep write s)
each-Visible keep write [] k w h = tt
each-Visible keep write (c ∷ s) k w h = elim (Bool-cases (keep c)) [
  | inl e ↦ rw e (k c e, each-Visible keep write s k w h.1)
  | inr e ↦ rw e (
      All-append (λ d. is_visible d ≡ true) (write c) (each keep write s) (w c h.0)
        (each-Visible keep write s k w h.1))
]

hex_table : every (λ n. is_visible (hex_digit n)) 16 ≡ true
unfolding every hex_digit
hex_table = refl

hex_digit-Visible : (n : ℕ) → n < 16 → is_visible (hex_digit n) ≡ true
hex_digit-Visible n h = every_elim (λ n. is_visible (hex_digit n)) 16 n h hex_table

percent-Visible : (c : ℕ) → c < 256 → Visible (percent c)
unfolding percent
percent-Visible c h = (
  refl,
  (hex_digit-Visible (c / 16) (omega arith), (hex_digit-Visible (c % 16) (omega arith), tt)),
)

module _ (ctype : Ctype) where
  isunreserved_path-Visible : (c : ℕ) → isunreserved_path ctype c ≡ true → is_visible c ≡ true
  unfolding isunreserved_path
  isunreserved_path-Visible c h = ground (arith, h)

  keep_query-Visible : (c : ℕ) → keep_query ctype c ≡ true → is_visible c ≡ true
  unfolding keep_query isunreserved
  keep_query-Visible c h = ground (arith, h)

  write_query-Visible : (c : ℕ) → c < 256 → Visible (write_query ctype c)
  unfolding write_query
  write_query-Visible c h = elim (Bool-cases (c == b' ')) [
    | inl e ↦ rw e (refl, tt)
    | inr e ↦ rw e (percent-Visible c h)
  ]

  -- what is written behind the buffer
  pub escape_path-Visible :
      (s buf : Bytes)
      → All IsByte s
      → (out : Bytes) × (escape_path ctype s buf ≡ buf ++ out) × Visible out
  unfolding escape_path
  escape_path-Visible s buf h = (
    each (isunreserved_path ctype) percent s,
    escape_loop-each _ _ buf [] s,
    each-Visible (isunreserved_path ctype) percent s isunreserved_path-Visible percent-Visible h,
  )

  pub escape_query-Visible :
      (s buf : Bytes)
      → All IsByte s
      → (out : Bytes) × (escape_query ctype s buf ≡ buf ++ out) × Visible out
  unfolding escape_query
  escape_query-Visible s buf h = (
    each (keep_query ctype) (write_query ctype) s,
    escape_loop-each _ _ buf [] s,
    each-Visible (keep_query ctype) (write_query ctype) s keep_query-Visible write_query-Visible h,
  )
