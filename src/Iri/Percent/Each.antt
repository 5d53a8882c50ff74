-- ===== src/Iri/Percent/Each.antt =====
-- The loop of the escape functions, byte by byte.
use wget.Iri.Percent.{
  escape_loop, hex_digit, unhex, hex_byte, unreserved_mark, isunreserved, isunreserved_path,
  keep_query,
}
use wget.Prelude.{
  ℕ, ◌/◌, ◌%◌, ◌<◌, Bool, true, false, not, ◌||◌, [], ◌∷◌, ◌++◌, append-nil, append_assoc, ◌≡◌, ◌≢◌,
  refl, ◌∙◌, ==_iff, ◌==◌, if◌then◌else◌, Bool-cases, inl, inr, Bytes, every, every_elim, Ctype,
  arith,
}

-- what a function writes for one byte after the other
abbrev pub each : (ℕ → Bool) → (ℕ → Bytes) → Bytes → Bytes
each keep write [] = []
each keep write (c ∷ s) = (if keep c then c ∷ [] else write c) ++ each keep write s

-- whether some byte is not kept
abbrev pub some_escaped : (ℕ → Bool) → Bytes → Bool
some_escaped keep [] = false
some_escaped keep (c ∷ s) = not (keep c) || some_escaped keep s

pub escape_loop-each :
    (keep : ℕ → Bool) (write : ℕ → Bytes) (buf run src : Bytes)
    → escape_loop keep write buf run src ≡ buf ++ (run ++ each keep write src)
unfolding escape_loop
escape_loop-each keep write buf run [] = rw append-nil
escape_loop-each keep write buf run (c ∷ src) = elim (Bool-cases (keep c)) [
  | inl e ↦ rw e (escape_loop-each keep write buf (run ++ c ∷ []) src ∙ simp append_assoc)
  | inr e ↦ rw e (escape_loop-each keep write ((buf ++ run) ++ write c) [] src ∙ simp append_assoc)
]

hex_table : every (λ c. hex_byte (hex_digit (c / 16)) (hex_digit (c % 16)) == c) 256 ≡ true
unfolding every hex_byte hex_digit unhex
hex_table = refl

pub hex_byte-hex_digit : (c : ℕ) → c < 256 → hex_byte (hex_digit (c / 16)) (hex_digit (c % 16)) ≡ c
hex_byte-hex_digit c h =
    (==_iff _ _).0
      (every_elim (λ a. hex_byte (hex_digit (a / 16)) (hex_digit (a % 16)) == a) 256 c h hex_table)

module _ (ctype : Ctype) where
  pub isxdigit-hex_digit : (n : ℕ) → n < 16 → ctype.isxdigit (hex_digit n) ≡ true
  unfolding hex_digit
  isxdigit-hex_digit n h = ctype.isxdigit_ascii _ ∙ ground arith

  -- `%` is not unreserved
  pub isunreserved-ne : (c : ℕ) → isunreserved ctype c ≡ true → c ≢ b'%'
  unfolding isunreserved unreserved_mark
  isunreserved-ne c h = ground (arith, ctype.isalnum_ascii c)

  pub isunreserved_path-ne : (c : ℕ) → isunreserved_path ctype c ≡ true → c ≢ b'%'
  unfolding isunreserved_path unreserved_mark
  isunreserved_path-ne c h = ground (arith, ctype.isalnum_ascii c)

  pub keep_query-ne : (c : ℕ) → keep_query ctype c ≡ true → c ≢ b'%'
  unfolding keep_query
  keep_query-ne c h = ground (arith, isunreserved-ne c)

  pub isunreserved-hex_digit : (n : ℕ) → n < 16 → isunreserved ctype (hex_digit n) ≡ true
  unfolding isunreserved hex_digit unreserved_mark
  isunreserved-hex_digit n h = rw ctype.isalnum_ascii (ground arith)
