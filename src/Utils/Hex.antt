-- ===== src/Utils/Hex.antt =====
-- What `wget_memtohex` writes.
use wget.Prelude.{
  ℕ, zero, suc, ◌*◌, ◌/◌, ◌%◌, ◌<◌, ◌≤◌, ◌≡◌, refl, ap, ◌∙◌, sym, Bool-cases, inl, inr, [], ◌∷◌,
  ◌++◌, append-nil, some, length, take, drop, leb, ◌==◌, Bytes, arith,
}
use wget.Utils.{to_hex, half_byte, memtohex}

take_all-to_hex : (src : Bytes) (m : ℕ) → length src * 2 ≤ m → take m (to_hex src) ≡ to_hex src
take_all-to_hex [] zero h = refl
take_all-to_hex [] (suc m) h = refl
take_all-to_hex (c ∷ src) zero h = absurd (omega arith)
take_all-to_hex (c ∷ src) (suc zero) h = absurd (omega arith)
take_all-to_hex (c ∷ src) (suc (suc m)) h = rw (take_all-to_hex src m (omega arith)) refl

take-to_hex : (src : Bytes) (n m : ℕ) → m ≡ n * 2 → take m (to_hex src) ≡ to_hex (take n src)
take-to_hex src zero zero h = refl
take-to_hex src zero (suc m) h = absurd (omega arith)
take-to_hex src (suc n) zero h = absurd (omega arith)
take-to_hex src (suc n) (suc zero) h = absurd (omega arith)
take-to_hex [] (suc n) (suc (suc m)) h = refl
take-to_hex (c ∷ src) (suc n) (suc (suc m)) h = rw (take-to_hex src n m (omega arith)) refl

take_odd-to_hex :
    (src : Bytes) (n m : ℕ)
    → n < length src
    → m ≡ n * 2
    → take (suc m) (to_hex src) ≡ to_hex (take n src) ++ half_byte 0 (drop n src)
take_odd-to_hex [] n m k h = absurd (omega arith)
take_odd-to_hex (c ∷ src) zero zero k h = refl
take_odd-to_hex (c ∷ src) zero (suc m) k h = absurd (omega arith)
take_odd-to_hex (c ∷ src) (suc n) zero k h = absurd (omega arith)
take_odd-to_hex (c ∷ src) (suc n) (suc zero) k h = absurd (omega arith)
take_odd-to_hex (c ∷ src) (suc n) (suc (suc m)) k h =
    rw (take_odd-to_hex src n m (omega arith) (omega arith)) refl

-- a buffer that is too small is filled
fill-to_hex :
    (src : Bytes) (n : ℕ)
    → suc n ≤ length src * 2
    → to_hex (take (n / 2) src) ++ half_byte (suc n) (drop (n / 2) src) ≡ take n (to_hex src)
fill-to_hex src n h = elim (Bool-cases (suc n % 2 == 0)) [
  | inl e ↦
      let odd : n ≡ suc (n / 2 * 2) = ground (arith, e) in
      let full : take n (to_hex src) ≡ to_hex (take (n / 2) src) ++ half_byte 0 (drop (n / 2) src) =
        ap (λ m. take m (to_hex src)) odd
        ∙ take_odd-to_hex src (n / 2) (n / 2 * 2) (omega arith) refl in
      rw e (sym full)
  | inr e ↦
      let even : n ≡ n / 2 * 2 = ground (arith, e) in
      rw e (append-nil (to_hex (take (n / 2) src)) ∙ sym (take-to_hex src (n / 2) n even))
]

-- `wget_memtohex` with a buffer of n + 1 bytes writes the first n digits of the whole encoding, and
-- so never more than fits with the NUL.
pub memtohex-take : (src : Bytes) (n : ℕ) → memtohex src (suc n) ≡ some (take n (to_hex src))
unfolding memtohex
memtohex-take src n = elim (Bool-cases (leb (suc n) (length src * 2))) [
  | inl e ↦ rw e (ap some (fill-to_hex src n (ground (arith, e))))
  | inr e ↦ rw e (ap some (sym (take_all-to_hex src n (ground (arith, e)))))
]
