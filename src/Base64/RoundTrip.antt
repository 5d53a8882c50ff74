-- ===== src/Base64/RoundTrip.antt =====
-- Decoding what `wget_base64_encode` wrote, and what `wget_base64_is_string` says of it.
use native.Mathlib.Nat.{zero-add, suc-add}
use wget.Base64.Groups.{
  digits, padding, encode_groups_lem, digit_lem, index1, index2, decode_groups-digits,
}
use wget.Base64.{is_base64, skip_base64, is_string, trim, decode, encode}
use wget.Prelude.{
  ℕ, zero, suc, ◌+◌, ◌*◌, ◌/◌, ◌%◌, ◌<◌, ◌≡◌, refl, ap, ◌∙◌, true, false, not, ◌&&◌, ◌||◌, [], ◌∷◌,
  ◌++◌, append-nil, length, length-append, All, ◌==◌, Bytes, IsByte, at, arith,
}

at-All : (P : ℕ → Type 0) (xs ys : Bytes) (n : ℕ) → All P xs → n < length xs → P (at (xs ++ ys) n)
at-All P [] ys n h lt = absurd (omega arith)
at-All P (x ∷ xs) ys zero h lt = h.0
at-All P (x ∷ xs) ys (suc n) h lt = at-All P xs ys n h.1 (omega arith)

abbrev AllBase64 : Bytes → Type 0
AllBase64 = All (λ c. is_base64 c ≡ true)

digits-AllBase64 : (s : Bytes) → All IsByte s → AllBase64 (digits s)
digits-AllBase64 [] h = tt
digits-AllBase64 (a ∷ []) h =
    ((digit_lem (a / 4) (omega arith)).1, ((digit_lem (a % 4 * 16) (omega arith)).1, tt))
digits-AllBase64 (a ∷ b ∷ []) h = rw (index1 a b h.1.0) (
  (digit_lem (a / 4) (omega arith)).1,
  (
    (digit_lem (a % 4 * 16 + b / 16) (omega arith)).1,
    ((digit_lem (b % 16 * 4) (omega arith)).1, tt),
  ),
)
digits-AllBase64 (a ∷ b ∷ c ∷ s) h =
    rw (index1 a b h.1.0, index2 b c h.1.1.0)
      (
        (digit_lem (a / 4) (omega arith)).1,
        (
          (digit_lem (a % 4 * 16 + b / 16) (omega arith)).1,
          (
            (digit_lem (b % 16 * 4 + c / 64) (omega arith)).1,
            ((digit_lem (c % 64) (omega arith)).1, digits-AllBase64 s h.1.1.1),
          ),
        ),
      )

trim_stop : (p : Bytes) (n : ℕ) → is_base64 (at p n) ≡ true → trim p (suc n) ≡ suc n
unfolding trim
trim_stop p n h = rw h

trim_step : (p : Bytes) (n : ℕ) → is_base64 (at p n) ≡ false → trim p (suc n) ≡ trim p n
unfolding trim
trim_step p n h = rw h

trim-AllBase64 : (xs ys : Bytes) (n : ℕ) → AllBase64 xs → n ≡ length xs → trim (xs ++ ys) n ≡ n
unfolding trim
trim-AllBase64 xs ys zero h e = refl
trim-AllBase64 xs ys (suc n) h e =
    trim_stop (xs ++ ys) n (at-All (λ c. is_base64 c ≡ true) xs ys n h (omega arith))

at-append : (xs ys : Bytes) (n : ℕ) → at (xs ++ ys) (length xs + n) ≡ at ys n
at-append [] ys n = rw zero-add
at-append (x ∷ xs) ys n = rw suc-add (at-append xs ys n)

equals-is_base64 : is_base64 b'=' ≡ false
unfolding is_base64
equals-is_base64 = refl

trim_pad :
    (xs ys : Bytes) (k n : ℕ)
    → n ≡ length xs + k
    → at ys k ≡ b'='
    → trim (xs ++ ys) (suc n) ≡ trim (xs ++ ys) n
trim_pad xs ys k n e h = trim_step (xs ++ ys) n (rw (e, at-append, h) equals-is_base64)

trim-padding :
    (s xs : Bytes) → AllBase64 xs → trim (xs ++ padding s) (length (xs ++ padding s)) ≡ length xs
trim-padding [] xs h = rw (ap length (append-nil xs)) (trim-AllBase64 xs [] (length xs) h refl)
trim-padding (a ∷ []) xs h =
    let n = length xs in
    let pads : Bytes = b'=' ∷ b'=' ∷ [] in
    let size : length (xs ++ pads) ≡ suc (suc n) = omega (arith, length-append xs pads) in
    rw size (
      trim_pad xs pads 1 (suc n) (omega arith) refl
      ∙ trim_pad xs pads 0 n (omega arith) refl
      ∙ trim-AllBase64 xs pads n h refl)
trim-padding (a ∷ b ∷ []) xs h =
    let n = length xs in
    let pads : Bytes = b'=' ∷ [] in
    let size : length (xs ++ pads) ≡ suc n = omega (arith, length-append xs pads) in
    rw size (trim_pad xs pads 0 n (omega arith) refl ∙ trim-AllBase64 xs pads n h refl)
trim-padding (a ∷ b ∷ c ∷ s) xs h = trim-padding s xs h

-- Decoding the base64 string of a byte string gives that byte string back, whatever the bytes:
-- the padding is trimmed, and no byte is lost, a final NUL included.
pub decode-encode : (s : Bytes) → All IsByte s → decode (encode s) ≡ s
unfolding decode encode
decode-encode s h =
    rw encode_groups_lem
      (rw (trim-padding s (digits s) (digits-AllBase64 s h)) (decode_groups-digits s (padding s) h))

-- The encoding has four characters for each three bytes begun, which is what
-- `wget_base64_encode_alloc` allocates with one more byte for the NUL.
pub length-encode : (s : Bytes) → length (encode s) ≡ (length s + 2) / 3 * 4
unfolding encode
length-encode s = rw encode_groups_lem (size s)
  where
    size : (t : Bytes) → length (digits t ++ padding t) ≡ (length t + 2) / 3 * 4
    size [] = refl
    size (a ∷ []) = refl
    size (a ∷ b ∷ []) = refl
    size (a ∷ b ∷ c ∷ t) = omega (arith, size t)

skip_base64-append : (xs ys : Bytes) → AllBase64 xs → skip_base64 (xs ++ ys) ≡ skip_base64 ys
unfolding skip_base64
skip_base64-append [] ys h = refl
skip_base64-append (x ∷ xs) ys h = rw h.0 (skip_base64-append xs ys h.1)

is_string-padding :
    (s xs : Bytes) → AllBase64 xs → is_string (xs ++ padding s) ≡ not (length s % 3 == 2)
unfolding is_string
is_string-padding s xs h = rw (skip_base64-append xs (padding s) h) (rest s)
  where
    rest :
        (t : Bytes)
        → (let p = skip_base64 (padding t) in
            (at p 0 == 0
              || (at p 0 == b'=' && not (at p 1 == 0))
              || (at p 0 == b'=' && at p 1 == b'=' && not (at p 2 == 0)))
            ≡ not (length t % 3 == 2))
    rest [] = refl
    rest (a ∷ []) = refl
    rest (a ∷ b ∷ []) = refl
    rest (a ∷ b ∷ c ∷ t) =
        let same : suc (suc (suc (length t))) % 3 ≡ length t % 3 = omega arith in rw same (rest t)

-- The check for a base64 string accepts what the encoder wrote exactly when the length of the text
-- does not leave 2 on division by 3: a single `=` at the end is refused.
pub is_string-encode : (s : Bytes) → All IsByte s → is_string (encode s) ≡ not (length s % 3 == 2)
unfolding encode
is_string-encode s h = rw encode_groups_lem (is_string-padding s (digits s) (digits-AllBase64 s h))
