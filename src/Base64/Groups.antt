-- ===== src/Base64/Groups.antt =====
-- The groups of three bytes and four digits of libwget/base64.c, one at a time.
use wget.Base64.{
  bin, digit, is_base64, byte0, byte1, byte2, unless_nul, decode_extra, decode_groups, encode_extra,
  encode_groups,
}
use wget.Prelude.{
  ℕ, suc, ◌+◌, ◌*◌, ◌/◌, ◌%◌, ◌<◌, ◌≡◌, refl, bit_or, true, ◌&&◌, [], ◌∷◌, ◌++◌, length, All, ◌==◌,
  Bytes, IsByte, every, every_elim, or_shift2, or_shift4, or_shift6, arith,
}

-- the digits of a text, with no padding
abbrev pub digits : Bytes → Bytes
digits [] = []
digits (a ∷ []) = digit (a / 4) ∷ digit (a % 4 * 16) ∷ []
digits (a ∷ b ∷ []) = digit (a / 4) ∷ digit (bit_or (a % 4 * 16) (b / 16)) ∷ digit (b % 16 * 4) ∷ []
digits (a ∷ b ∷ c ∷ s) =
    digit (a / 4)
    ∷ digit (bit_or (a % 4 * 16) (b / 16))
    ∷ digit (bit_or (b % 16 * 4) (c / 64))
    ∷ digit (c % 64)
    ∷ digits s

abbrev pub padding : Bytes → Bytes
padding [] = []
padding (a ∷ []) = b'=' ∷ b'=' ∷ []
padding (a ∷ b ∷ []) = b'=' ∷ []
padding (a ∷ b ∷ c ∷ s) = padding s

pub encode_groups_lem :
    (s : Bytes) → encode_groups (length s / 3) (length s % 3) s ≡ digits s ++ padding s
unfolding encode_groups encode_extra
encode_groups_lem [] = refl
encode_groups_lem (a ∷ []) = refl
encode_groups_lem (a ∷ b ∷ []) = refl
encode_groups_lem (a ∷ b ∷ c ∷ s) =
    let quotient : suc (suc (suc (length s))) / 3 ≡ suc (length s / 3) = omega arith in
    let rest : suc (suc (suc (length s))) % 3 ≡ length s % 3 = omega arith in
    rw (quotient, rest, encode_groups_lem s)

digit_table : every (λ i. bin (digit i) == i && is_base64 (digit i)) 64 ≡ true
unfolding every bin digit is_base64
digit_table = refl

pub digit_lem : (i : ℕ) → i < 64 → (bin (digit i) ≡ i) × (is_base64 (digit i) ≡ true)
digit_lem i h =
    let both = every_elim (λ j. bin (digit j) == j && is_base64 (digit j)) 64 i h digit_table in
    ground arith

byte0_lem : (i j : ℕ) → i < 64 → j < 64 → byte0 i j ≡ i * 4 + j / 16
unfolding byte0
byte0_lem i j hi hj = omega (arith, or_shift2 i (j / 16))

byte1_lem : (j k : ℕ) → j < 64 → k < 64 → byte1 j k ≡ j % 16 * 16 + k / 4
unfolding byte1
byte1_lem j k hj hk = omega (arith, or_shift4 (j % 16) (k / 4))

byte2_lem : (k l : ℕ) → k < 64 → l < 64 → byte2 k l ≡ k % 4 * 64 + l
unfolding byte2
byte2_lem k l hk hl = omega (arith, or_shift6 (k % 4) l)

-- The indices that the encoder looks up for a group.
pub index1 : (a b : ℕ) → IsByte b → bit_or (a % 4 * 16) (b / 16) ≡ a % 4 * 16 + b / 16
index1 a b h = or_shift4 (a % 4) (b / 16) (omega arith) (omega arith)

pub index2 : (b c : ℕ) → IsByte c → bit_or (b % 16 * 4) (c / 64) ≡ b % 16 * 4 + c / 64
index2 b c h = or_shift2 (b % 16) (c / 64) (omega arith) (omega arith)

group0 :
    (a i : ℕ) → IsByte a → i < 64 → i / 16 ≡ a % 4 → byte0 (bin (digit (a / 4))) (bin (digit i)) ≡ a
group0 a i ha hi e =
    rw ((digit_lem (a / 4) (omega arith)).0, (digit_lem i hi).0)
      (omega (arith, byte0_lem (a / 4) i))

group1 :
    (b i j : ℕ)
    → i < 64
    → j < 64
    → i % 16 ≡ b / 16
    → j / 4 ≡ b % 16
    → byte1 (bin (digit i)) (bin (digit j)) ≡ b
group1 b i j hi hj e f = rw ((digit_lem i hi).0, (digit_lem j hj).0) (omega (arith, byte1_lem i j))

group2 :
    (c i : ℕ)
    → IsByte c
    → i < 64
    → i % 4 ≡ c / 64
    → byte2 (bin (digit i)) (bin (digit (c % 64))) ≡ c
group2 c i hc hi e =
    rw ((digit_lem i hi).0, (digit_lem (c % 64) (omega arith)).0)
      (omega (arith, byte2_lem i (c % 64)))

pub decode_groups-digits :
    (s q : Bytes)
    → All IsByte s
    → decode_groups (length (digits s) / 4) (length (digits s) % 4) (digits s ++ q) ≡ s
unfolding decode_groups decode_extra unless_nul
decode_groups-digits [] q h = refl
decode_groups-digits (a ∷ []) q h = rw (
  group0 a (a % 4 * 16) h.0 (omega arith) (omega arith),
  (digit_lem (a % 4 * 16) (omega arith)).0,
  let empty : a % 4 * 16 % 16 * 16 % 256 ≡ 0 = omega arith in empty,
)
decode_groups-digits (a ∷ b ∷ []) q h = rw (
  index1 a b h.1.0,
  group0 a (a % 4 * 16 + b / 16) h.0 (omega arith) (omega arith),
  group1 b (a % 4 * 16 + b / 16) (b % 16 * 4) (omega arith) (omega arith) (omega arith)
      (omega arith),
  (digit_lem (b % 16 * 4) (omega arith)).0,
  let empty : b % 16 * 4 % 4 * 64 % 256 ≡ 0 = omega arith in empty,
)
decode_groups-digits (a ∷ b ∷ c ∷ s) q h =
    let n = length (digits s) in
    let quotient : suc (suc (suc (suc n))) / 4 ≡ suc (n / 4) = omega arith in
    let rest : suc (suc (suc (suc n))) % 4 ≡ n % 4 = omega arith in
    rw (quotient, rest, index1 a b h.1.0, index2 b c h.1.1.0, decode_groups-digits s q h.1.1.1)
      (rw (
        group0 a (a % 4 * 16 + b / 16) h.0 (omega arith) (omega arith),
        group1 b (a % 4 * 16 + b / 16) (b % 16 * 4 + c / 64) (omega arith) (omega arith)
            (omega arith) (omega arith),
        group2 c (b % 16 * 4 + c / 64) h.1.1.0 (omega arith) (omega arith),
      ))
