-- ===== src/Http/Date/Print.antt =====
-- Dates as text, and what `sscanf` reads of them.
use wget.Prelude.{
  Bool, ℕ, ◌+◌, ◌-◌, ◌*◌, ◌/◌, ◌%◌, ◌<◌, ◌≤◌, ◌≡◌, refl, ◌∙◌, ap, true, false, ◌||◌, ◌&&◌, List, [],
  ◌∷◌, some, get_or, ◌==◌, Bytes, pos, arith, every, every_elim, skip,
}
use wget.Http.Sscanf.{
  Fields, is_space, is_letter, is_digit, digits, unsigned, signed, word_bytes, scan, scan_number,
  Directive,
}
use wget.Http.Date.{mnames, time_format}

-- numbers of two and of four digits in front of a text
abbrev pub two : ℕ → Bytes → Bytes
two n rest = (48 + n / 10) ∷ (48 + n % 10) ∷ rest

abbrev pub four : ℕ → Bytes → Bytes
four n rest = two (n / 100) (two (n % 100) rest)

abbrev pub clock : ℕ → ℕ → ℕ → Bytes → Bytes
clock hour min sec rest = two hour (b':' ∷ two min (b':' ∷ two sec rest))

scan_digits :
    (a b : ℕ) (rest : Bytes)
    → is_digit a ≡ true
    → is_digit b ≡ true
    → scan_number (some 2) (a ∷ b ∷ rest) ≡ some (pos ((a - 48) * 10 + (b - 48)), rest)
unfolding signed unsigned digits
scan_digits a b rest h k =
    let blank : is_space a ≡ false = ground (arith, h) in
    let minus : (a == b'-') ≡ false = ground (arith, h) in
    let plus : (a == b'+') ≡ false = ground (arith, h) in
    rw blank (rw minus (rw plus (rw h (rw k refl))))

is_digit_of : (n : ℕ) → n < 10 → is_digit (48 + n) ≡ true
is_digit_of n h = ground arith

pub scan-two :
    (n : ℕ) (rest : Bytes) → n < 100 → scan_number (some 2) (two n rest) ≡ some (pos n, rest)
scan-two n rest h =
    let value : (48 + n / 10 - 48) * 10 + (48 + n % 10 - 48) ≡ n = omega arith in
    scan_digits (48 + n / 10) (48 + n % 10) rest (is_digit_of (n / 10) (omega arith))
      (is_digit_of (n % 10) (omega arith))
    ∙ ap (λ m. some (pos m, rest)) value

scan_digits4 :
    (a b c d : ℕ) (rest : Bytes)
    → is_digit a ≡ true
    → is_digit b ≡ true
    → is_digit c ≡ true
    → is_digit d ≡ true
    → scan_number (some 4) (a ∷ b ∷ c ∷ d ∷ rest)
      ≡ some (pos ((((a - 48) * 10 + (b - 48)) * 10 + (c - 48)) * 10 + (d - 48)), rest)
unfolding signed unsigned digits
scan_digits4 a b c d rest h k l m =
    let blank : is_space a ≡ false = ground (arith, h) in
    let minus : (a == b'-') ≡ false = ground (arith, h) in
    let plus : (a == b'+') ≡ false = ground (arith, h) in
    rw blank (rw minus (rw plus (rw h (rw k (rw l (rw m refl))))))

pub scan-four :
    (n : ℕ) (rest : Bytes) → n < 10000 → scan_number (some 4) (four n rest) ≡ some (pos n, rest)
scan-four n rest h =
    let f = n / 100 in
    let l = n % 100 in
    let value : (((48 + f / 10 - 48) * 10 + (48 + f % 10 - 48)) * 10 + (48 + l / 10 - 48)) * 10
          + (48 + l % 10 - 48)
        ≡ n =
      omega arith in
    scan_digits4 (48 + f / 10) (48 + f % 10) (48 + l / 10) (48 + l % 10) rest
      (is_digit_of (f / 10) (omega arith)) (is_digit_of (f % 10) (omega arith))
      (is_digit_of (l / 10) (omega arith)) (is_digit_of (l % 10) (omega arith))
    ∙ ap (λ m. some (pos m, rest)) value

-- two digits where four may stand
pub scan_short :
    (n : ℕ) (rest : Bytes)
    → n < 100
    → scan_number (some 4) (two n (b' ' ∷ rest)) ≡ some (pos n, b' ' ∷ rest)
unfolding signed unsigned digits
scan_short n rest h =
    let a = is_digit_of (n / 10) (omega arith) in
    let b = is_digit_of (n % 10) (omega arith) in
    let blank : is_space (48 + n / 10) ≡ false = ground (arith, a) in
    let minus : ((48 + n / 10) == b'-') ≡ false = ground (arith, a) in
    let plus : ((48 + n / 10) == b'+') ≡ false = ground (arith, a) in
    let value : (48 + n / 10 - 48) * 10 + (48 + n % 10 - 48) ≡ n = omega arith in
    rw blank (rw minus (rw plus (rw a (rw b (ap (λ m. some (pos m, b' ' ∷ rest)) value)))))

pub skip-two : (n : ℕ) (rest : Bytes) → n < 100 → skip is_space (two n rest) ≡ two n rest
skip-two n rest h =
    let blank : is_space (48 + n / 10) ≡ false =
      ground (arith, is_digit_of (n / 10) (omega arith)) in
    rw blank refl

pub scan-clock :
    (hour min sec : ℕ) (rest : Bytes) (ds : List Directive) (f : Fields)
    → hour < 100
    → min < 100
    → sec < 100
    → scan (time_format ds) (clock hour min sec rest) f
      ≡ scan ds rest (record f { hour = pos hour; min = pos min; sec = pos sec })
unfolding scan
scan-clock hour min sec rest ds f h k l =
    rw (scan-two hour (b':' ∷ two min (b':' ∷ two sec rest)) h)
      (rw (scan-two min (b':' ∷ two sec rest) k) (rw (scan-two sec rest l) refl))

-- the bytes of a name of a month
abbrev is_name : Bytes → Bool
is_name (a ∷ b ∷ c ∷ []) = is_letter a && (is_letter b && is_letter c)
is_name other = false

pub record Name (name : Bytes) : Type 0 where
  pub first : ℕ
  pub second : ℕ
  pub third : ℕ
  pub parts : name ≡ first ∷ second ∷ third ∷ []
  pub letter1 : is_letter first ≡ true
  pub letter2 : is_letter second ≡ true
  pub letter3 : is_letter third ≡ true

is_name-Name : (name : Bytes) → is_name name ≡ true → Name name
is_name-Name [] h = cc
is_name-Name (a ∷ []) h = cc
is_name-Name (a ∷ b ∷ []) h = cc
is_name-Name (a ∷ b ∷ c ∷ d ∷ s) h = cc
is_name-Name (a ∷ b ∷ c ∷ []) h = record {
  first = a;
  second = b;
  third = c;
  parts = refl;
  letter1 = ground (arith, h);
  letter2 = ground (arith, h);
  letter3 = ground (arith, h);
}

pub month-Name : (mon : ℕ) → 1 ≤ mon → mon ≤ 12 → Name (get_or mnames (mon - 1) [])
month-Name mon h k =
    let table =
      every_elim (λ m. m == 0 || is_name (get_or mnames (m - 1) [])) 13 mon (omega arith)
        (unfold every in refl) in
    is_name-Name (get_or mnames (mon - 1) []) (ground (arith, table))

pub word_letters :
    (a b c : ℕ) (rest : Bytes)
    → is_letter a ≡ true
    → is_letter b ≡ true
    → is_letter c ≡ true
    → word_bytes 3 (skip is_space (a ∷ b ∷ c ∷ rest)) ≡ (a ∷ b ∷ c ∷ [], rest)
unfolding word_bytes
word_letters a b c rest h k l =
    let first : is_space a ≡ false = ground (arith, h) in
    let second : is_space b ≡ false = ground (arith, k) in
    let third : is_space c ≡ false = ground (arith, l) in
    rw first (rw first (rw second (rw third refl)))
