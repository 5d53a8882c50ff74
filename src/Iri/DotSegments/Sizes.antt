-- ===== src/Iri/DotSegments/Sizes.antt =====
-- Normalizing in place: the query and the fragment, and how much is written in front of them.
use mathlib.Core.List.{reverse_aux}
use wget.Prelude.{
  append_assoc, sym, ◌∙◌, ap, All, ◌++◌, ◌⊎◌, ℕ, zero, suc, ◌+◌, ◌-◌, ◌<◌, ◌≤◌, ◌≡◌, ◌≢◌, refl,
  true, false, Bool-cases, inl, inr, [], ◌∷◌, reverse, length, length-append, length-drop, drop,
  Bytes, at, arith,
}
use wget.Iri.DotSegments.{
  skipped, skip_dots, go_up, end_slash, round, stops, rounds, dot_segments, normalize_path,
}

at-inside : (p : Bytes) (i : ℕ) → at p i ≢ 0 → i < length p
at-inside [] i h = absurd (h refl)
at-inside (c ∷ p) zero h = omega arith
at-inside (c ∷ p) (suc i) h = omega (arith, at-inside p i h)

length-go_up : (out : Bytes) → length (go_up out) ≤ length out - 1
unfolding go_up
length-go_up [] = omega arith
length-go_up (c ∷ out) = ground (arith, length-go_up out)

length-end_slash :
    (out : Bytes)
    → (length (end_slash out) ≤ length out + 1) × (length out ≡ 0 → length (end_slash out) ≡ 0)
unfolding end_slash
length-end_slash [] = (omega arith, λ h. refl)
length-end_slash (c ∷ out) = (omega arith, λ h. absurd (omega arith))

-- how far the string's bytes are read and written after a round
round_sizes :
    (out p : Bytes)
    → stops p ≡ false
    → (0 < (round out p).1)
      × ((round out p).1 ≤ length p)
      × (length (round out p).0 ≤ length out + (round out p).1)
unfolding round
round_sizes out p h =
    let a = at-inside p 0 in
    let b = at-inside p 1 in
    let c = at-inside p 2 in
    let d = at-inside p 3 in
    let u = length-go_up out in
    let e = length-end_slash out in
    let f = length-end_slash (go_up out) in
    (ground arith, ground (arith, a, b, c, d), ground (arith, u, e, f))

rounds-stops : (fuel : ℕ) (out p : Bytes) → length p ≤ fuel → stops (rounds fuel out p).1 ≡ true
unfolding rounds
rounds-stops zero out [] h = refl
rounds-stops zero out (c ∷ p) h = absurd (omega arith)
rounds-stops (suc fuel) out p h = elim (Bool-cases (stops p)) [
  | inl e ↦ rw (e, rounds) e
  | inr e ↦
      let size = round_sizes out p e in
      rw (e, rounds)
        (rounds-stops fuel (round out p).0 (drop (round out p).1 p)
          (omega (arith, size.0, size.1, length-drop (round out p).1 p)))
]

length-rounds :
    (fuel : ℕ) (out p : Bytes)
    → length (rounds fuel out p).0 + length (rounds fuel out p).1 ≤ length out + length p
unfolding rounds
length-rounds zero out p = omega arith
length-rounds (suc fuel) out p = elim (Bool-cases (stops p)) [
  | inl e ↦ rw (e, rounds) (omega arith)
  | inr e ↦
      let size = round_sizes out p e in
      let rest = length-rounds fuel (round out p).0 (drop (round out p).1 p) in
      rw (e, rounds) (omega (arith, size.1, size.2, rest, length-drop (round out p).1 p))
]

length-skip_dots : (fuel : ℕ) (p : Bytes) → length (skip_dots fuel p) ≤ length p
unfolding skip_dots
length-skip_dots zero p = omega arith
length-skip_dots (suc fuel) p =
    shorter (skipped p) refl (λ k. length-skip_dots fuel (drop (suc k) p))
  where
    shorter :
        (n : ℕ)
        → skipped p ≡ n
        → ((k : ℕ) → length (skip_dots fuel (drop (suc k) p)) ≤ length (drop (suc k) p))
        → length (skip_dots (suc fuel) p) ≤ length p
    shorter zero e keep = rw (e, skip_dots) (omega arith)
    shorter (suc k) e keep = rw (e, skip_dots) (omega (arith, keep k, length-drop (suc k) p))

length-reverse_aux : (s r : Bytes) → length (reverse_aux s r) ≡ length s + length r
length-reverse_aux [] r = omega arith
length-reverse_aux (c ∷ s) r = omega (arith, length-reverse_aux s (c ∷ r))

stops_elim : (p : Bytes) → stops p ≡ true → (at p 0 ≡ 0) ⊎ (at p 0 ≡ b'?') ⊎ (at p 0 ≡ b'#')
stops_elim p h = ground arith

-- no end, no question mark and no hash sign
abbrev pub Plain : ℕ → Type 0
Plain c = (c ≢ 0) × (c ≢ b'?') × (c ≢ b'#')

-- `rest` stands behind plain bytes
record Split (p rest : Bytes) : Type 0 where
  front : Bytes
  parts : p ≡ front ++ rest
  plain : All Plain front

Split-drop : (n : ℕ) (p : Bytes) → ((i : ℕ) → i < n → Plain (at p i)) → Split p (drop n p)
Split-drop zero p h = record { front = []; parts = refl; plain = tt }
Split-drop (suc n) [] h = absurd ((h 0 (omega arith)).0 refl)
Split-drop (suc n) (c ∷ p) h =
    let s = Split-drop n p (λ i k. h (suc i) (omega (arith, k))) in
    record { front = c ∷ s.front; parts = ap (◌∷◌ c) s.parts; plain = (h 0 (omega arith), s.plain) }

All-append : (a b : Bytes) → All Plain a → All Plain b → All Plain (a ++ b)
All-append [] b h k = k
All-append (c ∷ a) b h k = (h.0, All-append a b h.1 k)

Split-trans : {p q r : Bytes} → Split p q → Split q r → Split p r
Split-trans {r = r} s t = record {
  front = s.front ++ t.front;
  parts = s.parts ∙ ap (λ x. s.front ++ x) t.parts ∙ sym (append_assoc s.front t.front r);
  plain = All-append s.front t.front s.plain t.plain;
}

skipped_plain : (p : Bytes) (i : ℕ) → i < skipped p → Plain (at p i)
unfolding skipped
skipped_plain p zero h = (ground arith, ground arith, ground arith)
skipped_plain p (suc zero) h = (ground arith, ground arith, ground arith)
skipped_plain p (suc (suc zero)) h = (ground arith, ground arith, ground arith)
skipped_plain p (suc (suc (suc i))) h = absurd (ground arith)

round_plain : (out p : Bytes) (i : ℕ) → stops p ≡ false → i < (round out p).1 → Plain (at p i)
unfolding round
round_plain out p zero e h = (ground arith, ground arith, ground arith)
round_plain out p (suc zero) e h = (ground arith, ground arith, ground arith)
round_plain out p (suc (suc zero)) e h = (ground arith, ground arith, ground arith)
round_plain out p (suc (suc (suc i))) e h = absurd (ground arith)

Split-refl : (p : Bytes) → Split p p
Split-refl p = record { front = []; parts = refl; plain = tt }

rounds-Split : (fuel : ℕ) (out p : Bytes) → Split p (rounds fuel out p).1
unfolding rounds
rounds-Split zero out p = Split-refl p
rounds-Split (suc fuel) out p = elim (Bool-cases (stops p)) [
  | inl e ↦ rw (e, rounds) (Split-refl p)
  | inr e ↦
      rw (e, rounds)
        (Split-trans (Split-drop (round out p).1 p (λ i. round_plain out p i e))
          (rounds-Split fuel (round out p).0 (drop (round out p).1 p)))
]

skip_dots-Split : (fuel : ℕ) (p : Bytes) → Split p (skip_dots fuel p)
unfolding skip_dots
skip_dots-Split zero p = Split-refl p
skip_dots-Split (suc fuel) p = behind (skipped p) refl (λ k. skip_dots-Split fuel (drop (suc k) p))
  where
    behind :
        (n : ℕ)
        → skipped p ≡ n
        → ((k : ℕ) → Split (drop (suc k) p) (skip_dots fuel (drop (suc k) p)))
        → Split p (skip_dots (suc fuel) p)
    behind zero e keep = rw (e, skip_dots) (Split-refl p)
    behind (suc k) e keep =
        rw (e, skip_dots)
          (Split-trans (Split-drop (suc k) p (λ i h. skipped_plain p i (rw e h))) (keep k))

-- What becomes of a path: the bytes in front of the first question mark or hash sign, or of the end, are
-- replaced by no more bytes, and those from there on stay.
pub record Normalized (path result : Bytes) : Type 0 where
  pub front : Bytes
  pub rest : Bytes
  pub written : Bytes
  pub parts : path ≡ front ++ rest
  pub plain : All Plain front
  pub at_end : (at rest 0 ≡ 0) ⊎ (at rest 0 ≡ b'?') ⊎ (at rest 0 ≡ b'#')
  pub result_is : result ≡ written ++ rest
  pub fits : length written ≤ length front

-- `_normalize_path` keeps everything from the first question mark, hash sign or NUL on, and writes no
-- more bytes in front of it than there were.
pub normalize_path-Normalized : (path : Bytes) → Normalized path (normalize_path path)
unfolding dot_segments normalize_path
normalize_path-Normalized path =
    let p = skip_dots (length path) path in
    let r = rounds (length p) [] p in
    let s = Split-trans (skip_dots-Split (length path) path) (rounds-Split (length p) [] p) in
    let done = rounds-stops (length p) [] p (omega arith) in
    record {
      front = s.front;
      rest = r.1;
      written = reverse r.0;
      parts = s.parts;
      plain = s.plain;
      at_end = stops_elim r.1 done;
      result_is = refl;
      fits = omega (
        arith,
        ap (λ (x : Bytes). length x) s.parts,
        length-append s.front r.1,
        length-reverse_aux r.0 [],
        length-rounds (length p) [] p,
        length-skip_dots (length path) path,
      );
    }
