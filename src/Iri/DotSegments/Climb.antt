-- ===== src/Iri/DotSegments/Climb.antt =====
-- The segments `..` of a normalized path that are followed by a slash: there are none.
use mathlib.Core.List.{reverse-cons, reverse-append, reverse_aux-eq, reverse-reverse}
use wget.Prelude.{
  append_assoc, ℕ, zero, suc, ◌+◌, ◌≤◌, ◌≡◌, ◌≢◌, inl, inr, refl, sym, ◌∙◌, ap, true, false, ◌&&◌,
  Bool-cases, [], ◌∷◌, ◌++◌, reverse, length, length-append, length-drop, drop, ◌==◌, Bytes, at,
  arith,
}
use wget.Iri.DotSegments.{skipped, skip_dots, go_up, end_slash, round, stops, rounds, dot_segments}

-- the bytes under a position of the stack, a slash at the bottom
abbrev below : Bytes → ℕ → ℕ
below out i = at (out ++ (b'/' ∷ [])) i

-- `/../` does not end with this slash
abbrev Level : Bytes → Type 0
Level out = below out 0 ≡ b'.' → below out 1 ≡ b'.' → below out 2 ≢ b'/'

-- the stack holds no `/../`
abbrev Flat : Bytes → Type 0
Flat [] = Unit {0}
Flat (c ∷ out) = (c ≡ b'/' → Level out) × Flat out

-- no `/../` begins in the stack and ends in `p`
record Apart (out p : Bytes) : Type 0 where
  one : below out 0 ≡ b'/' → at p 0 ≡ b'.' → at p 1 ≡ b'.' → at p 2 ≢ b'/'
  two : below out 0 ≡ b'.' → below out 1 ≡ b'/' → at p 0 ≡ b'.' → at p 1 ≢ b'/'
  three : at p 0 ≡ b'/' → Level out

at-drop : (n i j : ℕ) (p : Bytes) → n + i ≡ j → at (drop n p) i ≡ at p j
at-drop zero i j p e = let same : i ≡ j = omega arith in ap (at p) same
at-drop (suc n) i j [] e = refl
at-drop (suc n) i zero (c ∷ p) e = absurd (omega arith)
at-drop (suc n) i (suc j) (c ∷ p) e = at-drop n i j p (omega arith)

go_up-Flat : (out : Bytes) → Flat out → Flat (go_up out) × Level (go_up out)
unfolding go_up
go_up-Flat [] h = (tt, λ a b. ground arith)
go_up-Flat (c ∷ out) h = elim (Bool-cases (c == b'/')) [
  | inl e ↦ rw e (h.1, h.0 (ground arith))
  | inr e ↦ rw e (go_up-Flat out h.1)
]

end_slash-Flat : (out : Bytes) → Flat out → Level out → Flat (end_slash out)
unfolding end_slash
end_slash-Flat [] h l = tt
end_slash-Flat (c ∷ out) h l = (λ e. l, h)

-- What a round leaves.
record Kept (out p : Bytes) (r : Bytes × ℕ) : Type 0 where
  flat : Flat r.0
  apart : Apart r.0 (drop r.1 p)

Apart-slash : (out p : Bytes) (n : ℕ) → at p n ≡ b'/' → Level out → Apart out (drop n p)
Apart-slash out p n h l =
    let first : at (drop n p) 0 ≡ b'/' = at-drop n 0 n p (omega arith) ∙ h in
    record {
      one = λ a b. absurd (ground arith);
      two = λ a b d. absurd (ground arith);
      three = λ a. l;
    }

Apart-end : (out p : Bytes) (n : ℕ) → at p n ≡ 0 → Apart out (drop n p)
Apart-end out p n h =
    let first : at (drop n p) 0 ≡ 0 = at-drop n 0 n p (omega arith) ∙ h in
    record {
      one = λ a b. absurd (ground arith);
      two = λ a b d. absurd (ground arith);
      three = λ a. absurd (ground arith);
    }

copy-Kept :
    (out p : Bytes)
    → Flat out
    → Apart out p
    → (at p 0 ≡ b'/' → at p 1 ≡ b'.' → at p 2 ≡ b'.' → at p 3 ≢ b'/')
    → Kept out p (at p 0 ∷ out, 1)
copy-Kept out p f a h = record {
  flat = (a.three, f);
  apart = record {
    one = λ c d e.
        ground (arith, at-drop 1 0 1 p refl, at-drop 1 1 2 p refl, at-drop 1 2 3 p refl, h);
    two = λ c d e. ground (arith, at-drop 1 0 1 p refl, at-drop 1 1 2 p refl, a.one);
    three = λ c d e f. ground (arith, at-drop 1 0 1 p refl, a.two);
  };
}

-- a slash that is followed by a dot
dot-Kept :
    (out p : Bytes)
    → Flat out
    → Apart out p
    → (at p 0 == b'/') ≡ true
    → (at p 1 == b'.') ≡ true
    → Kept out p (round out p)
unfolding round
dot-Kept out p f a slash dot =
    let up = go_up-Flat out f in
    let level : Level out = a.three (ground arith) in
    rw slash (
      rw dot (elim (Bool-cases (at p 2 == b'.' && at p 3 == b'/')) [
        | inl parent ↦
            rw parent
              (record { flat = up.0; apart = Apart-slash (go_up out) p 3 (ground arith) up.1 })
        | inr t ↦ rw t (elim (Bool-cases (at p 2 == b'.' && at p 3 == 0)) [
          | inl last ↦ rw last (record {
            flat = end_slash-Flat (go_up out) up.0 up.1;
            apart = Apart-end (end_slash (go_up out)) p 3 (ground arith);
          })
          | inr u ↦ rw u (elim (Bool-cases (at p 2 == b'/')) [
            | inl here ↦
                rw here (record { flat = f; apart = Apart-slash out p 2 (ground arith) level })
            | inr v ↦ rw v (elim (Bool-cases (at p 2 == 0)) [
              | inl last ↦ rw last (record {
                flat = end_slash-Flat out f level;
                apart = Apart-end (end_slash out) p 2 (ground arith);
              })
              | inr w ↦ rw w (copy-Kept out p f a (λ c d e. ground arith))
            ])
          ])
        ])
      ]))

plain-Kept :
    (out p : Bytes)
    → Flat out
    → Apart out p
    → (at p 0 == b'/') ≡ true
    → (at p 1 == b'.') ≡ false
    → Kept out p (round out p)
unfolding round
plain-Kept [] p f a slash plain = rw slash (
    rw plain (record {
      flat = tt;
      apart = record {
        one = λ c d. absurd (ground (arith, at-drop 1 0 1 p refl));
        two = λ c. absurd (ground arith);
        three = λ c d. absurd (ground arith);
      };
    }))
plain-Kept (x ∷ out) p f a slash plain = rw slash (
    rw plain (elim (Bool-cases (at p 1 == b'/')) [
      | inl double ↦ rw double (record {
        flat = f;
        apart = Apart-slash (x ∷ out) p 1 (ground arith) (a.three (ground arith));
      })
      | inr single ↦ rw single (copy-Kept (x ∷ out) p f a (λ c d e. absurd (ground arith)))
    ]))

round-Kept : (out p : Bytes) → Flat out → Apart out p → Kept out p (round out p)
unfolding round
round-Kept out p f a = elim (Bool-cases (at p 0 == b'/')) [
  | inr other ↦ rw other (copy-Kept out p f a (λ c d e. absurd (ground arith)))
  | inl slash ↦ elim (Bool-cases (at p 1 == b'.')) [
    | inl dot ↦ dot-Kept out p f a slash dot
    | inr plain ↦ plain-Kept out p f a slash plain
  ]
]

rounds-Flat : (fuel : ℕ) (out p : Bytes) → Flat out → Apart out p → Flat (rounds fuel out p).0
unfolding rounds
rounds-Flat zero out p f a = f
rounds-Flat (suc fuel) out p f a = elim (Bool-cases (stops p)) [
  | inl e ↦ rw e f
  | inr e ↦
      let k = round-Kept out p f a in
      rw e (rounds-Flat fuel (round out p).0 (drop (round out p).1 p) k.flat k.apart)
]

-- The first loop ends at a `break`.
skipped-skip_dots : (fuel : ℕ) (p : Bytes) → length p ≤ fuel → skipped (skip_dots fuel p) ≡ 0
unfolding skip_dots
skipped-skip_dots zero [] h = unfold skipped in refl
skipped-skip_dots zero (c ∷ p) h = absurd (omega arith)
skipped-skip_dots (suc fuel) p h =
    after_break (skipped p) refl
      (λ k. skipped-skip_dots fuel (drop (suc k) p) (omega (arith, length-drop (suc k) p)))
  where
    after_break :
        (n : ℕ)
        → skipped p ≡ n
        → ((k : ℕ) → skipped (skip_dots fuel (drop (suc k) p)) ≡ 0)
        → skipped (skip_dots (suc fuel) p) ≡ 0
    after_break zero e keep = rw (e, skip_dots) e
    after_break (suc k) e keep = rw (e, skip_dots) (keep k)

break-Apart : (p : Bytes) → skipped p ≡ 0 → Apart [] p
unfolding skipped
break-Apart p h = record {
  one = λ a b c. ground arith;
  two = λ a. absurd (ground arith);
  three = λ a b. absurd (ground arith);
}

Flat-none :
    (out pre post : Bytes)
    → Flat out
    → out ++ (b'/' ∷ []) ≢ pre ++ (b'/' ∷ b'.' ∷ b'.' ∷ b'/' ∷ post)
Flat-none [] pre post f e =
    let sizes : 1 ≡ length (pre ++ (b'/' ∷ b'.' ∷ b'.' ∷ b'/' ∷ post)) =
      ap (λ (s : Bytes). length s) e in
    omega (arith, length-append pre (b'/' ∷ b'.' ∷ b'.' ∷ b'/' ∷ post))
Flat-none (c ∷ out) [] post f e =
    f.0 (ap (λ s. at s 0) e) (ap (λ s. at s 1) e) (ap (λ s. at s 2) e) (ap (λ s. at s 3) e)
Flat-none (c ∷ out) (x ∷ pre) post f e = Flat-none out pre post f.1 (ap (drop 1) e)

reversed :
    (out pre post : Bytes)
    → b'/' ∷ reverse out ≡ pre ++ (b'/' ∷ b'.' ∷ b'.' ∷ b'/' ∷ post)
    → out ++ (b'/' ∷ []) ≡ reverse post ++ (b'/' ∷ b'.' ∷ b'.' ∷ b'/' ∷ reverse pre)
reversed out pre post e =
    let middle = b'/' ∷ b'.' ∷ b'.' ∷ b'/' ∷ [] in
    ap (λ s. s ++ (b'/' ∷ [])) (sym (reverse-reverse out))
    ∙ sym (reverse-cons b'/' (reverse out))
    ∙ ap reverse e
    ∙ reverse-append pre (b'/' ∷ b'.' ∷ b'.' ∷ b'/' ∷ post)
    ∙ ap (λ s. s ++ reverse pre) (reverse_aux-eq post middle)
    ∙ append_assoc (reverse post) middle (reverse pre)

-- What `_normalize_path` writes in front of the query has no segment `..` that is followed by a
-- slash, at the beginning or elsewhere. A last segment `..` in front of a query or a fragment stays.
pub dot_segments_flat :
    (path pre post : Bytes)
    → b'/' ∷ (dot_segments path).0 ≢ pre ++ (b'/' ∷ b'.' ∷ b'.' ∷ b'/' ∷ post)
unfolding dot_segments
dot_segments_flat path pre post e =
    let p = skip_dots (length path) path in
    let flat : Flat (rounds (length p) [] p).0 =
      rounds-Flat (length p) [] p tt
        (break-Apart p (skipped-skip_dots (length path) path (omega arith))) in
    Flat-none (rounds (length p) [] p).0 (reverse post) (reverse pre) flat
      (reversed (rounds (length p) [] p).0 pre post e)
