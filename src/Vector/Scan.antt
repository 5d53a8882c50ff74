-- ===== src/Vector/Scan.antt =====
-- libwget/vector.c: `wget_vector_findext` and `wget_vector_contains`. `test` says whether the
-- caller's function returns 0.
use wget.Prelude.{
  ◌∙◌, ◌∙◌, ◌-◌, ℕ, zero, suc, ◌+◌, ◌<◌, ◌≤◌, ◌≡◌, refl, ap, inl, inr, Bool-cases, Bool, true,
  false, List, [], ◌∷◌, none, some, length, get_elem?, drop, ltb, ◌==◌, if◌then◌else◌, ℤ, pos,
  negsuc, minus_one, arith,
}
use wget.Vector.{Vector, find}

module _ {A : Type 0} where
  -- `find(v->entry[it]) == 0`
  abbrev pub hit : (A → Bool) → List A → ℕ → Bool
  hit test xs i = elim (get_elem? xs i) [ none ↦ false | some x ↦ test x ]

  -- the loop upwards from `it`, over the elements from there on
  unfoldable pub scan_up : (A → Bool) → List A → ℕ → ℤ
  scan_up test [] it = minus_one
  scan_up test (x ∷ xs) it = if test x then pos it else scan_up test xs (it + 1)

  -- the loop downwards from `it`
  unfoldable pub scan_down : (A → Bool) → List A → ℕ → ℤ
  scan_down test xs zero = if hit test xs 0 then pos 0 else minus_one
  scan_down test xs (suc it) =
      let rest = scan_down test xs it in if hit test xs (suc it) then pos (suc it) else rest

  -- `wget_vector_findext`; `down` is `direction`
  unfoldable pub findext : Vector A → ℤ → Bool → (A → Bool) → ℤ
  unfolding scan_up scan_down
  findext v (negsuc _) down test = minus_one
  findext v (pos start) true test =
      if ltb start (length v.entry) then scan_down test v.entry start else minus_one
  findext v (pos start) false test = scan_up test (drop start v.entry) start

  -- `wget_vector_contains`
  unfoldable pub contains : Vector A → A → Bool
  unfolding find
  contains v elem = elim (find v elem) [ pos _ ↦ true | negsuc _ ↦ false ]

  -- The result is the element nearest to `start` in the direction, or -1 if none is hit there.
  abbrev pub Nearest : Bool → (A → Bool) → List A → ℕ → ℤ → Type 0
  Nearest false test xs start (pos i) =
      (start ≤ i) × (hit test xs i ≡ true) × ((k : ℕ) → start ≤ k → k < i → hit test xs k ≡ false)
  Nearest false test xs start (negsuc _) = (k : ℕ) → start ≤ k → hit test xs k ≡ false
  Nearest true test xs start (pos i) =
      (i ≤ start) × (hit test xs i ≡ true) × ((k : ℕ) → i < k → k ≤ start → hit test xs k ≡ false)
  Nearest true test xs start (negsuc _) = (k : ℕ) → k ≤ start → hit test xs k ≡ false

  scan_down-Nearest :
      (test : A → Bool) (xs : List A) (it : ℕ) → Nearest true test xs it (scan_down test xs it)
  unfolding scan_down
  scan_down-Nearest test xs zero = elim (Bool-cases (hit test xs 0)) [
    | inl h ↦ rw (h, scan_down) (omega arith, h, λ k p q. absurd (omega arith))
    | inr h ↦ rw (h, scan_down) (λ k p. let same : k ≡ 0 = omega arith in rw same h)
  ]
  scan_down-Nearest test xs (suc it) = elim (Bool-cases (hit test xs (suc it))) [
    | inl h ↦ rw (h, scan_down) (omega arith, h, λ k p q. absurd (omega arith))
    | inr h ↦ rw (h, scan_down) (further (scan_down test xs it) h (scan_down-Nearest test xs it))
  ]
    where
      further :
          (r : ℤ)
          → hit test xs (suc it) ≡ false
          → Nearest true test xs it r
          → Nearest true test xs (suc it) r
      further (pos i) h (a, b, c) = (
        omega arith,
        b,
        λ k p q. elim (Bool-cases (k == suc it)) [
          | inl e ↦ let same : k ≡ suc it = ground arith in rw same h
          | inr e ↦ c k p (ground arith)
        ],
      )
      further (negsuc n) h c = λ k p. elim (Bool-cases (k == suc it)) [
        | inl e ↦ let same : k ≡ suc it = ground arith in rw same h
        | inr e ↦ c k (ground arith)
      ]

  -- `ys` are the elements from `s` on
  abbrev From : List A → ℕ → List A → Type 0
  From xs s ys = (k j : ℕ) → s + k ≡ j → get_elem? xs j ≡ get_elem? ys k

  From-drop : (xs : List A) (s : ℕ) → From xs s (drop s xs)
  From-drop xs zero k j e = let same : j ≡ k = omega arith in ap (get_elem? xs) same
  From-drop [] (suc s) k j e = refl
  From-drop (x ∷ xs) (suc s) k zero e = absurd (omega arith)
  From-drop (x ∷ xs) (suc s) k (suc j) e = From-drop xs s k j (omega arith)

  scan_up-Nearest :
      (test : A → Bool) (xs ys : List A) (s : ℕ)
      → From xs s ys
      → Nearest false test xs s (scan_up test ys s)
  unfolding scan_up
  scan_up-Nearest test xs [] s f = λ k p. rw (f (k - s) k (omega arith), hit) refl
  scan_up-Nearest test xs (x ∷ ys) s f = elim (Bool-cases (test x)) [
    | inl h ↦ rw (h, scan_up) (omega arith, here ∙ h, λ k p q. absurd (omega arith))
    | inr h ↦
        rw (h, scan_up)
          (nearer (scan_up test ys (s + 1)) (here ∙ h)
            (scan_up-Nearest test xs ys (s + 1) (λ k j e. f (suc k) j (omega arith))))
  ]
    where
      here : hit test xs s ≡ test x
      here = rw (f 0 s (omega arith), hit) refl

      nearer :
          (r : ℤ)
          → hit test xs s ≡ false
          → Nearest false test xs (s + 1) r
          → Nearest false test xs s r
      nearer (pos i) h (a, b, c) = (
        omega arith,
        b,
        λ k p q. elim (Bool-cases (k == s)) [
          | inl e ↦ let same : k ≡ s = ground arith in rw same h
          | inr e ↦ c k (ground arith) q
        ],
      )
      nearer (negsuc n) h c = λ k p. elim (Bool-cases (k == s)) [
        | inl e ↦ let same : k ≡ s = ground arith in rw same h
        | inr e ↦ c k (ground arith)
      ]

  -- `wget_vector_findext` from a position in use: the nearest element that the caller's function
  -- accepts, upwards or downwards, the element at the start included, or -1 if there is none.
  pub findext-Nearest :
      (v : Vector A) (start : ℕ) (down : Bool) (test : A → Bool)
      → start < length v.entry
      → Nearest down test v.entry start (findext v (pos start) down test)
  unfolding findext
  findext-Nearest v start false test h =
      scan_up-Nearest test v.entry (drop start v.entry) start (From-drop v.entry start)
  findext-Nearest v start true test h =
      let inside : ltb start (length v.entry) ≡ true = ground arith in
      rw inside (scan_down-Nearest test v.entry start)
