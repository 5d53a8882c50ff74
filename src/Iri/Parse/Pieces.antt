-- ===== src/Iri/Parse/Pieces.antt =====
-- Strings without the characters that the parser looks for.
use wget.Prelude.{
  ℕ, ◌≡◌, refl, ap, ◌∙◌, Bool, true, false, not, ◌&&◌, [], ◌∷◌, ◌++◌, All, drop, ltb, ◌==◌, Bytes,
  at, Ctype, arith, span, Stops, span-append,
}
use wget.Iri.Parse.{Conversions, c_string, cut, unescaped, in_utf8}
use wget.Iri.Percent.{unescape}
use wget.Utils.{str_needs_encoding, strtolower}

-- every character passes the test
abbrev pub Each : (ℕ → Bool) → Bytes → Type 0
Each test s = All (λ c. test c ≡ true) s

pub Each-weaken :
    (p q : ℕ → Bool) (s : Bytes) → ((c : ℕ) → p c ≡ true → q c ≡ true) → Each p s → Each q s
Each-weaken p q [] k h = tt
Each-weaken p q (c ∷ s) k h = (k c h.0, Each-weaken p q s k h.1)

-- ASCII without NUL and the percent sign
abbrev pub is_plain : ℕ → Bool
is_plain c = ltb 0 c && (ltb c 128 && not (c == b'%'))

pub span-all : (test : ℕ → Bool) (s : Bytes) → Each test s → span test s ≡ (s, [])
span-all test [] h = refl
span-all test (c ∷ s) h = rw h.0 (rw (span-all test s h.1) refl)

-- a string is cut where a part without the character ends
pub cut-append :
    (stops : ℕ → Bool) (front more : Bytes)
    → Each (λ c. not (stops c)) front
    → Stops (λ c. not (stops c)) more
    → cut stops (front ++ more) ≡ (front, at more 0, drop 1 more)
cut-append stops front more h k =
    ap (λ r. (r.0, at r.1 0, drop 1 r.1)) (span-append (λ c. not (stops c)) front more h k)

module _ (ctype : Ctype) where
  pub unescape-plain :
      (c : ℕ) (s : Bytes)
      → is_plain c ≡ true
      → (unescape ctype (c ∷ s)).1 ≡ c ∷ (unescape ctype s).1
  unfolding unescape
  unescape-plain c [] h = refl
  unescape-plain c (a ∷ []) h = refl
  unescape-plain c (a ∷ b ∷ s) h =
      let other : (c == b'%') ≡ false = ground (arith, h) in rw (other, unescape) refl

  pub unescape-append :
      (front back : Bytes)
      → Each is_plain front
      → (unescape ctype (front ++ back)).1 ≡ front ++ (unescape ctype back).1
  unescape-append [] back h = refl
  unescape-append (c ∷ front) back h =
      unescape-plain c (front ++ back) h.0 ∙ ap (◌∷◌ c) (unescape-append front back h.1)

  pub unescape-Each : (s : Bytes) → Each is_plain s → (unescape ctype s).1 ≡ s
  unfolding unescape
  unescape-Each [] h = refl
  unescape-Each (c ∷ s) h = unescape-plain c s h.0 ∙ ap (◌∷◌ c) (unescape-Each s h.1)

  -- a string without NUL in front of it is the C string
  pub c_string-Each : (s : Bytes) → Each is_plain s → c_string s ≡ s
  c_string-Each s h =
      let no_nul = Each-weaken is_plain (λ c. not (c == 0)) s (λ c k. ground (arith, k)) h in
      ap (λ r. r.0) (span-all (λ c. not (c == 0)) s no_nul)

  pub unescaped-Each : (s : Bytes) → Each is_plain s → unescaped ctype s ≡ s
  unescaped-Each s h = ap c_string (unescape-Each s h) ∙ c_string-Each s h

  pub strtolower-Each : (s : Bytes) → Each (λ c. not (ctype.isupper c)) s → strtolower ctype s ≡ s
  unfolding strtolower
  strtolower-Each [] h = refl
  strtolower-Each (c ∷ s) h =
      let small : ctype.isupper c ≡ false = ground (arith, h.0) in
      rw small (ap (◌∷◌ c) (strtolower-Each s h.1))

pub str_needs_encoding-Each : (s : Bytes) → Each (λ c. ltb c 128) s → str_needs_encoding s ≡ false
unfolding str_needs_encoding
str_needs_encoding-Each [] h = refl
str_needs_encoding-Each (c ∷ s) h = ground (arith, str_needs_encoding-Each s h.1, h.0)

module _ (conv : Conversions) where
  pub in_utf8-Each : (s : Bytes) → Each (λ c. ltb c 128) s → in_utf8 conv s ≡ s
  unfolding in_utf8
  in_utf8-Each s h = rw (str_needs_encoding-Each s h) refl

-- the test of a whole string
abbrev pub each_passes : (ℕ → Bool) → Bytes → Bool
each_passes test [] = true
each_passes test (c ∷ s) = test c && each_passes test s

pub each_passes-Each : (test : ℕ → Bool) (s : Bytes) → each_passes test s ≡ true → Each test s
each_passes-Each test [] h = tt
each_passes-Each test (c ∷ s) h = (ground (arith, h), each_passes-Each test s (ground (arith, h)))
