-- ===== src/Cookie/Match/Within.antt =====
-- libwget/cookie.c: `_path_match` for cookie paths that begin with a slash, without its search for the
-- last slash of the request.
use wget.Cookie.Match.{skip_slash, directory, path_match}
use wget.Cookie.Match.Prefix.{IsPrefix, path_match_slash}
use wget.Prelude.{
  ℕ, zero, suc, ◌≤◌, ◌<◌, ◌≡◌, ◌↔◌, ◌⊎◌, inl, inr, refl, ap, ◌∙◌, sym, true, [], ◌∷◌, ◌++◌,
  append_assoc, length, length-append, Option, Option-cases, none, some, ◌==◌, if◌then◌else◌, Bytes,
  at, last_index, last_index-lt, arith,
}

-- the path that is asked for, without a slash in front
abbrev pub asked : Option Bytes → Bytes
asked none = []
asked (some []) = []
asked (some (c ∷ p)) = if c == b'/' then p else c ∷ p

-- a slash of the path stands behind the prefix, or the prefix is empty
abbrev pub Within : Bytes → Bytes → Type 0
Within p path = (p ≡ []) ⊎ ((middle file : Bytes) × (path ≡ p ++ (middle ++ (b'/' ∷ file))))

last_index-split :
    (c : ℕ) (q file : Bytes) → (i : ℕ) × (last_index c (q ++ (c ∷ file)) ≡ some i) × (length q ≤ i)
unfolding last_index
last_index-split c [] file = elim (Option-cases (last_index c file)) [
  | inl e ↦ (0, rw e (ground arith), omega arith)
  | inr (i, e) ↦ (suc i, rw e refl, omega arith)
]
last_index-split c (d ∷ q) file =
    let (i, e, h) = last_index-split c q file in (suc i, rw e refl, omega (arith, h))

split_behind :
    (p rest : Bytes) (i : ℕ)
    → length p ≤ i
    → i < length (p ++ rest)
    → (middle file : Bytes) × (rest ≡ middle ++ (at (p ++ rest) i ∷ file))
split_behind [] [] i h k = absurd (omega arith)
split_behind [] (d ∷ rest) zero h k = ([], rest, refl)
split_behind [] (d ∷ rest) (suc i) h k =
    let (middle, file, e) = split_behind [] rest i (omega arith) (omega arith) in
    (d ∷ middle, file, ap (◌∷◌ d) e)
split_behind (d ∷ p) rest zero h k = absurd (omega arith)
split_behind (d ∷ p) rest (suc i) h k = split_behind p rest i (omega arith) (omega arith)

empty : (p : Bytes) → length p ≤ 0 → p ≡ []
empty [] h = refl
empty (c ∷ p) h = absurd (omega arith)

-- the directory of a path without a slash in front
abbrev cut : Bytes → Option ℕ → Bytes × ℕ
cut r found = elim found [ none ↦ ([], 0) | some i ↦ (r, i) ]

cut-Within :
    (p r : Bytes) (found : Option ℕ)
    → last_index b'/' r ≡ found
    → IsPrefix p (cut r found)
    → Within p r
cut-Within p r none e (rest, s, h) = inl (empty p h)
cut-Within p r (some i) e (rest, s, h) =
    let (inside, slash) = last_index-lt b'/' r i e in
    let (middle, file, t) = split_behind p rest i h (rw s at inside) in
    let here : at (p ++ rest) i ≡ b'/' = rw s at slash in
    inr (middle, file, s ∙ ap (λ x. p ++ x) (t ∙ ap (λ c. middle ++ (c ∷ file)) here))

Within-cut :
    (p r : Bytes) (found : Option ℕ)
    → last_index b'/' r ≡ found
    → Within p r
    → IsPrefix p (cut r found)
Within-cut p r none e (inl none_left) = ([], rw none_left refl, rw none_left (omega arith))
Within-cut p r (some i) e (inl none_left) = (r, rw none_left refl, rw none_left (omega arith))
Within-cut p r found e (inr (middle, file, s)) =
    let (i, k, h) = last_index-split b'/' (p ++ middle) file in
    let whole : r ≡ (p ++ middle) ++ (b'/' ∷ file) =
      s ∙ sym (append_assoc p middle (b'/' ∷ file)) in
    let same : found ≡ some i = sym e ∙ ap (last_index b'/') whole ∙ k in
    rw same (middle ++ (b'/' ∷ file), s, omega (arith, h, length-append p middle))

asked-some : (r : Bytes) → asked (some r) ≡ skip_slash r
unfolding skip_slash
asked-some [] = refl
asked-some (c ∷ p) = refl

directory-some :
    (r : Bytes) → directory (some r) ≡ cut (skip_slash r) (last_index b'/' (skip_slash r))
unfolding directory
directory-some r = refl

directory-asked :
    (request : Option Bytes)
    → directory request ≡ cut (asked request) (last_index b'/' (asked request))
unfolding last_index
directory-asked none = unfold directory in refl
directory-asked (some r) =
    directory-some r ∙ ap (λ p. cut p (last_index b'/' p)) (sym (asked-some r))

-- A cookie path that begins with a slash matches a request just if the path that is asked for has it as
-- a prefix in front of a slash, or if it is that slash alone.
pub path_match-Within :
    (p : Bytes) (request : Option Bytes)
    → (path_match (b'/' ∷ p) request ≡ true) ↔ Within p (asked request)
path_match-Within p request =
    let r = asked request in
    let m = rw (directory-asked request) at (path_match_slash p request) in
    (
      λ h. cut-Within p r (last_index b'/' r) refl (m.0 h),
      λ w. m.1 (Within-cut p r (last_index b'/' r) refl w),
    )
