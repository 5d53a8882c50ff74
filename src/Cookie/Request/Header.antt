-- ===== src/Cookie/Request/Header.antt =====
-- Which cookies the `Cookie:` header holds, and in which order.
use mathlib.Core.List.{Perm}
use wget.Cookie.Match.Domain.{Covers}
use wget.Cookie.Match.Within.{asked, Within}
use wget.Cookie.Request.{selected, collect, pair, print, result, create_request_header}
use wget.Cookie.{Cookie, Iri, text, compare_cookie2}
use wget.Prelude.{
  ◌⊎◌, ◌≤◌, All, ap, ℕ, ◌<◌, ◌≡◌, ◌≢◌, inl, inr, refl, ◌∙◌, sym, subst, Bool, true, false,
  Bool-cases, List, [], ◌∷◌, ◌++◌, append-nil, append_assoc, Option, none, some, length, ◌==◌,
  if◌then◌else◌, Bytes, codes, negsuc, arith, length-append,
}
use wget.Vector.Order.{IsOrder, Sorted, Le}
use wget.Vector.Sorted.{Sorts, sort-resorted}
use wget.Vector.Append.{Doubles, add-Doubles}
use wget.Vector.{Compare, Vector, Sorter, create, add, sort}

-- the elements that pass a test, in order
abbrev pub kept : {A : Type 0} → (A → Bool) → List A → List A
kept p [] = []
kept p (x ∷ xs) = if p x then x ∷ kept p xs else kept p xs

pub compare_cookie2-IsOrder : IsOrder compare_cookie2
unfolding compare_cookie2
compare_cookie2-IsOrder = record {
  turn = λ a b. ground arith;
  le_trans = λ a b d h k. ground arith;
}

module _ (now : ℕ) (iri : Iri) where
  collect-Doubles :
      (cs found : List Cookie) (v : Vector Cookie) (c : Option (Compare Cookie))
      → Doubles v found c
      → Doubles (collect now iri cs v) (found ++ kept (selected now iri) cs) c
  unfolding collect
  collect-Doubles [] found v c g = rw append-nil g
  collect-Doubles (x ∷ cs) found v c g = elim (Bool-cases (selected now iri x)) [
    | inl take ↦
        rw (take, collect)
          (rw (← append_assoc found (x ∷ []) (kept (selected now iri) cs))
            (collect-Doubles cs (found ++ (x ∷ [])) (add v x).0 c (add-Doubles v x found c g)))
    | inr leave ↦ rw (leave, collect) (collect-Doubles cs found v c g)
  ]

-- the header for cookies in a given order
abbrev pub more_pairs : List Cookie → Bytes
more_pairs [] = []
more_pairs (c ∷ cs) = (codes "; " ++ pair c) ++ more_pairs cs

abbrev pub header_of : List Cookie → Option Bytes
header_of [] = none
header_of (c ∷ cs) = some (pair c ++ more_pairs cs)

print-more_pairs :
    (cs : List Cookie) (buf : Bytes) → 0 < length buf → print cs buf ≡ buf ++ more_pairs cs
unfolding print
print-more_pairs [] buf h = sym (append-nil buf)
print-more_pairs (c ∷ cs) buf h =
    let started : (length buf == 0) ≡ false = ground arith in
    rw started (
      print-more_pairs cs (buf ++ (codes "; " ++ pair c))
        (omega (arith, length-append buf (codes "; " ++ pair c)))
      ∙ append_assoc buf (codes "; " ++ pair c) (more_pairs cs))

length-pair : (c : Cookie) → 0 < length (pair c)
length-pair c = omega (arith, length-append c.name (b'=' ∷ c.value))

result-header_of : (cs : List Cookie) → result cs ≡ header_of cs
unfolding result print
result-header_of [] = refl
result-header_of (c ∷ cs) = ap some (print-more_pairs cs (pair c) (length-pair c))

abbrev no_cookies : Vector Cookie
no_cookies = create 16 (negsuc 1) (some compare_cookie2)

no_cookies-Doubles : Doubles no_cookies [] (some compare_cookie2)
unfolding create
no_cookies-Doubles = record {
  entry = refl;
  off = refl;
  size = omega arith;
  fits = omega arith;
  cmp = refl;
}

header-print :
    (qsort : Sorter Cookie) (now : ℕ) (iri : Iri) (cookies : List Cookie)
    → create_request_header qsort now iri cookies
      ≡ result (sort qsort (collect now iri cookies no_cookies)).entry
unfolding create_request_header
header-print qsort now iri cookies = refl

-- `a` may stand in front of `b`: its path is longer, or as long and its age is not higher
abbrev pub Before : Cookie → Cookie → Type 0
Before a b =
    (length (text b.path) < length (text a.path))
    ⊎ ((length (text a.path) ≡ length (text b.path)) × (a.sort_age ≤ b.sort_age))

-- every cookie may stand in front of all that follow it
abbrev pub InOrder : List Cookie → Type 0
InOrder [] = Unit {0}
InOrder (c ∷ cs) = All (Before c) cs × InOrder cs

Le-Before : (a b : Cookie) → Le compare_cookie2 a b → Before a b
unfolding compare_cookie2
Le-Before a b h = ground arith

All-Before : (a : Cookie) (cs : List Cookie) → All (Le compare_cookie2 a) cs → All (Before a) cs
All-Before a [] h = tt
All-Before a (c ∷ cs) h = (Le-Before a c h.0, All-Before a cs h.1)

Sorted-InOrder : (cs : List Cookie) → Sorted compare_cookie2 cs → InOrder cs
Sorted-InOrder [] h = tt
Sorted-InOrder (c ∷ cs) h = (All-Before c cs h.0, Sorted-InOrder cs h.1)

-- The header is made of the selected cookies of the database, each once, if `qsort_r` sorts: a cookie
-- with a longer path before one with a shorter path, and of those with paths of the same length the one
-- with the lower age first. There is none if no cookie is selected.
pub create_request_header_lem :
    (qsort : Sorter Cookie)
    → Sorts qsort
    → (now : ℕ) (iri : Iri) (cookies : List Cookie)
    → (order : List Cookie) × (create_request_header qsort now iri cookies ≡ header_of order)
      × Perm order (kept (selected now iri) cookies)
      × InOrder order
create_request_header_lem qsort sorts now iri cookies =
    let found = collect now iri cookies no_cookies in
    let g =
      collect-Doubles now iri cookies [] no_cookies (some compare_cookie2) no_cookies-Doubles in
    let resort = sort-resorted qsort sorts compare_cookie2-IsOrder found g.cmp in
    (
      qsort.sort compare_cookie2 found.entry,
      header-print qsort now iri cookies
          ∙ result-header_of _
          ∙ ap (λ (v : Vector Cookie). header_of v.entry) resort,
      subst (λ xs. Perm (qsort.sort compare_cookie2 found.entry) xs) g.entry
          (sorts.sort-perm compare_cookie2 found.entry),
      Sorted-InOrder _ (sorts.sort-Sorted compare_cookie2 found.entry compare_cookie2-IsOrder),
    )

-- What lets a cookie for `domain` with the path `/` and `path` be sent. The last condition is weaker than that of
-- RFC 6265, which wants the prefix to end at a slash.
pub record MayGo (now : ℕ) (iri : Iri) (c : Cookie) (domain path : Bytes) : Type 0 where
  pub to_host : Covers (domain) iri.host
  pub host_only : c.host_only ≡ true → domain ≡ iri.host
  pub fresh : c.expires ≢ 0 → now < c.expires
  pub secure : c.secure_only ≡ true → iri.https ≡ true
  pub on_path : Within path (asked iri.path)
