-- ===== src/Cookie/Match/Prefix.antt =====
-- Which request paths a cookie path matches.
use wget.Cookie.Match.{skip_slash, directory, prefix_match, path_match}
use wget.Prelude.{
  ℕ, ◌≤◌, ◌≡◌, ◌↔◌, inl, inr, refl, Bool, true, Bool-cases, [], ◌∷◌, ◌++◌, length, Option, ◌==◌,
  Bytes, at, starts, starts_elim, starts-append, arith,
}

-- The cookie path is a prefix of the request's directory: of the path up to its last slash.
abbrev pub IsPrefix : Bytes → Bytes × ℕ → Type 0
IsPrefix cookie (request, size) =
    (rest : Bytes) × (request ≡ cookie ++ rest) × (length cookie ≤ size)

starts-nil : (cookie request : Bytes) → length cookie ≡ 0 → starts cookie request ≡ true
unfolding starts
starts-nil [] request h = refl
starts-nil (c ∷ cookie) request h = absurd (omega arith)

prefix_match-IsPrefix :
    (slash : Bool) (cookie request : Bytes) (size : ℕ)
    → prefix_match slash cookie (request, size) ≡ true
    → IsPrefix cookie (request, size)
unfolding prefix_match
prefix_match-IsPrefix slash cookie request size h = elim (Bool-cases (starts cookie request)) [
  | inl start ↦ let (rest, e) = starts_elim cookie request start in (rest, e, ground arith)
  | inr other ↦ absurd (ground (arith, starts-nil cookie request))
]

slash_match :
    (cookie request : Bytes) (size : ℕ)
    → IsPrefix cookie (request, size)
    → prefix_match true cookie (request, size) ≡ true
unfolding prefix_match
slash_match cookie request size (rest, e, h) =
    let start : starts cookie request ≡ true = rw e (starts-append cookie rest) in ground arith

-- A cookie path matches a request only if, without their leading slashes, it is a prefix of the
-- request's path that reaches no further than the last slash.
pub path_match-IsPrefix :
    (cookie : Bytes) (request : Option Bytes)
    → path_match cookie request ≡ true
    → IsPrefix (skip_slash cookie) (directory request)
unfolding path_match
path_match-IsPrefix cookie request h =
    prefix_match-IsPrefix (at cookie 0 == b'/') (skip_slash cookie) (directory request).0
      (directory request).1 h

-- For a cookie path that begins with a slash that is all: it matches every request whose directory
-- it is a prefix of, also where the prefix ends inside a segment.
pub path_match_slash :
    (cookie : Bytes) (request : Option Bytes)
    → (path_match (b'/' ∷ cookie) request ≡ true) ↔ IsPrefix cookie (directory request)
unfolding path_match
path_match_slash cookie request = (
  λ h. prefix_match-IsPrefix true cookie (directory request).0 (directory request).1 h,
  λ p. slash_match cookie (directory request).0 (directory request).1 p,
)
