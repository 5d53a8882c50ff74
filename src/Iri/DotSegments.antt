-- ===== src/Iri/DotSegments.antt =====
-- libwget/iri.c: `_normalize_path`. The bytes between `path` and `p1` are a stack, the last one
-- first, and `p2` is a suffix of the string: `p1` stays behind `p2`, so the two do not overlap. A
-- comparison with a literal is written out where the first bytes are known.
pub mod Climb
pub mod Sizes
mod Tests
use wget.Prelude.{
  ℕ, zero, suc, ◌+◌, Bool, true, false, not, ◌&&◌, ◌||◌, List, [], ◌∷◌, ◌++◌, reverse, length, drop,
  ◌==◌, if◌then◌else◌, Bytes, at,
}

-- one round of the first loop: how many bytes `p2` goes on, 0 for a `break`
unfoldable pub skipped : Bytes → ℕ
skipped p =
    if at p 0 == b'/'
    then 1
    else if at p 0 == b'.'
    then (if at p 1 == b'/'
        then 2
        else if at p 1 == b'.'
        then (if at p 2 == b'/' then 3 else if at p 2 == 0 then 2 else 0)
        else if at p 1 == 0
        then 1
        else 0)
    else 0

-- the first loop
unfoldable pub skip_dots : ℕ → Bytes → Bytes
unfolding skipped
skip_dots zero p = p
skip_dots (suc fuel) p = elim (skipped p) [ zero ↦ p | suc k ↦ skip_dots fuel (drop (suc k) p) ]

-- `while (p1 > path && *--p1 != '/')`
unfoldable pub go_up : Bytes → Bytes
go_up [] = []
go_up (c ∷ out) = if c == b'/' then out else go_up out

-- `if (p1 > path) *p1++ = '/'`
unfoldable pub end_slash : Bytes → Bytes
end_slash [] = []
end_slash (c ∷ out) = b'/' ∷ c ∷ out

abbrev pub is_empty : Bytes → Bool
is_empty [] = true
is_empty (c ∷ out) = false

-- the body of the second loop: what stands between `path` and `p1` then, and how far `p2` goes on
unfoldable pub round : Bytes → Bytes → Bytes × ℕ
unfolding go_up end_slash
round out p =
    if at p 0 == b'/'
    then (if at p 1 == b'.'
        then (if at p 2 == b'.' && at p 3 == b'/'
            then (go_up out, 3)
            else if at p 2 == b'.' && at p 3 == 0
            then (end_slash (go_up out), 3)
            else if at p 2 == b'/'
            then (out, 2)
            else if at p 2 == 0
            then (end_slash out, 2)
            else (at p 0 ∷ out, 1))
        else if is_empty out
        then (out, 1)
        else if at p 1 == b'/'
        then (out, 1)
        else (at p 0 ∷ out, 1))
    else (at p 0 ∷ out, 1)

-- `!*p2 || *p2 == '?' || *p2 == '#'`
abbrev pub stops : Bytes → Bool
stops p = at p 0 == 0 || (at p 0 == b'?' || at p 0 == b'#')

-- the second loop
unfoldable pub rounds : ℕ → Bytes → Bytes → Bytes × Bytes
unfolding round
rounds zero out p = (out, p)
rounds (suc fuel) out p =
    let rest = rounds fuel (round out p).0 (drop (round out p).1 p) in
    if stops p then (out, p) else rest

-- the two loops: what is written, and the query and the fragment
unfoldable pub dot_segments : Bytes → Bytes × Bytes
unfolding skip_dots rounds
dot_segments path =
    let p = skip_dots (length path) path in
    let (out, rest) = rounds (length p) [] p in (reverse out, rest)

-- `_normalize_path`
unfoldable pub normalize_path : Bytes → Bytes
unfolding dot_segments
normalize_path path = let (written, rest) = dot_segments path in written ++ rest
