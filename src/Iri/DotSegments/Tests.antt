-- ===== src/Iri/DotSegments/Tests.antt =====
-- Runs of the normalization of paths, and the theorems at concrete paths.
use wget.Prelude.{◌≡◌, ◌≢◌, refl, [], ◌∷◌, ◌++◌, codes}
use wget.Iri.DotSegments.{dot_segments, normalize_path}
use wget.Iri.DotSegments.Climb.{dot_segments_flat}
use wget.Iri.DotSegments.Sizes.{Normalized, normalize_path-Normalized}

up_one : normalize_path (codes "a/b/../c?x=/../y") ≡ codes "a/c?x=/../y"
unfolding normalize_path
up_one = refl

up_all : normalize_path (codes "../../a/../../b/./c//d/.") ≡ codes "b/c/d/"
unfolding normalize_path
up_all = refl

-- A slash remains in front.
hidden : normalize_path (codes "a/../.b") ≡ codes "/.b"
unfolding normalize_path
hidden = refl

-- A last segment in front of a query remains.
last_up : normalize_path (codes "a/..?x") ≡ codes "a/..?x"
unfolding normalize_path
last_up = refl

dot_segments_flat_example :
    b'/' ∷ (dot_segments (codes "a/../../b")).0 ≢ [] ++ (b'/' ∷ b'.' ∷ b'.' ∷ b'/' ∷ codes "b")
dot_segments_flat_example = dot_segments_flat (codes "a/../../b") [] (codes "b")

normalize_path-Normalized_example :
    Normalized (codes "a/../b#c?d") (normalize_path (codes "a/../b#c?d"))
normalize_path-Normalized_example = normalize_path-Normalized (codes "a/../b#c?d")
