-- ===== src/Prelude/Cstring.antt =====
-- `strcmp`, `strncmp` and `strrchr` of the C library on C strings.
use mathlib.Core.Bool.{Bool, true, false, ◌&&◌}
use mathlib.Core.List.{[], ◌∷◌, ◌++◌}
use mathlib.Core.Logic.{◌↔◌}
use mathlib.Core.Option.{Option, none, some}
use mathlib.Core.Path.{◌≡◌, refl}
use native.Mathlib.Omega.{arith}
use Prim.Native.Nat.{ℕ, zero, suc, ◌<◌}
use wget.Prelude.Chars.{Bytes, at}
use wget.Prelude.Lists.{length}
use wget.Prelude.Tests.{◌==◌, if◌then◌else◌}

-- `!strcmp(s, t)`
unfoldable pub streq : Bytes → Bytes → Bool
streq [] [] = true
streq (c ∷ s) (d ∷ t) = c == d && streq s t
streq _ _ = false

pub streq_iff : (s t : Bytes) → (streq s t ≡ true) ↔ (s ≡ t)
unfolding streq
streq_iff (c ∷ s) (d ∷ t) = ground (arith, streq_iff s t)
streq_iff _ _ = ground arith

-- `!strncmp(s, t, strlen(s))`
unfoldable pub starts : Bytes → Bytes → Bool
starts [] t = true
starts (c ∷ s) [] = false
starts (c ∷ s) (d ∷ t) = c == d && starts s t

pub starts-append : (s t : Bytes) → starts s (s ++ t) ≡ true
unfolding starts
starts-append [] t = refl
starts-append (c ∷ s) t = ground (arith, starts-append s t)

pub starts_elim : (s t : Bytes) → starts s t ≡ true → (rest : Bytes) × (t ≡ s ++ rest)
unfolding starts
starts_elim [] t h = (t, refl)
starts_elim (c ∷ s) [] h = cc
starts_elim (c ∷ s) (d ∷ t) h =
    let (rest, e) = starts_elim s t (ground arith) in (rest, ground arith)

-- `strrchr(s, c) - s`
unfoldable pub last_index : ℕ → Bytes → Option ℕ
last_index c [] = none
last_index c (d ∷ s) = elim (last_index c s) [
  | some i ↦ some (suc i)
  | none ↦ if d == c then some 0 else none
]

pub last_index-lt :
    (c : ℕ) (s : Bytes) (i : ℕ) → last_index c s ≡ some i → (i < length s) × (at s i ≡ c)
unfolding last_index
last_index-lt c [] i h = cc
last_index-lt c (d ∷ s) zero h = ground arith
last_index-lt c (d ∷ s) (suc i) h =
    let tail : last_index c s ≡ some i = ground arith in
    let inside = last_index-lt c s i tail in (omega arith, inside.1)
