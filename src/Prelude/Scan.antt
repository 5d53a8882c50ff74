-- ===== src/Prelude/Scan.antt =====
-- The loops of the C code that go along a string while a test holds.
use Prim.Native.Nat.{ℕ, ◌≤◌}
use mathlib.Core.Bool.{Bool, true, false}
use mathlib.Core.List.{[], ◌∷◌, ◌++◌}
use mathlib.Core.Path.{◌≡◌, refl}
use native.Mathlib.Omega.{arith}
use wget.Prelude.Chars.{Bytes}
use wget.Prelude.Lists.{length, All}
use wget.Prelude.Tests.{if◌then◌else◌}

-- `for (p = s; test(*s); s++)`: the bytes up to there, and the rest
abbrev pub span : (ℕ → Bool) → Bytes → Bytes × Bytes
span test [] = ([], [])
span test (c ∷ s) = let rest = span test s in if test c then (c ∷ rest.0, rest.1) else ([], c ∷ s)

-- `while (test(*s)) s++`
abbrev pub skip : (ℕ → Bool) → Bytes → Bytes
skip test [] = []
skip test (c ∷ s) = let rest = skip test s in if test c then rest else c ∷ s

pub length-skip : (test : ℕ → Bool) (s : Bytes) → length (skip test s) ≤ length s
length-skip test [] = omega arith
length-skip test (c ∷ s) = ground (arith, length-skip test s)

pub length-span : (test : ℕ → Bool) (s : Bytes) → length (span test s).1 ≤ length s
length-span test [] = omega arith
length-span test (c ∷ s) = ground (arith, length-span test s)

-- no character of the test at the beginning
abbrev pub Stops : (ℕ → Bool) → Bytes → Type 0
Stops test [] = Unit {0}
Stops test (c ∷ s) = test c ≡ false

pub span-append :
    (test : ℕ → Bool) (t s : Bytes)
    → All (λ c. test c ≡ true) t
    → Stops test s
    → span test (t ++ s) ≡ (t, s)
span-append test [] [] h k = refl
span-append test [] (c ∷ s) h k = rw k refl
span-append test (c ∷ t) s h k = rw (h.0) (rw (span-append test t s h.1 k) refl)

pub skip-stop : (test : ℕ → Bool) (s : Bytes) → Stops test s → skip test s ≡ s
skip-stop test [] k = refl
skip-stop test (c ∷ s) k = rw k refl
