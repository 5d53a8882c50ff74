-- ===== src/Prelude/Chars.antt =====
-- Bytes and C strings. A `char *` is the list of the bytes up to the terminating NUL, and a
-- pointer into it is a suffix of that list.
use Prim.Native.Char.{code}
use Prim.Native.Nat.{ℕ, zero, suc, ◌+◌, ◌*◌, ◌<◌, bit_or}
use Prim.Native.String.{String}
use mathlib.Core.Bool.{Bool, true, ◌&&◌}
use mathlib.Core.List.{List, [], ◌∷◌}
use mathlib.Core.Path.{◌≡◌, refl}
use native.Mathlib.Omega.{arith}
use wget.Prelude.Lists.{get_or}
use wget.Prelude.Tests.{leb, ◌==◌, ==_iff}

abbrev pub Bytes : Type 0
Bytes = List ℕ

-- The code points of a literal: its bytes, if it is ASCII.
abbrev pub codes : String → Bytes
codes String.[] = []
codes (String.◌∷◌ c s) = code c ∷ codes s

abbrev pub IsByte : ℕ → Type 0
IsByte c = c < 256

abbrev pub IsChar : ℕ → Type 0
IsChar c = (0 < c) × (c < 256)

-- `p[i]`: behind the last byte stands the NUL.
abbrev pub at : Bytes → ℕ → ℕ
at p i = get_or p i 0

abbrev pub between : ℕ → ℕ → ℕ → Bool
between lo hi c = leb lo c && leb c hi

-- Facts about a byte are read off a table that is evaluated once.
unfoldable pub every : (ℕ → Bool) → ℕ → Bool
every p zero = true
every p (suc bound) = every p bound && p bound

pub every_elim : (p : ℕ → Bool) (bound i : ℕ) → i < bound → every p bound ≡ true → p i ≡ true
unfolding every
every_elim p zero i below table = absurd (omega arith)
every_elim p (suc bound) i below table = ground (arith, every_elim p bound i)

or_table : ℕ → ℕ → Bool
unfolding every
or_table n s = every (λ x. every (λ y. bit_or (x * s) y == x * s + y) s) n

-- `x << k | y` is a sum where `y` fits below the shift.
or_sum : (n s x y : ℕ) → or_table n s ≡ true → x < n → y < s → bit_or (x * s) y ≡ x * s + y
unfolding or_table
or_sum n s x y t hx hy =
    let row = every_elim (λ a. every (λ b. bit_or (a * s) b == a * s + b) s) n x hx t in
    (==_iff _ _).0 (every_elim (λ b. bit_or (x * s) b == x * s + b) s y hy row)

pub or_shift2 : (x y : ℕ) → x < 64 → y < 4 → bit_or (x * 4) y ≡ x * 4 + y
unfolding or_table
or_shift2 x y = or_sum 64 4 x y refl

pub or_shift4 : (x y : ℕ) → x < 16 → y < 16 → bit_or (x * 16) y ≡ x * 16 + y
unfolding or_table
or_shift4 x y = or_sum 16 16 x y refl

pub or_shift6 : (x y : ℕ) → x < 4 → y < 64 → bit_or (x * 64) y ≡ x * 64 + y
unfolding or_table
or_shift6 x y = or_sum 4 64 x y refl
