-- ===== src/Prelude/CharClass.antt =====
-- The character tests of gnulib's c-ctype.h, which the repository takes from a submodule: an
-- interface with what its manual says of them, the ASCII classes in every locale. `strcaseeq`
-- is `!c_strcasecmp`, without regard to the case of ASCII letters.
use Prim.Native.Nat.{ℕ, ◌+◌}
use mathlib.Core.Bool.{Bool, ◌||◌}
use mathlib.Core.Path.{◌≡◌, refl}
use mathlib.Core.List.{[], ◌∷◌, map}
use wget.Prelude.Chars.{Bytes, between}
use wget.Prelude.Cstring.{streq}
use wget.Prelude.Tests.{◌==◌, if◌then◌else◌}

pub record Ctype : Type 0 where
  pub isalnum : ℕ → Bool
  pub isxdigit : ℕ → Bool
  pub isupper : ℕ → Bool
  pub tolower : ℕ → ℕ
  pub isblank : ℕ → Bool
  pub isspace : ℕ → Bool
  pub isalpha : ℕ → Bool
  pub isdigit : ℕ → Bool
  pub strcaseeq : Bytes → Bytes → Bool
  pub isalnum_ascii :
      (c : ℕ) → isalnum c ≡ (between b'0' b'9' c || between b'A' b'Z' c || between b'a' b'z' c)
  pub isxdigit_ascii :
      (c : ℕ) → isxdigit c ≡ (between b'0' b'9' c || between b'A' b'F' c || between b'a' b'f' c)
  pub isupper_ascii : (c : ℕ) → isupper c ≡ between b'A' b'Z' c
  pub isblank_ascii : (c : ℕ) → isblank c ≡ (c == b' ' || c == 9)
  pub isspace_ascii : (c : ℕ) → isspace c ≡ (c == b' ' || between 9 13 c)
  pub isalpha_ascii : (c : ℕ) → isalpha c ≡ (between b'A' b'Z' c || between b'a' b'z' c)
  pub isdigit_ascii : (c : ℕ) → isdigit c ≡ between b'0' b'9' c
  pub strcaseeq_ascii : (s t : Bytes) → strcaseeq s t ≡ streq (map tolower s) (map tolower t)
  pub tolower_ascii : (c : ℕ) → tolower c ≡ (if between b'A' b'Z' c then c + 32 else c)

abbrev ascii_lower : ℕ → ℕ
ascii_lower c = if between b'A' b'Z' c then c + 32 else c

-- the classes as the manual has them, to run the functions with
abbrev pub ascii : Ctype
ascii = record {
  isalnum = λ c. between b'0' b'9' c || between b'A' b'Z' c || between b'a' b'z' c;
  isxdigit = λ c. between b'0' b'9' c || between b'A' b'F' c || between b'a' b'f' c;
  isupper = λ c. between b'A' b'Z' c;
  tolower = ascii_lower;
  isblank = λ c. c == b' ' || c == 9;
  isspace = λ c. c == b' ' || between 9 13 c;
  isalpha = λ c. between b'A' b'Z' c || between b'a' b'z' c;
  isdigit = λ c. between b'0' b'9' c;
  isspace_ascii = λ c. refl;
  isalpha_ascii = λ c. refl;
  isdigit_ascii = λ c. refl;
  strcaseeq = λ s t. streq (map ascii_lower s) (map ascii_lower t);
  isblank_ascii = λ c. refl;
  strcaseeq_ascii = λ s t. refl;
  isalnum_ascii = λ c. refl;
  isxdigit_ascii = λ c. refl;
  isupper_ascii = λ c. refl;
  tolower_ascii = λ c. refl;
}

module _ (ctype : Ctype) where
  tolower-ascii : (s : Bytes) → map ctype.tolower s ≡ map ascii.tolower s
  tolower-ascii [] = refl
  tolower-ascii (c ∷ s) = rw (tolower-ascii s) (rw (ctype.tolower_ascii c) refl)

  pub strcaseeq-ascii : (s t : Bytes) → ctype.strcaseeq s t ≡ ascii.strcaseeq s t
  strcaseeq-ascii s t =
      rw (ctype.strcaseeq_ascii s t) (rw (tolower-ascii s) (rw (tolower-ascii t) refl))
