-- ===== src/Vector/Lex.antt =====
-- Comparisons made from comparisons: by a key, and one after the other.
use Prim.Native.Nat.{Ordering, lt, eq, gt, compare}
use wget.Prelude.{ap, ℕ, ◌≡◌, refl, List, [], ◌∷◌, Option, none, some, arith}
use wget.Vector.Order.{IsOrder, Le, opposite}
use wget.Vector.{Compare}

-- `if (!(n = first)) n = second`
abbrev pub or_else : Ordering → Ordering → Ordering
or_else eq r = r
or_else lt r = lt
or_else gt r = gt

abbrev pub by_key : {A B : Type 0} → (A → B) → Compare B → Compare A
by_key f c a b = c (f a) (f b)

abbrev pub lex : {A : Type 0} → Compare A → Compare A → Compare A
lex c d a b = or_else (c a b) (d a b)

pub compare-IsOrder : IsOrder compare
compare-IsOrder = record { turn = λ a b. ground arith; le_trans = λ a b d h k. ground arith }

pub by_key-IsOrder : {A B : Type 0} (f : A → B) {c : Compare B} → IsOrder c → IsOrder (by_key f c)
by_key-IsOrder f o = record {
  turn = λ a b. o.turn (f a) (f b);
  le_trans = λ a b d. o.le_trans (f a) (f b) (f d);
}

pub lex-IsOrder : {A : Type 0} {c d : Compare A} → IsOrder c → IsOrder d → IsOrder (lex c d)
lex-IsOrder {c = c} {d = d} o p = record {
  turn = λ a b. ground (arith, o.turn a b, p.turn a b);
  le_trans = λ a b e h k. ground (
    arith,
    o.le_trans a b e,
    o.le_trans e a b,
    o.le_trans b e a,
    o.turn a b,
    o.turn b e,
    o.turn a e,
    p.le_trans a b e,
  );
}

-- `strcmp`: the sign of the first difference of the bytes
unfoldable pub compare_bytes : Compare (List ℕ)
compare_bytes [] [] = eq
compare_bytes [] (d ∷ t) = lt
compare_bytes (c ∷ s) [] = gt
compare_bytes (c ∷ s) (d ∷ t) = or_else (compare c d) (compare_bytes s t)

bytes_turn : (s t : List ℕ) → compare_bytes t s ≡ opposite (compare_bytes s t)
unfolding compare_bytes
bytes_turn [] [] = refl
bytes_turn [] (d ∷ t) = refl
bytes_turn (c ∷ s) [] = refl
bytes_turn (c ∷ s) (d ∷ t) = ground (arith, bytes_turn s t)

bytes_trans : (s t u : List ℕ) → Le compare_bytes s t → Le compare_bytes t u → Le compare_bytes s u
unfolding compare_bytes
bytes_trans [] t [] h k = ground arith
bytes_trans [] t (e ∷ u) h k = ground arith
bytes_trans (c ∷ s) [] u h k = absurd (h refl)
bytes_trans (c ∷ s) (d ∷ t) [] h k = absurd (k refl)
bytes_trans (c ∷ s) (d ∷ t) (e ∷ u) h k = ground (arith, bytes_trans s t u)

pub compare_bytes-IsOrder : IsOrder compare_bytes
compare_bytes-IsOrder = record { turn = bytes_turn; le_trans = bytes_trans }

-- only equal strings compare equal
pub compare_bytes-eq : (s t : List ℕ) → compare_bytes s t ≡ eq → s ≡ t
unfolding compare_bytes
compare_bytes-eq [] [] h = refl
compare_bytes-eq [] (d ∷ t) h = cc
compare_bytes-eq (c ∷ s) [] h = cc
compare_bytes-eq (c ∷ s) (d ∷ t) h = ground (arith, compare_bytes-eq s t)

-- `wget_strcmp`: NULL stands before every string
unfoldable pub compare_strings : Compare (Option (List ℕ))
compare_strings none none = eq
compare_strings none (some t) = lt
compare_strings (some s) none = gt
compare_strings (some s) (some t) = compare_bytes s t

strings_turn : (s t : Option (List ℕ)) → compare_strings t s ≡ opposite (compare_strings s t)
unfolding compare_strings
strings_turn none none = refl
strings_turn none (some t) = refl
strings_turn (some s) none = refl
strings_turn (some s) (some t) = bytes_turn s t

strings_trans :
    (s t u : Option (List ℕ))
    → Le compare_strings s t
    → Le compare_strings t u
    → Le compare_strings s u
unfolding compare_strings
strings_trans none t none h k = ground arith
strings_trans none t (some u) h k = ground arith
strings_trans (some s) none u h k = absurd (h refl)
strings_trans (some s) (some t) none h k = absurd (k refl)
strings_trans (some s) (some t) (some u) h k = bytes_trans s t u h k

pub compare_strings-IsOrder : IsOrder compare_strings
compare_strings-IsOrder = record { turn = strings_turn; le_trans = strings_trans }

pub compare_strings-eq : (s t : Option (List ℕ)) → compare_strings s t ≡ eq → s ≡ t
unfolding compare_strings
compare_strings-eq none none h = refl
compare_strings-eq none (some t) h = cc
compare_strings-eq (some s) none h = cc
compare_strings-eq (some s) (some t) h = ap some (compare_bytes-eq s t h)
