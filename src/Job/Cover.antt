-- ===== src/Job/Cover.antt =====
-- The parts of a job cover the file.
use wget.Prelude.{
  ℕ, ◌+◌, ◌-◌, ◌<◌, ◌≤◌, ◌≡◌, refl, sym, ◌∙◌, ap, true, List, [], ◌∷◌, ◌++◌, append_assoc,
  append-nil, Option, none, some, length, leb, if◌then◌else◌, pos, arith,
}
use wget.Job.{Part, Metalink, Job, add_parts, empty_parts, create_for, job_create_parts}
use wget.Vector.Append.{add-Appended}
use wget.Vector.{Vector, create, add, grown}

-- Every piece but the last lies in what is left of the file, and the last one reaches its end.
abbrev pub Reaches : ℕ → List ℕ → Type 0
Reaches size [] = size ≡ 0
Reaches size (piece ∷ []) = size ≤ piece
Reaches size (piece ∷ next ∷ pieces) = (piece ≤ size) × Reaches (size - piece) (next ∷ pieces)

-- The parts begin at `position`, each where the one before ends, have the numbers from `id` on, and
-- end at `last`.
abbrev pub Tiles : ℕ → ℕ → ℕ → List Part → Type 0
Tiles position id last [] = position ≡ last
Tiles position id last (part ∷ parts) =
    (size : ℕ) × (part ≡ record { position = pos position; length = pos size; id = id })
    × Tiles (position + size) (id + 1) last parts

-- A vector that grows by four, and what it holds.
record Holds (v : Vector Part) (parts : List Part) : Type 0 where
  entry : v.entry ≡ parts
  off : v.off ≡ pos 4
  size : 0 < v.max
  fits : length v.entry ≤ v.max

add-Holds :
    (v : Vector Part) (e : Part) (parts : List Part)
    → Holds v parts
    → Holds (add v e).0 (parts ++ (e ∷ []))
unfolding grown
add-Holds v e parts g =
    let grows : grown v.max v.off ≡ some (v.max + 4) = rw g.off refl in
    let r = add-Appended v e (v.max + 4) grows g.size g.fits in
    record {
      entry = r.entry ∙ ap (λ t. t ++ (e ∷ [])) g.entry;
      off = r.off ∙ g.off;
      size = r.size;
      fits = r.fits;
    }

add_parts-Tiles :
    (pieces : List ℕ) (id position size : ℕ) (v : Vector Part) (before : List Part)
    → Holds v before
    → Reaches size pieces
    → (parts : List Part) × ((add_parts pieces id (pos position) (pos size) v).entry
        ≡ before ++ parts)
      × Tiles position (id + 1) (position + size) parts
unfolding add_parts
add_parts-Tiles [] id position size v before g r =
    ([], g.entry ∙ sym (append-nil before), omega arith)
add_parts-Tiles (piece ∷ []) id position size v before g r =
    let rest : (if leb piece size then pos piece else pos size) ≡ pos size = ground arith in
    let part : Part = record { position = pos position; length = pos size; id = id + 1 } in
    rw (rest, add_parts) (part ∷ [], (add-Holds v part before g).entry, (size, refl, refl))
add_parts-Tiles (piece ∷ next ∷ pieces) id position size v before g r =
    let inside : leb piece size ≡ true = ground arith in
    let part : Part = record { position = pos position; length = pos piece; id = id + 1 } in
    let (parts, entry, tiles) =
      add_parts-Tiles (next ∷ pieces) (id + 1) (position + piece) (size - piece) (add v part).0
        (before ++ (part ∷ [])) (add-Holds v part before g) r.1 in
    let ends : position + piece + (size - piece) ≡ position + size = omega (arith, r.0) in
    rw (inside, add_parts)
      (part ∷ parts, entry ∙ append_assoc before (part ∷ []) parts, (piece, refl, rw ends at tiles))

-- what the second call finds: the vector that the first one made
pub record IsParts (parts : Option (Vector Part)) : Type 0 where
  pub grows : (v : Vector Part) → parts ≡ some v → (v.off ≡ pos 4) × (0 < v.max)

empty_parts-Holds :
    (metalink : Metalink) (parts : Option (Vector Part))
    → IsParts parts
    → 0 < length metalink.pieces
    → Holds (empty_parts metalink parts) []
unfolding empty_parts create
empty_parts-Holds metalink none h k = record {
  entry = refl;
  off = refl;
  size = k;
  fits = omega arith;
}
empty_parts-Holds metalink (some v) h k = record {
  entry = refl;
  off = (h.grows v refl).0;
  size = (h.grows v refl).1;
  fits = omega arith;
}

-- `job_create_parts` for a file whose pieces reach its end, each but the last inside the file: the
-- parts, whatever parts there were, are numbered from 1, lie one behind the other from position 0,
-- and the last one ends where the file does.
pub job_create_parts-Tiles :
    (job : Job) (size : ℕ) (piece : ℕ) (pieces : List ℕ)
    → IsParts job.parts
    → job.metalink ≡ some (record { size = pos size; pieces = piece ∷ pieces })
    → Reaches size (piece ∷ pieces)
    → (v : Vector Part) × ((job_create_parts job).parts ≡ some v) × Tiles 0 1 size v.entry
unfolding job_create_parts
job_create_parts-Tiles job size piece pieces h e r =
    let metalink : Metalink = record { size = pos size; pieces = piece ∷ pieces } in
    let v = empty_parts metalink job.parts in
    let (parts, entry, tiles) =
      add_parts-Tiles (piece ∷ pieces) 0 0 size v []
        (empty_parts-Holds metalink job.parts h (omega arith)) r in
    rw (e, create_for)
      (
        add_parts (piece ∷ pieces) 0 (pos 0) (pos size) v,
        refl,
        let whole : 0 + size ≡ size = omega arith in rw entry (rw whole at tiles),
      )
