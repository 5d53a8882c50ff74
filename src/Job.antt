-- ===== src/Job.antt =====
-- src/job.c: `job_create_parts`. The length of a piece is not negative; the rest of the file and the
-- positions may be, and are kept as integers.
mod Cover
mod Tests
use wget.Prelude.{
  ℕ, zero, suc, ◌+◌, ◌-◌, Bool, true, false, List, [], ◌∷◌, Option, none, some, length, leb,
  if◌then◌else◌, ℤ, pos, negsuc,
}
use wget.Vector.{Vector, create, add}

-- `a - n`
abbrev pub minus : ℤ → ℕ → ℤ
minus (pos a) n = if leb n a then pos (a - n) else negsuc (n - a - 1)
minus (negsuc k) n = negsuc (k + n)

-- `a + b`
abbrev pub plus : ℤ → ℤ → ℤ
plus (pos a) (pos b) = pos (a + b)
plus (pos a) (negsuc k) = minus (pos a) (k + 1)
plus (negsuc k) (pos b) = minus (pos b) (k + 1)
plus (negsuc k) (negsuc l) = negsuc (k + l + 1)

-- `a >= n`
abbrev pub at_least : ℤ → ℕ → Bool
at_least (pos a) n = leb n a
at_least (negsuc k) n = false

-- `PART`; the thread that uses a part and its flags are 0 here
pub record Part : Type 0 where
  pub position : ℤ
  pub length : ℤ
  pub id : ℕ

-- what is read of a `wget_metalink_t`: the size and the lengths of the pieces
pub record Metalink : Type 0 where
  pub size : ℤ
  pub pieces : List ℕ

pub record Job : Type 0 where
  pub metalink : Option Metalink
  pub parts : Option (Vector Part)

-- the loop: `it` is `part.id` of the part before
unfoldable pub add_parts : List ℕ → ℕ → ℤ → ℤ → Vector Part → Vector Part
add_parts [] it position fsize parts = parts
add_parts (piece ∷ pieces) it position fsize parts =
    let size = if at_least fsize piece then pos piece else fsize in
    add_parts pieces (it + 1) (plus position size) (minus fsize piece)
      (add parts (record { position = position; length = size; id = it + 1 })).0

-- `if (!job->parts) … else wget_vector_clear(job->parts)`
unfoldable pub empty_parts : Metalink → Option (Vector Part) → Vector Part
unfolding create
empty_parts metalink none = create (length metalink.pieces) (pos 4) none
empty_parts metalink (some parts) = record parts { entry = [] }

-- `job_create_parts`
pub create_for : Job → Option Metalink → Job
unfolding add_parts empty_parts
create_for job none = job
create_for job (some metalink) = record job {
  parts = some (add_parts metalink.pieces 0 (pos 0) metalink.size (empty_parts metalink job.parts));
}

unfoldable pub job_create_parts : Job → Job
unfolding create_for
job_create_parts job = create_for job job.metalink
