-- ===== src/Job/Tests.antt =====
-- Runs of the creation of parts, and the theorem at a concrete file.
use wget.Prelude.{◌≡◌, refl, [], ◌∷◌, none, some, pos, negsuc, arith}
use wget.Vector.{Vector, add, create}
use wget.Job.{Part, Job, job_create_parts}
use wget.Job.Cover.{IsParts, Tiles, job_create_parts-Tiles}

abbrev file : Job
file = record {
  metalink = some (record { size = pos 250; pieces = 100 ∷ 100 ∷ 100 ∷ [] });
  parts = none;
}

abbrev too_many : Job
too_many = record {
  metalink = some (record { size = pos 100; pieces = 80 ∷ 80 ∷ 80 ∷ [] });
  parts = none;
}

three_parts :
    (job_create_parts file).parts
    ≡ some (record (create 3 (pos 4) none) {
      entry =
          record { position = pos 0; length = pos 100; id = 1 }
          ∷ record { position = pos 100; length = pos 100; id = 2 }
          ∷ record { position = pos 200; length = pos 50; id = 3 }
          ∷ [];
    })
unfolding job_create_parts add create
three_parts = refl

-- A piece behind the end of the file makes a part of negative length.
negative_part :
    (job_create_parts too_many).parts
    ≡ some (record (create 3 (pos 4) none) {
      entry =
          record { position = pos 0; length = pos 80; id = 1 }
          ∷ record { position = pos 80; length = pos 20; id = 2 }
          ∷ record { position = pos 100; length = negsuc 59; id = 3 }
          ∷ [];
    })
unfolding job_create_parts add create
negative_part = refl

none-IsParts : IsParts none
none-IsParts = record { grows = λ v e. cc }

job_create_parts-Tiles_example :
    (v : Vector Part) × ((job_create_parts file).parts ≡ some v) × Tiles 0 1 250 v.entry
job_create_parts-Tiles_example =
    job_create_parts-Tiles file 250 100 (100 ∷ 100 ∷ []) none-IsParts refl
      (omega arith, (omega arith, omega arith))
