-- ===== src/Host/Obey.antt =====
-- src/host.c: what the rules of a robots.txt leave of the queue, when the job for robots.txt is removed.
use wget.Prelude.{
  zero, suc, ◌-◌, ◌≤◌, ◌≢◌, ◌⊎◌, inl, inr, refl, length, Bool-cases, starts, starts_elim,
  starts-append, arith, ℕ, ◌≡◌, ap, ◌∙◌, sym, Bool, true, false, List, [], ◌∷◌, ◌++◌, append_assoc,
  append-nil, Option, none, some, Bytes, if◌then◌else◌, All, Ctype,
}
use wget.Host.Count.{jobs, robot_jobs}
use wget.Host.{
  is_disallowed, Host, QueuedJob, is_dropped, drop_disallowed, uncount, remove_robot_job,
}
use wget.Robots.{Robots, robots_parse}
use wget.Robots.Lines.{Line, print_lines, IsLine, IsClient}
use wget.Robots.Rules.{rules, robots_parse-print}

-- `host->robots`, as far as a host has it
abbrev pub paths_in : Option Robots → Option (List Bytes)
paths_in none = none
paths_in (some robots) = some robots.paths

abbrev pub allowed : List Bytes → List QueuedJob → List QueuedJob
allowed paths [] = []
allowed paths (job ∷ jobs) =
    let rest = allowed paths jobs in if is_dropped paths job then rest else job ∷ rest

true_false : {A : Type 0} → true ≡ false → A
true_false h = cc

keep_or_drop :
    (dropped : Bool) (max : ℕ) (paths : List Bytes) (kept jobs : List QueuedJob) (job : QueuedJob)
    (state : Host × ℕ)
    → ((drop_disallowed max paths kept jobs (uncount state)).0.queue ≡ kept ++ allowed paths jobs)
    → ((drop_disallowed max paths (kept ++ (job ∷ [])) jobs state).0.queue
        ≡ (kept ++ (job ∷ [])) ++ allowed paths jobs)
    → (if dropped
        then drop_disallowed max paths kept jobs (uncount state)
        else drop_disallowed max paths (kept ++ (job ∷ [])) jobs state).0.queue
      ≡ kept ++ (if dropped then allowed paths jobs else job ∷ allowed paths jobs)
keep_or_drop true max paths kept jobs job state h k = h
keep_or_drop false max paths kept jobs job state h k =
    k ∙ append_assoc kept (job ∷ []) (allowed paths jobs)

drop_disallowed-queue :
    (max : ℕ) (paths : List Bytes) (kept jobs : List QueuedJob) (state : Host × ℕ)
    → length jobs ≤ max
    → (drop_disallowed max paths kept jobs state).0.queue ≡ kept ++ allowed paths jobs
unfolding drop_disallowed
drop_disallowed-queue zero paths kept [] state h = refl
drop_disallowed-queue zero paths kept (job ∷ jobs) state h = absurd (omega arith)
drop_disallowed-queue (suc max) paths kept [] state h = sym (append-nil kept)
drop_disallowed-queue (suc max) paths kept (job ∷ jobs) state h =
    keep_or_drop (is_dropped paths job) max paths kept jobs job state
      (drop_disallowed-queue max paths kept jobs (uncount state) (omega arith))
      (drop_disallowed-queue max paths (kept ++ (job ∷ [])) jobs state (omega arith))

-- the path does not begin with what stands behind the first byte of a path of robots.txt
abbrev pub IsOutside : Bytes → Bytes → Type 0
IsOutside path disallowed = (c : ℕ) (p rest : Bytes) → disallowed ≡ c ∷ p → path ≢ p ++ rest

-- a job that robots.txt leaves in the queue
abbrev pub MayStay : List Bytes → QueuedJob → Type 0
MayStay paths job =
    (job.requested_by_user ≡ true) ⊎ (job.sitemap ≡ true) ⊎ All (IsOutside job.path) paths

-- what a queue is left with: the jobs that may stay, in their order, and no others
pub data Obeyed (paths : List Bytes) : List QueuedJob → List QueuedJob → Type 0 where
  done : Obeyed paths [] []
  stay :
      (job : QueuedJob) (jobs rest : List QueuedJob)
      → MayStay paths job
      → Obeyed paths jobs rest
      → Obeyed paths (job ∷ jobs) (job ∷ rest)
  drop :
      (job : QueuedJob) (jobs rest : List QueuedJob)
      → ¬ MayStay paths job
      → Obeyed paths jobs rest
      → Obeyed paths (job ∷ jobs) rest

cons_parts : (c d : ℕ) (p q : Bytes) → c ∷ p ≡ d ∷ q → p ≡ q
cons_parts c d p q h = cc

IsOutside-starts :
    (path : Bytes) (c : ℕ) (p : Bytes) → IsOutside path (c ∷ p) → starts p path ≡ false
IsOutside-starts path c p h = elim (Bool-cases (starts p path)) [
  | inr e ↦ e
  | inl e ↦ let (rest, s) = starts_elim p path e in absurd (h c p rest refl s)
]

starts-IsOutside :
    (path : Bytes) (c : ℕ) (p : Bytes) → starts p path ≡ false → IsOutside path (c ∷ p)
starts-IsOutside path c p h d q rest e s =
    let same : p ≡ q = cons_parts c d p q e in
    let start : starts p path ≡ true = rw s (rw same (starts-append q rest)) in ground arith

empty_none : (c : ℕ) (p : Bytes) → [] ≢ c ∷ p
empty_none c p h = cc

IsOutside-all :
    (paths : List Bytes) (path : Bytes)
    → is_disallowed paths path ≡ false
    → All (IsOutside path) paths
IsOutside-all [] path h = tt
IsOutside-all ([] ∷ paths) path h = (λ c p rest e s. empty_none c p e, IsOutside-all paths path h)
IsOutside-all ((c ∷ p) ∷ paths) path h =
    (starts-IsOutside path c p (ground arith), IsOutside-all paths path (ground arith))

all_outside :
    (paths : List Bytes) (path : Bytes)
    → All (IsOutside path) paths
    → is_disallowed paths path ≡ false
all_outside [] path h = refl
all_outside ([] ∷ paths) path h = all_outside paths path h.1
all_outside ((c ∷ p) ∷ paths) path h =
    rw (IsOutside-starts path c p h.0) (all_outside paths path h.1)

kept_MayStay :
    (paths : List Bytes) (job : QueuedJob) → is_dropped paths job ≡ false → MayStay paths job
kept_MayStay paths job h = elim (Bool-cases job.requested_by_user) [
  | inl user ↦ inl user
  | inr other ↦ elim (Bool-cases job.sitemap) [
    | inl sitemap ↦ inr (inl sitemap)
    | inr page ↦ inr (inr (IsOutside-all paths job.path (ground arith)))
  ]
]

MayStay-kept :
    (paths : List Bytes) (job : QueuedJob) → MayStay paths job → is_dropped paths job ≡ false
MayStay-kept paths job (inl user) = ground arith
MayStay-kept paths job (inr (inl sitemap)) = ground arith
MayStay-kept paths job (inr (inr outside)) =
    let free = all_outside paths job.path outside in ground arith

allowed-Obeyed :
    (paths : List Bytes) (jobs : List QueuedJob) → Obeyed paths jobs (allowed paths jobs)
allowed-Obeyed paths [] = done
allowed-Obeyed paths (job ∷ jobs) = elim (Bool-cases (is_dropped paths job)) [
  | inl e ↦ rw e (
      drop job jobs (allowed paths jobs) (λ m. true_false (sym e ∙ MayStay-kept paths job m))
        (allowed-Obeyed paths jobs))
  | inr e ↦
      rw e
        (stay job jobs (allowed paths jobs) (kept_MayStay paths job e) (allowed-Obeyed paths jobs))
]

-- When the job for robots.txt is removed from a host whose robots.txt was parsed, of lines with one at
-- least, and whose count is that of its jobs, the jobs that are left in the queue are those that the
-- user asked for, those for sitemaps, and those whose path begins with no path of the record that
-- counts, in their order. The slash in front of a path of robots.txt is not compared.
pub remove_robot_job-obeys :
    (ctype : Ctype) (isspace : ℕ → Bool) (client : Option Bytes) (l : Line) (lines : List Line)
    (host : Host) (total : ℕ)
    → isspace 10 ≡ true
    → IsClient client
    → All (IsLine isspace) (l ∷ lines)
    → robot_jobs host.robot_job ≡ 1
    → host.qsize ≡ jobs host
    → let parsed = robots_parse ctype isspace client (print_lines (l ∷ lines)) in
      Obeyed
        (rules ctype client (l ∷ lines)).paths
        host.queue
        (remove_robot_job (record host { robots = paths_in parsed }, total)).0.queue
remove_robot_job-obeys ctype isspace client l lines host total newline k h robot count =
    let paths = (rules ctype client (l ∷ lines)).paths in
    let queue : (remove_robot_job (
      record host {
        robots = paths_in (robots_parse ctype isspace client (print_lines (l ∷ lines)));
      },
      total,
    )).0.queue
        ≡ allowed paths host.queue =
      ap (λ p. (remove_robot_job (record host { robots = paths_in p }, total)).0.queue)
        (robots_parse-print ctype isspace client l lines newline k h)
      ∙ drop_disallowed-queue (host.qsize - 1) paths [] host.queue
          (record host { robots = some paths }, total) (omega (arith, robot, count)) in
    rw queue (allowed-Obeyed paths host.queue)
