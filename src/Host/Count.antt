-- ===== src/Host/Count.antt =====
-- The number of jobs of a host.
use wget.Prelude.{
  zero, ◌-◌, subst, sym, append-nil, append_assoc, ℕ, suc, ◌+◌, ◌≡◌, refl, Bool-cases, inl, inr,
  true, List, [], ◌∷◌, ◌++◌, length, length-append, Option, none, some, if◌then◌else◌, Bytes, arith,
}
use wget.Host.{
  close_robot_job, QueuedJob, Host, without, uncount, drop_disallowed, is_dropped, apply_robots,
}
use wget.Host.Steps.{queued}

abbrev pub robot_jobs : Option QueuedJob → ℕ
robot_jobs none = 0
robot_jobs (some job) = 1

-- the jobs of a host
abbrev pub jobs : Host → ℕ
jobs host = length host.queue + robot_jobs host.robot_job

-- the jobs of the hosts that are not blocked
abbrev pub open_jobs : Host → ℕ
open_jobs host = if host.blocked then 0 else jobs host

abbrev pub all_open_jobs : List Host → ℕ
all_open_jobs [] = 0
all_open_jobs (host ∷ hosts) = open_jobs host + all_open_jobs hosts

-- `qsize` of the host is the number of its jobs, and `total` counts them beside `rest` others
pub record IsCounted (rest : ℕ) (state : Host × ℕ) : Type 0 where
  pub host_count : state.0.qsize ≡ jobs state.0
  pub total_count : state.1 ≡ rest + open_jobs state.0

pub length-without :
    (id : ℕ) (queue : List QueuedJob)
    → queued id queue ≡ true
    → suc (length (without id queue)) ≡ length queue
length-without id [] h = cc
length-without id (job ∷ queue) h = ground (arith, length-without id queue)

drop_disallowed-IsCounted :
    (max : ℕ) (paths : List Bytes) (kept jobs : List QueuedJob) (host : Host) (total rest : ℕ)
    → IsCounted rest (record host { queue = kept ++ jobs }, total)
    → IsCounted rest (drop_disallowed max paths kept jobs (host, total))
unfolding drop_disallowed
drop_disallowed-IsCounted zero paths kept jobs host total rest k = k
drop_disallowed-IsCounted (suc max) paths kept [] host total rest k =
    subst (λ q. IsCounted rest (record host { queue = q }, total)) (append-nil kept) k
drop_disallowed-IsCounted (suc max) paths kept (job ∷ jobs) host total rest k =
    elim (Bool-cases (is_dropped paths job)) [
      | inl e ↦
          let shorter = length-append kept jobs in
          let longer = length-append kept (job ∷ jobs) in
          rw e (
            drop_disallowed-IsCounted max paths kept jobs (uncount (host, total)).0
              (uncount (host, total)).1 rest
              (record {
                host_count = omega (arith, shorter, longer, k.host_count);
                total_count = ground (arith, shorter, longer, k.total_count);
              }))
      | inr e ↦ rw e (
          drop_disallowed-IsCounted max paths (kept ++ (job ∷ [])) jobs host total rest (
            subst (λ q. IsCounted rest (record host { queue = q }, total))
              (sym (append_assoc kept (job ∷ []) jobs)) k))
    ]

drop_disallowed-robot_job :
    (max : ℕ) (paths : List Bytes) (kept jobs : List QueuedJob) (host : Host) (total : ℕ)
    → (drop_disallowed max paths kept jobs (host, total)).0.robot_job ≡ host.robot_job
unfolding drop_disallowed
drop_disallowed-robot_job zero paths kept jobs host total = refl
drop_disallowed-robot_job (suc max) paths kept [] host total = refl
drop_disallowed-robot_job (suc max) paths kept (job ∷ jobs) host total =
    elim (Bool-cases (is_dropped paths job)) [
      | inl e ↦ rw e (
          drop_disallowed-robot_job max paths kept jobs (uncount (host, total)).0
            (uncount (host, total)).1)
      | inr e ↦ rw e (drop_disallowed-robot_job max paths (kept ++ (job ∷ [])) jobs host total)
    ]

pub apply_robots-IsCounted :
    (robots : Option (List Bytes)) (host : Host) (total rest : ℕ)
    → IsCounted rest (host, total)
    → IsCounted rest (apply_robots robots (host, total))
      × ((apply_robots robots (host, total)).0.robot_job ≡ host.robot_job)
apply_robots-IsCounted none host total rest k = (k, refl)
apply_robots-IsCounted (some paths) host total rest k = (
  drop_disallowed-IsCounted (host.qsize - 1) paths [] host.queue host total rest k,
  drop_disallowed-robot_job (host.qsize - 1) paths [] host.queue host total,
)

pub close_robot_job-IsCounted :
    (host : Host) (total rest : ℕ)
    → robot_jobs host.robot_job ≡ 1
    → IsCounted rest (host, total)
    → IsCounted rest (close_robot_job (host, total))
close_robot_job-IsCounted host total rest e k = record {
  host_count = omega (arith, e, k.host_count);
  total_count = ground (arith, e, k.total_count);
}
