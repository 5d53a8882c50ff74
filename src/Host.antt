-- ===== src/Host.antt =====
-- src/host.c: the queues of the hosts and the number of jobs that can be handed out. A host is found
-- by its number. The queue, a `wget_list_t`, is the list of its jobs; a job is found by its `id`,
-- which stands for its address. The mutex makes every function one step, but for `host_remove_job`, which
-- calls itself while it holds the mutex: where `remove_robot_job` drops a job, it stands for a build
-- without threads.
pub mod Handout
pub mod Steps
pub mod Count
pub mod Release
pub mod Reach
pub mod Obey
mod Tests
use wget.Prelude.{
  ℕ, zero, suc, ◌+◌, ◌-◌, ◌*◌, Bool, true, false, not, ◌&&◌, ◌||◌, List, [], ◌∷◌, ◌++◌, Option,
  none, some, length, drop, get_or, set, ltb, leb, ◌==◌, if◌then◌else◌, Bytes, starts,
}

-- `JOB`: what the functions of host.c read and write, of a job without parts
pub record QueuedJob : Type 0 where
  pub id : ℕ
  pub path : Bytes
  pub used_by : ℕ
  pub inuse : Bool
  pub sitemap : Bool
  pub requested_by_user : Bool

-- `HOST`; `robots` are the paths of robots.txt
pub record Host : Type 0 where
  pub robot_job : Option QueuedJob
  pub robots : Option (List Bytes)
  pub queue : List QueuedJob
  pub retry_ts : ℕ
  pub qsize : ℕ
  pub failures : ℕ
  pub blocked : Bool

-- the hosts, and the static `qsize`
pub record Hosts : Type 0 where
  pub hosts : List Host
  pub total : ℕ

-- `if (!host->blocked) qsize += n`, and `qsize -= n`
abbrev pub plus_open : Host → ℕ → ℕ → ℕ
plus_open host n total = if host.blocked then total else total + n

abbrev pub minus_open : Host → ℕ → ℕ → ℕ
minus_open host n total = if host.blocked then total else total - n

-- `host_add_job`
abbrev pub add_job : QueuedJob → Host × ℕ → Host × ℕ
add_job job (host, total) = (
  record host { queue = host.queue ++ (job ∷ []); qsize = host.qsize + 1 },
  plus_open host 1 total,
)

-- `host_add_robotstxt_job`
abbrev pub add_robotstxt_job : QueuedJob → Host × ℕ → Host × ℕ
add_robotstxt_job job (host, total) =
    (record host { robot_job = some job; qsize = host.qsize + 1 }, plus_open host 1 total)

-- `wget_list_remove`
abbrev pub without : ℕ → List QueuedJob → List QueuedJob
without id [] = []
without id (job ∷ queue) = let rest = without id queue in if job.id == id then queue else job ∷ rest

-- `host->qsize--; if (!host->blocked) qsize--`
abbrev pub uncount : Host × ℕ → Host × ℕ
uncount (host, total) = (record host { qsize = host.qsize - 1 }, minus_open host 1 total)

-- `host_remove_job` of a job of the queue
abbrev pub remove_queued : ℕ → Host × ℕ → Host × ℕ
remove_queued id (host, total) = uncount (record host { queue = without id host.queue }, total)

-- `path->len && !strncmp(path->p + 1, thejob->iri->path, path->len - 1)`
abbrev pub is_disallowed : List Bytes → Bytes → Bool
is_disallowed [] path = false
is_disallowed ([] ∷ paths) path = is_disallowed paths path
is_disallowed ((c ∷ p) ∷ paths) path = starts p path || is_disallowed paths path

-- the tests of the loop over the queue
abbrev pub is_dropped : List Bytes → QueuedJob → Bool
is_dropped paths job =
    not job.requested_by_user && (not job.sitemap && is_disallowed paths job.path)

-- The loop over the queue, for the jobs from `thejob` on, with those in front that stayed; `max` counts
-- the rounds. Where it is more than the jobs, which the invariant excludes, C dereferences NULL.
unfoldable pub drop_disallowed :
    ℕ → List Bytes → List QueuedJob → List QueuedJob → Host × ℕ → Host × ℕ
drop_disallowed zero paths kept jobs (host, total) = (record host { queue = kept ++ jobs }, total)
drop_disallowed (suc max) paths kept [] (host, total) = (record host { queue = kept }, total)
drop_disallowed (suc max) paths kept (job ∷ jobs) state =
    if is_dropped paths job
    then drop_disallowed max paths kept jobs (uncount state)
    else drop_disallowed max paths (kept ++ (job ∷ [])) jobs state

-- `if (host->robots) …`
abbrev pub apply_robots : Option (List Bytes) → Host × ℕ → Host × ℕ
apply_robots none state = state
apply_robots (some paths) (host, total) =
    drop_disallowed (host.qsize - 1) paths [] host.queue (host, total)

abbrev pub close_robot_job : Host × ℕ → Host × ℕ
close_robot_job (host, total) = uncount (record host { robot_job = none }, total)

-- `host_remove_job` of the job for robots.txt
abbrev pub remove_robot_job : Host × ℕ → Host × ℕ
remove_robot_job (host, total) = close_robot_job (apply_robots host.robots (host, total))

-- `if (!host->blocked) { host->blocked = 1; qsize -= host->qsize; }`
abbrev pub block : Host × ℕ → Host × ℕ
block (host, total) = (record host { blocked = true }, minus_open host host.qsize total)

-- `host_increase_failure`; `tries` is `config.tries`
abbrev pub increase_failure : ℕ → ℕ → Host × ℕ → Host × ℕ
increase_failure tries now (host, total) =
    let failed = record host {
      failures = host.failures + 1;
      retry_ts = now + (host.failures + 1) * 1000;
    } in
    if not (tries == 0) && leb tries (host.failures + 1)
    then block (failed, total)
    else (failed, total)

-- `host_final_failure`
abbrev pub final_failure : Host × ℕ → Host × ℕ
final_failure state = block state

-- `host_reset_failure`
abbrev pub reset_failure : Host × ℕ → Host × ℕ
reset_failure (host, total) = (
  record host { failures = 0; retry_ts = 0; blocked = false },
  if host.blocked then total + host.qsize else total,
)

-- `host_queue_free`
abbrev pub queue_free : Host × ℕ → Host × ℕ
queue_free (host, total) =
    (record host { queue = []; robot_job = none; qsize = 0 }, minus_open host host.qsize total)

-- `queue_empty`
abbrev pub queue_empty : Hosts → Bool
queue_empty s = s.total == 0
