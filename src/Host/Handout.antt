-- ===== src/Host/Handout.antt =====
-- src/host.c: how jobs are handed out and released. `thread` stands for `wget_thread_self()`, and the
-- jobs have no parts.
use wget.Prelude.{
  ℕ, true, false, ◌&&◌, List, [], ◌∷◌, Option, none, some, map, ltb, ◌==◌, if◌then◌else◌,
}
use wget.Host.{QueuedJob, Host}

abbrev pub occupy : ℕ → QueuedJob → QueuedJob
occupy thread job = record job { inuse = true; used_by = thread }

-- `_search_queue_for_free_job` along the queue: the queue, and the job that is handed out
unfoldable pub search_queue : ℕ → List QueuedJob → List QueuedJob × Option QueuedJob
search_queue thread [] = ([], none)
search_queue thread (job ∷ queue) =
    let rest = search_queue thread queue in
    if job.inuse
    then (job ∷ rest.0, rest.1)
    else (occupy thread job ∷ queue, some (occupy thread job))

-- behind the test of the pause
abbrev pub search_open : ℕ → Host → Option QueuedJob → Host × Option QueuedJob
search_open thread host none =
    let (queue, job) = search_queue thread host.queue in (record host { queue = queue }, job)
search_open thread host (some robot) =
    if robot.inuse
    then (host, none)
    else (record host { robot_job = some (occupy thread robot) }, some (occupy thread robot))

-- `_search_host_for_free_job`
unfoldable pub search_host : ℕ → ℕ → Host → Host × Option QueuedJob
search_host thread now host =
    if host.blocked
    then (host, none)
    else if ltb now host.retry_ts
    then (host, none)
    else search_open thread host host.robot_job

-- `_release_job`
abbrev pub release_job : ℕ → QueuedJob → QueuedJob
release_job thread job =
    if job.inuse && job.used_by == thread then record job { inuse = false; used_by = 0 } else job

abbrev pub release_robot : ℕ → Option QueuedJob → Option QueuedJob
release_robot thread none = none
release_robot thread (some job) = some (release_job thread job)

-- `host_release_jobs`
unfoldable pub release_jobs : ℕ → Host → Host
release_jobs thread host = record host {
  robot_job = release_robot thread host.robot_job;
  queue = map (release_job thread) host.queue;
}
