-- ===== src/Host/Steps.antt =====
-- The functions of host.c as steps of the hosts.
use wget.Prelude.{ℕ, ◌≡◌, Bool, true, false, ◌||◌, List, [], ◌∷◌, ◌++◌, none, some, ◌==◌, Bytes}
use wget.Host.Handout.{search_host, release_jobs}
use wget.Host.{
  QueuedJob, Host, Hosts, add_job, add_robotstxt_job, remove_queued, remove_robot_job,
  increase_failure, final_failure, reset_failure, queue_free,
}

-- the calls that change a host
pub data HostCall : Type 0 where
  add_job_call add_robotstxt_call : QueuedJob → HostCall
  remove_job_call : ℕ → HostCall
  remove_robot_call final_failure_call reset_failure_call queue_free_call : HostCall
  set_robots_call : List Bytes → HostCall
  increase_failure_call get_job_call : ℕ → ℕ → HostCall
  release_jobs_call : ℕ → HostCall

abbrev pub queued : ℕ → List QueuedJob → Bool
queued id [] = false
queued id (job ∷ queue) = job.id == id || queued id queue

-- what the callers see to: a job that is removed is there, and there is one job for robots.txt
abbrev pub IsAllowed : HostCall → Host → Type 0
IsAllowed (add_robotstxt_call job) host = host.robot_job ≡ none
IsAllowed (remove_job_call id) host = queued id host.queue ≡ true
IsAllowed remove_robot_call host = (job : QueuedJob) × (host.robot_job ≡ some job)
IsAllowed _ host = Unit {0}

abbrev pub set_robots : List Bytes → Host × ℕ → Host × ℕ
set_robots paths (host, total) = (record host { robots = some paths }, total)

abbrev pub perform : HostCall → Host × ℕ → Host × ℕ
perform (add_job_call job) state = add_job job state
perform (add_robotstxt_call job) state = add_robotstxt_job job state
perform (remove_job_call id) state = remove_queued id state
perform remove_robot_call state = remove_robot_job state
perform (set_robots_call paths) state = set_robots paths state
perform (increase_failure_call tries now) state = increase_failure tries now state
perform final_failure_call state = final_failure state
perform reset_failure_call state = reset_failure state
perform queue_free_call state = queue_free state
perform (get_job_call thread now) (host, total) = ((search_host thread now host).0, total)
perform (release_jobs_call thread) (host, total) = (release_jobs thread host, total)

-- `host_add` of a host that is not there
abbrev pub new_host : Host
new_host = record {
  robot_job = none;
  robots = none;
  queue = [];
  retry_ts = 0;
  qsize = 0;
  failures = 0;
  blocked = false;
}

-- a call for one of the hosts, or a new host
pub data Step : Hosts → Hosts → Type 0 where
  call :
      (front back : List Host) (host : Host) (total : ℕ) (c : HostCall)
      → IsAllowed c host
      → Step
          (record { hosts = front ++ (host ∷ back); total = total })
          (record {
            hosts = front ++ ((perform c (host, total)).0 ∷ back);
            total = (perform c (host, total)).1;
          })
  add :
      (hosts : List Host) (total : ℕ)
      → Step
          (record { hosts = hosts; total = total })
          (record { hosts = new_host ∷ hosts; total = total })

-- what can be reached from no hosts at all
pub data Reachable : Hosts → Type 0 where
  start : Reachable (record { hosts = []; total = 0 })
  next : (s t : Hosts) → Reachable s → Step s t → Reachable t
