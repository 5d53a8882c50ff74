-- ===== src/Host/Tests.antt =====
-- Runs of the queues, and the theorems at a run.
use wget.Prelude.{ascii, not, some, none, starts, ◌≡◌, refl, false, [], ◌∷◌, codes}
use wget.Iri.Parse.Pieces.{each_passes-Each}
use wget.Robots.{robots_parse}
use wget.Robots.Lines.{agent, print_lines, is_newline}
use wget.Robots.Rules.{rules}
use wget.Robots.Tests.{space, text, text-IsLine}
use wget.Host.Obey.{paths_in, Obeyed, remove_robot_job-obeys}
use wget.Host.{remove_robot_job, QueuedJob, Host, Hosts, drop_disallowed}
use wget.Host.Steps.{
  Reachable, new_host, perform, start, next, add, call, add_job_call, add_robotstxt_call,
  remove_robot_call, set_robots_call, final_failure_call,
}
use wget.Host.Handout.{search_host, search_queue, release_jobs, occupy}
use wget.Host.Reach.{IsHosts, Reachable-IsHosts}

abbrev job : QueuedJob
job = record {
  id = 1;
  path = codes "private/a";
  used_by = 0;
  inuse = false;
  sitemap = false;
  requested_by_user = false;
}

abbrev host : Host
host = (perform (add_robotstxt_call job) (perform (add_job_call job) (new_host, 0))).0

-- a job that robots.txt disallows goes with the job for robots.txt
jobs_dropped :
    ((perform remove_robot_call
        (perform (set_robots_call (codes "/private" ∷ [])) (host, 2))).0.queue
      ≡ [])
    × ((perform remove_robot_call (perform (set_robots_call (codes "/private" ∷ [])) (host, 2))).1
        ≡ 0)
unfolding drop_disallowed starts
jobs_dropped = (refl, refl)

-- the job for robots.txt comes first, and no other before it is done
handed_out :
    ((search_host 7 100 host).1 ≡ some (occupy 7 job))
    × ((search_host 8 100 (search_host 7 100 host).0).1 ≡ none)
    × ((search_host 8 100 (release_jobs 7 (search_host 7 100 host).0)).1 ≡ some (occupy 8 job))
unfolding search_host release_jobs search_queue
handed_out = (refl, refl, refl)

abbrev blocked_hosts : Hosts
blocked_hosts = record { hosts = (perform final_failure_call (host, 2)).0 ∷ []; total = 0 }

run-Reachable : Reachable blocked_hosts
run-Reachable =
    next _ _
      (next _ _ (next _ _ (next _ _ start (add [] 0)) (call [] [] new_host 0 (add_job_call job) tt))
        (call [] [] (perform (add_job_call job) (new_host, 0)).0 1 (add_robotstxt_call job) refl))
      (call [] [] host 2 final_failure_call tt)

Reachable-IsHosts_example : IsHosts blocked_hosts
Reachable-IsHosts_example = Reachable-IsHosts blocked_hosts run-Reachable

remove_robot_job-obeys_example :
    let parsed =
      robots_parse ascii space (some (codes "Wget")) (print_lines (agent (codes "*") ∷ text)) in
    Obeyed
      (rules ascii (some (codes "Wget")) (agent (codes "*") ∷ text)).paths
      host.queue
      (remove_robot_job (record host { robots = paths_in parsed }, 2)).0.queue
remove_robot_job-obeys_example =
    remove_robot_job-obeys ascii space (some (codes "Wget")) (agent (codes "*")) text host 2 refl
      (each_passes-Each (λ c. not (is_newline c)) (codes "Wget") refl) text-IsLine refl refl
