-- ===== src/Host/Reach.antt =====
-- The counters of all hosts, over any sequence of calls.
use wget.Prelude.{
  All-append, ==_iff, sym, ap, ◌∙◌, not, ◌&&◌, leb, ℕ, ◌+◌, ◌≡◌, ◌↔◌, refl, Bool-cases, inl, inr,
  true, List, [], ◌∷◌, ◌++◌, All, length-append, ◌==◌, arith,
}
use wget.Host.{Host, Hosts, apply_robots, queue_empty}
use wget.Host.Steps.{
  get_job_call, release_jobs_call, remove_robot_call, final_failure_call, reset_failure_call,
  queue_free_call, start, next, call, add, increase_failure_call, set_robots_call, remove_job_call,
  add_robotstxt_call, add_job_call, HostCall, IsAllowed, perform, Step, Reachable,
}
use wget.Host.Count.{
  robot_jobs, jobs, open_jobs, all_open_jobs, IsCounted, length-without, apply_robots-IsCounted,
  close_robot_job-IsCounted,
}
use wget.Host.Release.{search_host-IsCounted, release_jobs-IsCounted}

perform-IsCounted :
    (c : HostCall) (host : Host) (total rest : ℕ)
    → IsAllowed c host
    → IsCounted rest (host, total)
    → IsCounted rest (perform c (host, total))
perform-IsCounted (add_job_call job) host total rest a k = record {
  host_count = omega (arith, length-append host.queue (job ∷ []), k.host_count);
  total_count = ground (arith, k.total_count, length-append host.queue (job ∷ []));
}
perform-IsCounted (add_robotstxt_call job) host total rest a k =
    let none_there : robot_jobs host.robot_job ≡ 0 = ap robot_jobs a in
    record {
      host_count = omega (arith, none_there, k.host_count);
      total_count = ground (arith, none_there, k.total_count);
    }
perform-IsCounted (remove_job_call id) host total rest a k = record {
  host_count = omega (arith, length-without id host.queue a, k.host_count);
  total_count = ground (arith, k.total_count, length-without id host.queue a);
}
perform-IsCounted remove_robot_call host total rest a k =
    let (counted, same) = apply_robots-IsCounted host.robots host total rest k in
    let r = apply_robots host.robots (host, total) in
    close_robot_job-IsCounted r.0 r.1 rest (ap robot_jobs (same ∙ a.1)) counted
perform-IsCounted (set_robots_call paths) host total rest a k = record {
  host_count = k.host_count;
  total_count = k.total_count;
}
perform-IsCounted (increase_failure_call tries now) host total rest a k =
    elim (Bool-cases (not (tries == 0) && leb tries (host.failures + 1))) [
      | inl e ↦ rw e (record {
        host_count = k.host_count;
        total_count = ground (arith, k.total_count, k.host_count);
      })
      | inr e ↦ rw e (record { host_count = k.host_count; total_count = k.total_count })
    ]
perform-IsCounted final_failure_call host total rest a k = record {
  host_count = k.host_count;
  total_count = ground (arith, k.total_count, k.host_count);
}
perform-IsCounted reset_failure_call host total rest a k = record {
  host_count = k.host_count;
  total_count = ground (arith, k.total_count, k.host_count);
}
perform-IsCounted queue_free_call host total rest a k = record {
  host_count = refl;
  total_count = ground (arith, k.total_count, k.host_count);
}
perform-IsCounted (get_job_call thread now) host total rest a k =
    search_host-IsCounted thread now host total rest k
perform-IsCounted (release_jobs_call thread) host total rest a k =
    release_jobs-IsCounted thread host total rest k

all_open_jobs-append :
    (front back : List Host)
    → all_open_jobs (front ++ back) ≡ all_open_jobs front + all_open_jobs back
all_open_jobs-append [] back = omega arith
all_open_jobs-append (host ∷ front) back = omega (arith, all_open_jobs-append front back)

-- every host counts its jobs
abbrev pub HostCounts : List Host → Type 0
HostCounts hosts = All (λ host. host.qsize ≡ jobs host) hosts

HostCounts-elim :
    (front back : List Host) (host : Host)
    → HostCounts (front ++ (host ∷ back))
    → HostCounts front × (host.qsize ≡ jobs host) × HostCounts back
HostCounts-elim [] back host h = (tt, h.0, h.1)
HostCounts-elim (first ∷ front) back host h =
    let (hs, here, bs) = HostCounts-elim front back host h.1 in ((h.0, hs), here, bs)

pub record IsHosts (s : Hosts) : Type 0 where
  pub host_counts : HostCounts s.hosts
  pub total_is : s.total ≡ all_open_jobs s.hosts

step-IsHosts : (s t : Hosts) → Step s t → IsHosts s → IsHosts t
step-IsHosts _ _ (add hosts total) k = record {
  host_counts = (refl, k.host_counts);
  total_is = omega (arith, k.total_is);
}
step-IsHosts _ _ (call front back host total c a) k =
    let (hs, here, bs) = HostCounts-elim front back host k.host_counts in
    let rest = all_open_jobs front + all_open_jobs back in
    let before : IsCounted rest (host, total) = record {
      host_count = here;
      total_count = omega (arith, k.total_is, all_open_jobs-append front (host ∷ back));
    } in
    let r = perform-IsCounted c host total rest a before in
    record {
      host_counts =
          All-append (λ h. h.qsize ≡ jobs h) front ((perform c (host, total)).0 ∷ back) hs
            (r.host_count, bs);
      total_is =
          omega
            (arith, r.total_count, all_open_jobs-append front ((perform c (host, total)).0 ∷ back));
    }

-- Whatever calls were made, `qsize` of every host is the number of its jobs, and the static `qsize` that
-- of the jobs of all hosts that are not blocked.
pub Reachable-IsHosts : (s : Hosts) → Reachable s → IsHosts s
Reachable-IsHosts _ start = record { host_counts = tt; total_is = refl }
Reachable-IsHosts _ (next s t r step) = step-IsHosts s t step (Reachable-IsHosts s r)

none_open : (hosts : List Host) → (all_open_jobs hosts ≡ 0) ↔ All (λ host. open_jobs host ≡ 0) hosts
none_open [] = (λ e. tt, λ a. refl)
none_open (host ∷ hosts) = (
  λ e. (omega (arith, e), (none_open hosts).0 (omega (arith, e))),
  λ a. omega (arith, a.0, (none_open hosts).1 a.1),
)

-- Whatever calls were made, the queue counts as empty just if no host that is not blocked has a job.
pub queue_empty_iff :
    (s : Hosts) → Reachable s → (queue_empty s ≡ true) ↔ All (λ host. open_jobs host ≡ 0) s.hosts
queue_empty_iff s r =
    let k = Reachable-IsHosts s r in
    (
      λ e. (none_open s.hosts).0 (sym k.total_is ∙ (==_iff s.total 0).0 e),
      λ a. (==_iff s.total 0).1 (k.total_is ∙ (none_open s.hosts).1 a),
    )
