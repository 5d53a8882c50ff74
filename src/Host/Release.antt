-- ===== src/Host/Release.antt =====
-- The jobs that are handed out and released stay with their host.
use wget.Prelude.{
  true, false, ltb, map, ap, ℕ, suc, ◌≡◌, refl, Bool-cases, inl, inr, true, List, [], ◌∷◌, length,
  Option, none, some, if◌then◌else◌, arith,
}
use wget.Host.{Bool, QueuedJob, Host}
use wget.Host.Handout.{
  search_queue, search_open, search_host, occupy, release_job, release_robot, release_jobs,
}
use wget.Host.Count.{robot_jobs, jobs, IsCounted}

-- a host with as many jobs, whose counter and flag are the same
same_jobs-IsCounted :
    (host h : Host) (total rest : ℕ)
    → IsCounted rest (host, total)
    → h.qsize ≡ host.qsize
    → h.blocked ≡ host.blocked
    → jobs h ≡ jobs host
    → IsCounted rest (h, total)
same_jobs-IsCounted host h total rest k s b j = record {
  host_count = omega (arith, s, j, k.host_count);
  total_count = rw b (rw j k.total_count);
}

length-search_queue :
    (thread : ℕ) (queue : List QueuedJob) → length (search_queue thread queue).0 ≡ length queue
unfolding search_queue
length-search_queue thread [] = refl
length-search_queue thread (job ∷ queue) = ground (arith, length-search_queue thread queue)

search_open-IsCounted :
    (thread : ℕ) (host : Host) (robot : Option QueuedJob) (total rest : ℕ)
    → host.robot_job ≡ robot
    → IsCounted rest (host, total)
    → IsCounted rest ((search_open thread host robot).0, total)
search_open-IsCounted thread host none total rest e k =
    same_jobs-IsCounted host (search_open thread host none).0 total rest k refl refl
      (omega (arith, length-search_queue thread host.queue))
search_open-IsCounted thread host (some robot) total rest e k = elim (Bool-cases robot.inuse) [
  | inl i ↦ rw i k
  | inr i ↦ rw i (
      same_jobs-IsCounted host (record host { robot_job = some (occupy thread robot) }) total rest k
        refl refl (omega (arith, ap robot_jobs e)))
]

either-IsCounted :
    (b : Bool) (x y : Host × Option QueuedJob) (total rest : ℕ)
    → IsCounted rest (x.0, total)
    → IsCounted rest (y.0, total)
    → IsCounted rest ((if b then x else y).0, total)
either-IsCounted true x y total rest h k = h
either-IsCounted false x y total rest h k = k

pub search_host-IsCounted :
    (thread now : ℕ) (host : Host) (total rest : ℕ)
    → IsCounted rest (host, total)
    → IsCounted rest ((search_host thread now host).0, total)
unfolding search_host
search_host-IsCounted thread now host total rest k =
    either-IsCounted host.blocked (host, none) _ total rest k
      (either-IsCounted (ltb now host.retry_ts) (host, none)
        (search_open thread host host.robot_job) total rest k
        (search_open-IsCounted thread host host.robot_job total rest refl k))

length-map :
    (f : QueuedJob → QueuedJob) (queue : List QueuedJob) → length (map f queue) ≡ length queue
length-map f [] = refl
length-map f (job ∷ queue) = ap suc (length-map f queue)

robot_jobs-release :
    (thread : ℕ) (robot : Option QueuedJob)
    → robot_jobs (release_robot thread robot) ≡ robot_jobs robot
robot_jobs-release thread none = refl
robot_jobs-release thread (some job) = refl

pub release_jobs-IsCounted :
    (thread : ℕ) (host : Host) (total rest : ℕ)
    → IsCounted rest (host, total)
    → IsCounted rest (release_jobs thread host, total)
unfolding release_jobs
release_jobs-IsCounted thread host total rest k =
    same_jobs-IsCounted host (release_jobs thread host) total rest k refl refl (
      omega (
        arith,
        length-map (release_job thread) host.queue,
        robot_jobs-release thread host.robot_job,
      ))
