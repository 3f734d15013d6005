-- ===== src/Job/Table.antt =====
-- The jobs that a store keeps, in insertion order: the dict `_jobs` of InMemoryJobStore, and the
-- rows of the table `jobs` under DbJobStore. The laws say what a lookup sees after an update.
use mathlib.Core.Option
use ai_virtual_try_on.Prelude.{
  ℕ, ◌≡◌, refl, Option, none, some, List, [], ◌∷◌, ◌++◌, arith, ◌==◌, if◌then◌else◌,
}
use ai_virtual_try_on.Job.{Job}

-- `self._jobs.get(job_id)`, `session.get(JobRecord, job_id)`
unfoldable pub find : ℕ → List Job → Option Job
find i [] = none
find i (j ∷ jobs) = if j.id == i then some j else find i jobs

-- The object or the row under this id, changed in place.
unfoldable pub modify : ℕ → (Job → Job) → List Job → List Job
modify i f [] = []
modify i f (j ∷ jobs) = if j.id == i then f j ∷ jobs else j ∷ modify i f jobs

-- `self._jobs[job.id] = job`
unfoldable pub put : Job → List Job → List Job
put k [] = k ∷ []
put k (j ∷ jobs) = if j.id == k.id then k ∷ jobs else j ∷ put k jobs

pub find-modify :
    (i k : ℕ) (f : Job → Job) (jobs : List Job)
    → ((x : Job) → (f x).id ≡ x.id)
    → find k (modify i f jobs) ≡ (if i == k then Option.map f (find k jobs) else find k jobs)
unfolding find modify
find-modify i k f [] keeps = ground arith
find-modify i k f (j ∷ jobs) keeps = ground (arith, keeps j, find-modify i k f jobs keeps)

pub find-put :
    (job : Job) (k : ℕ) (jobs : List Job)
    → find k (put job jobs) ≡ (if job.id == k then some job else find k jobs)
unfolding find put
find-put job k [] = ground arith
find-put job k (j ∷ jobs) = ground (arith, find-put job k jobs)

pub find-append :
    (job : Job) (k : ℕ) (jobs : List Job)
    → find job.id jobs ≡ none
    → find k (jobs ++ job ∷ []) ≡ (if job.id == k then some job else find k jobs)
unfolding find
find-append job k [] new = ground arith
find-append job k (j ∷ jobs) new = ground (arith, find-append job k jobs)

-- Under a new id the assignment appends.
pub put-eq-append :
    (job : Job) (jobs : List Job) → find job.id jobs ≡ none → put job jobs ≡ jobs ++ job ∷ []
unfolding find put
put-eq-append job [] new = refl
put-eq-append job (j ∷ jobs) new = ground (arith, put-eq-append job jobs)

-- A found job has the id that was asked for.
pub find_id : (i : ℕ) (j : Job) (jobs : List Job) → find i jobs ≡ some j → j.id ≡ i
unfolding find
find_id i j [] h = ground arith
find_id i j (x ∷ jobs) h = ground (arith, find_id i j jobs)
