-- ===== src/Interleaving/Counts.antt =====
-- How the number of claimed runs of one job fits its status, and what keeps it so.
use ai_virtual_try_on.Prelude.{
  ℕ, suc, ◌<◌, ◌≤◌, ◌≡◌, ◌⊎◌, ap, subst, Bool, true, false, Option, none, some, List, ◌∷◌, ◌==◌,
  arith, inl, inr, Bool-cases,
}
use ai_virtual_try_on.Job.{Job, JobStatus, pending, processing, completed, failed, cancelled}
use ai_virtual_try_on.Sweeps.Recovery.{visits}
use ai_virtual_try_on.Interleaving.{Floor, claimed, is_issued}
use ai_virtual_try_on.Interleaving.Effects.{status_at, Appears}

-- How often a run of a job with this status was claimed.
abbrev pub runs_of : JobStatus → ℕ
runs_of pending = 0
runs_of cancelled = 0
runs_of processing = 1
runs_of completed = 1
runs_of failed = 1

-- The number of claims fits the status; of a row that is gone, at most one was made.
abbrev pub Fits : Option JobStatus → ℕ → Type 0
Fits none n = n ≤ 1
Fits (some s) n = n ≡ runs_of s

-- What holds of one job: whether its id was given out, its status, the number of claims, and
-- whether the sweep under way saw it.
pub record Good (issued : Bool) (status : Option JobStatus) (n : ℕ) (seen : Bool) : Type 0 where
  pub fits : Fits status n
  pub swept : seen ≡ true → n ≡ 1
  pub fresh : issued ≡ false → (status ≡ none) × (n ≡ 0) × (seen ≡ false)

abbrev pub GoodAt : ℕ → Floor → Type 0
GoodAt k s =
    Good (is_issued k s.issued) (status_at k s.table) (claimed k s.claims) (visits k s.seen)

pub at_most_one : (n : ℕ) (status : Option JobStatus) → Fits status n → n ≤ 1
at_most_one n none fits = fits
at_most_one n (some pending) fits = omega arith
at_most_one n (some cancelled) fits = omega arith
at_most_one n (some processing) fits = omega arith
at_most_one n (some completed) fits = omega arith
at_most_one n (some failed) fits = omega arith

pub is_known :
    (issued : Bool) (s : JobStatus) (n : ℕ) (seen : Bool)
    → Good issued (some s) n seen
    → issued ≡ true
is_known issued s n seen g = elim (Bool-cases issued) [
  | inl known ↦ known
  | inr new ↦ absurd (ground (arith, g.fresh new))
]

-- The status of an id that was given out may change as long as the claims fit the new one.
becomes :
    (issued : Bool) (old new : Option JobStatus) (n : ℕ) (seen : Bool)
    → issued ≡ true
    → Fits new n
    → Good issued old n seen
    → Good issued new n seen
becomes issued old new n seen known fits g = record {
  fits = fits;
  swept = g.swept;
  fresh = λ h. absurd (ground arith);
}

keeps_issued : (k id : ℕ) (ids : List ℕ) → is_issued k ids ≡ true → is_issued k (id ∷ ids) ≡ true
keeps_issued k id ids h = ground arith

was_new : (k id : ℕ) (ids : List ℕ) → is_issued k (id ∷ ids) ≡ false → is_issued k ids ≡ false
was_new k id ids h = ground arith

pub same_id :
    (k id : ℕ) (ids : List ℕ)
    → (id == k) ≡ true
    → is_issued id ids ≡ false
    → is_issued k ids ≡ false
same_id k id ids h new = subst (λ n. is_issued n ids ≡ false) (ground arith) new

now_issued : (k id : ℕ) (ids : List ℕ) → (id == k) ≡ true → is_issued k (id ∷ ids) ≡ true
now_issued k id ids h = ground arith

issued-Good :
    (k id : ℕ) (ids : List ℕ) (status : Option JobStatus) (n : ℕ) (seen : Bool)
    → Good (is_issued k ids) status n seen
    → Good (is_issued k (id ∷ ids)) status n seen
issued-Good k id ids status n seen g = record {
  fits = g.fits;
  swept = g.swept;
  fresh = λ h. g.fresh (was_new k id ids h);
}

pub Appears-Good :
    (k id : ℕ) (ids : List ℕ) (n : ℕ) (seen : Bool) (t t' : List Job)
    → is_issued id ids ≡ false
    → Appears k id t t'
    → Good (is_issued k ids) (status_at k t) n seen
    → Good (is_issued k (id ∷ ids)) (status_at k t') n seen
Appears-Good k id ids n seen t t' new (inl same) g =
    rw same (issued-Good k id ids (status_at k t) n seen g)
Appears-Good k id ids n seen t t' new (inr (mine, missing, now_pending)) g =
    let (_, none_yet, _) = g.fresh (same_id k id ids mine new) in
    rw now_pending (
      becomes (is_issued k (id ∷ ids)) (status_at k t) (some pending) n seen
        (now_issued k id ids mine) none_yet (issued-Good k id ids (status_at k t) n seen g))

-- An end is written only by a run that was claimed.
owned_once :
    (n : ℕ) (end : JobStatus) → (end ≡ completed) ⊎ (end ≡ failed) → n ≡ 1 → n ≡ runs_of end
owned_once n end (inl e) one = rw e one
owned_once n end (inr e) one = rw e one

pub ended-Good :
    (issued : Bool) (n : ℕ) (old : Option JobStatus) (end : JobStatus) (seen : Bool)
    → 0 < n
    → (end ≡ completed) ⊎ (end ≡ failed)
    → Good issued old n seen
    → Good issued (some end) n seen
ended-Good issued n old end seen owned ends g =
    let one : n ≡ 1 = ground (arith, at_most_one n old g.fits) in
    let given : issued ≡ true = elim (Bool-cases issued) [
      | inl known ↦ known
      | inr new ↦ absurd (ground (arith, g.fresh new))
    ] in
    becomes issued old (some end) n seen given (owned_once n end ends one) g

pub cancelled-Good :
    (issued : Bool) (n : ℕ) (seen : Bool)
    → Good issued (some pending) n seen
    → Good issued (some cancelled) n seen
cancelled-Good issued n seen g =
    becomes issued (some pending) (some cancelled) n seen (is_known issued pending n seen g) g.fits
      g

pub claimed-Good :
    (issued : Bool) (n : ℕ) (seen : Bool)
    → Good issued (some pending) n seen
    → Good issued (some processing) (suc n) seen
claimed-Good issued n seen g = record {
  fits = ap suc g.fits;
  swept = λ h. ap suc g.fits;
  fresh = λ h. absurd (ground (arith, is_known issued pending n seen g));
}

-- A row that is gone leaves the claims as they were.
pub gone-Good :
    (issued : Bool) (n : ℕ) (old : Option JobStatus) (seen : Bool)
    → Good issued old n seen
    → Good issued none n seen
gone-Good issued n old seen g = record {
  fits = at_most_one n old g.fits;
  swept = g.swept;
  fresh = λ h. ground (arith, g.fresh h);
}
