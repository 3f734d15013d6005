-- ===== src/JobStore/DbLaws.antt =====
-- DbJobStore meets the contract IsJobStore on tables whose rows are unique, for new rows whose
-- values fit their columns and whose owner exists.
use mathlib.Core.Option
use ai_virtual_try_on.Prelude.{
  ℕ, String, ◌≡◌, refl, ap, true, false, ◌&&◌, not, Option, none, some, List, [], ◌∷◌, ◌++◌, arith,
  ◌==◌, inl, inr, sym, subst, Bool-cases, Option-cases, opt_text_eq, if◌then◌else◌, eq_iff,
}
use ai_virtual_try_on.Errors.Exec.{ok, Result}
use ai_virtual_try_on.Job.{Job, JobStatus, JobParams, status_eq, status_eq_lem}
use ai_virtual_try_on.Job.Table.{find, modify, find-modify, find-append}
use ai_virtual_try_on.JobStore.{IsJobStore, new_job, with_status, undated, as_saved, stays_failed}
use ai_virtual_try_on.JobStore.Index.{IsUnique, in_index}
use ai_virtual_try_on.JobStore.InMemory.{in_memory_job_store}
use ai_virtual_try_on.JobStore.Db
use ai_virtual_try_on.JobStore.Db.{Schema, db_job_store}
use ai_virtual_try_on.JobStore.Unique.{append-IsUnique}
use ai_virtual_try_on.JobStore.Agreement.{
  conflicts_of_found, conflicts_mono, conflicts-with_status, create_idempotent_agree,
  try_transition_agree, takes,
}
use ai_virtual_try_on.JobStore.Laws.{
  conflicts-new_job, modify-with_status-IsUnique, modify-saved-IsUnique, in_memory_job_store_laws,
}

opt_text_eq_lem : (a b : Option String) → opt_text_eq a b ≡ true → a ≡ b
opt_text_eq_lem none none h = refl
opt_text_eq_lem none (some b) h = ground arith
opt_text_eq_lem (some a) none h = ground arith
opt_text_eq_lem (some a) (some b) h = ground (arith, eq_iff a b)

-- What a write that the constraints allow leaves, where one that changes nothing is skipped.
abbrev Sees : ℕ → (Job → Job) → List Job → List Job → Type 0
Sees i f jobs jobs' =
    (k : ℕ)
    → Option.map undated (find k jobs') ≡ (
        if i == k
        then Option.map f (Option.map undated (find k jobs))
        else Option.map undated (find k jobs))

abbrev Written : ℕ → (Job → Job) → List Job → Result (Unit {0}) × List Job → Type 0
Written i f jobs (r, jobs') = (r ≡ ok tt) × IsUnique jobs' × Sees i f jobs jobs'

module _ (i : ℕ) (status : JobStatus) (error : Option String) (now : ℕ) (jobs : List Job) where
  -- A flush of the columns that the row has already would be invisible.
  rewrite_same :
      (row : Job)
      → find i jobs ≡ some row
      → status_eq row.status status ≡ true
      → opt_text_eq row.error error ≡ true
      → Sees i (with_status status error 0) jobs jobs
  rewrite_same row e same_status same_error k = elim (Bool-cases (i == k)) [
    | inl here ↦ ground (
      arith,
      status_eq_lem row.status status,
      opt_text_eq_lem row.error error,
      ap (λ (n : ℕ). find n jobs) {x = i} {y = k} (ground arith),
    )
    | inr there ↦ ground arith
  ]

  view-modify :
      Sees i (with_status status error 0) jobs (modify i (with_status status error now) jobs)
  view-modify k = ground (arith, find-modify i k (with_status status error now) jobs (λ x. refl))

  view-missing : find i jobs ≡ none → Sees i (with_status status error 0) jobs jobs
  view-missing missing k = elim (Bool-cases (i == k)) [
    | inl here ↦ ground (arith, ap (λ (n : ℕ). find n jobs) {x = i} {y = k} (ground arith))
    | inr there ↦ ground arith
  ]

  -- The update does not raise, and is the in-memory one but for a skipped flush.
  db-update_status :
      IsUnique jobs
      → stays_failed in_memory_job_store i status jobs ≡ true
      → Written i (with_status status error 0) jobs (Db.update_status i status error now jobs)
  unfolding Db.update_status
  db-update_status unique stays = elim (Option-cases (find i jobs)) [
    | inl missing ↦
        subst (Written i (with_status status error 0) jobs) (sym (ground arith))
          (refl, unique, view-missing missing)
    | inr (row, e) ↦
        elim (Bool-cases (status_eq row.status status && opt_text_eq row.error error)) [
          | inl same ↦
              subst (Written i (with_status status error 0) jobs) (sym (ground arith))
                (refl, unique, rewrite_same row e (ground arith) (ground arith))
          | inr changed ↦
              subst (Written i (with_status status error 0) jobs)
                (sym (
                  ground (
                    arith,
                    conflicts-with_status row status error now jobs,
                    conflicts_of_found row i jobs unique e,
                  )))
                (
                  refl,
                  modify-with_status-IsUnique i jobs unique status error now stays,
                  view-modify,
                )
        ]
  ]

module _ (i now : ℕ) (jobs : List Job) where
  abbrev saving : Job → Job
  saving j = record j { saved = true; updated_at = now }

  enters_saved : (row : Job) → (in_index (saving row) && not (in_index row)) ≡ false
  unfolding in_index
  enters_saved row = ground arith

  db-mark_saved : IsUnique jobs → Written i as_saved jobs (Db.mark_saved i now jobs)
  unfolding Db.mark_saved
  db-mark_saved unique = elim (Option-cases (find i jobs)) [
    | inl missing ↦ subst (Written i as_saved jobs) (sym (ground arith)) (
      refl,
      unique,
      λ k. elim (Bool-cases (i == k)) [
        | inl here ↦ ground (arith, ap (λ (n : ℕ). find n jobs) {x = i} {y = k} (ground arith))
        | inr there ↦ ground arith
      ],
    )
    | inr (row, e) ↦ elim (Bool-cases row.saved) [
      | inl already ↦ subst (Written i as_saved jobs) (sym (ground arith)) (
        refl,
        unique,
        λ k. elim (Bool-cases (i == k)) [
          | inl here ↦ ground (arith, ap (λ (n : ℕ). find n jobs) {x = i} {y = k} (ground arith))
          | inr there ↦ ground arith
        ],
      )
      | inr fresh ↦
          subst (Written i as_saved jobs)
            (sym (
              ground (
                arith,
                conflicts_mono row (saving row) jobs refl refl refl (enters_saved row),
                conflicts_of_found row i jobs unique e,
              )))
            (
              refl,
              modify-saved-IsUnique i jobs unique saving (λ x. refl),
              λ k. ground (arith, find-modify i k saving jobs (λ x. refl)),
            )
    ]
  ]

db-create :
    (schema : Schema) (params : JobParams) (id now : ℕ) (jobs : List Job)
    → find id jobs ≡ none
    → takes schema (new_job params id now) ≡ true
    → Db.create schema params id now jobs
      ≡ (ok (new_job params id now), jobs ++ new_job params id now ∷ [])
unfolding Db.create
db-create schema params id now jobs new taken =
    ground (arith, taken, conflicts-new_job params id now jobs)

pub db_job_store_laws : (schema : Schema) → IsJobStore (db_job_store schema) IsUnique (takes schema)
unfolding Db.get_by_idempotency_key
db_job_store_laws schema = record {
  view-create = λ params id now s u new taken.
      let job = new_job params id now in
      rw (db-create schema params id now s new taken) (
        refl,
        append-IsUnique job s u new (conflicts-new_job params id now s),
        λ k. ground (arith, find-append job k s new),
      );
  view-update_status =
      λ i status error now s u stays. db-update_status i status error now s u stays;
  view-try_transition_status = λ i expected new error now s u alive.
      rw (try_transition_agree i s u expected new error now alive)
        (in_memory_job_store_laws.view-try_transition_status i expected new error now s u alive);
  view-mark_saved = λ i now s u. db-mark_saved i now s u;
  view-create_idempotent = λ token params id now s u new taken.
      rw (create_idempotent_agree schema token params id now s new taken)
        (in_memory_job_store_laws.view-create_idempotent token params id now s u new refl);
}
