-- ===== src/Interleaving/Steps.antt =====
-- Every step keeps the number of claimed runs of each job fitting its status.
use ai_virtual_try_on.Prelude.{
  ℕ, suc, ◌<◌, ◌≡◌, ◌⊎◌, refl, subst, Bool, true, false, Option, none, some, List, ◌∷◌, ◌==◌, arith,
  inl, inr, Bool-cases, Option-cases, if◌then◌else◌, not, has_number, select,
}
use ai_virtual_try_on.Job.{Job, JobStatus, pending, processing, failed, cancelled, status_eq_lem}
use ai_virtual_try_on.Job.Table.{find}
use ai_virtual_try_on.JobStore.Db
use ai_virtual_try_on.Sweeps.{is_stale, recover_rows}
use ai_virtual_try_on.Sweeps.Recovery.{visits, holds_at}
use ai_virtual_try_on.Interleaving.{
  Floor, claimed, is_issued, won, Step, submit, submit_keyed, claim, finish, cancel, save, query,
  flush, abort, forget_user,
}
use ai_virtual_try_on.Interleaving.Effects.{
  status_at, Stays, create_lem, create_idempotent_lem, transition_lem, update_status_lem,
  mark_saved_lem, recover_lem, claim_won, claim_lost,
}
use ai_virtual_try_on.Interleaving.Distinct.{IsDistinct, visited, none_visited, find-select}
use ai_virtual_try_on.Interleaving.Counts.{
  Fits, Good, GoodAt, Appears-Good, ended-Good, cancelled-Good, claimed-Good, gone-Good,
}

running_stale :
    (cutoff k : ℕ) (t : List Job)
    → holds_at (is_stale cutoff) (find k t) ≡ true
    → status_at k t ≡ some processing
running_stale cutoff k t h = elim (Option-cases (find k t)) [
  | inl missing ↦ absurd (ground arith)
  | inr (j, e) ↦
      let running : j.status ≡ processing = status_eq_lem j.status processing (ground arith) in
      rw e (rw running refl)
]

claims_here : (i k : ℕ) (c : List ℕ) → (i == k) ≡ true → claimed k (i ∷ c) ≡ suc (claimed k c)
claims_here i k c h = ground arith

pub claims_there : (i k : ℕ) (c : List ℕ) → (i == k) ≡ false → claimed k (i ∷ c) ≡ claimed k c
claims_there i k c h = ground arith

pub moved_to :
    (i k : ℕ) (t : List Job) (status : JobStatus)
    → (i == k) ≡ true
    → status_at i t ≡ some status
    → status_at k t ≡ some status
moved_to i k t status h e = subst (λ n. status_at n t ≡ some status) (ground arith) e

pub elsewhere :
    (i k : ℕ) (expected new : JobStatus) (now : ℕ) (t : List Job)
    → (i == k) ≡ false
    → Stays k t (Db.try_transition_status i expected new none now t).1
elsewhere i k expected new now t h = elim (transition_lem i k expected new none now t) [
  | inl same ↦ same
  | inr (mine, was, is) ↦ absurd (ground arith)
]

claim-Good :
    (i k now : ℕ) (s : Floor)
    → GoodAt k s
    → Good
        (is_issued k s.issued)
        (status_at k (Db.try_transition_status i pending processing none now s.table).1)
        (claimed k (
          if won (Db.try_transition_status i pending processing none now s.table).0
          then i ∷ s.claims
          else s.claims))
        (visits k s.seen)
claim-Good i k now s g =
    elim (Bool-cases (won (Db.try_transition_status i pending processing none now s.table).0)) [
      | inr lost ↦ rw lost (rw (claim_lost i pending processing none now s.table lost) g)
      | inl starts ↦ elim (Bool-cases (i == k)) [
        | inl mine ↦
            let (was, is) = claim_won i pending processing none now s.table starts in
            rw starts (
              rw (claims_here i k s.claims mine) (
                rw (moved_to i k _ _ mine is) (
                  claimed-Good (is_issued k s.issued) (claimed k s.claims) (visits k s.seen)
                    (rw (← moved_to i k _ _ mine was) g))))
        | inr other ↦ rw starts (
            rw (claims_there i k s.claims other)
              (rw (elsewhere i k pending processing now s.table other) g))
      ]
    ]

-- The query of a sweep sees a job only while it is processing, and no job of a fresh id.
query-Good :
    (cutoff k : ℕ) (s : Floor)
    → IsDistinct s.table
    → GoodAt k s
    → GoodAt k (record s { seen = select (is_stale cutoff) s.table })
query-Good cutoff k s d g = record {
  fits = g.fits;
  swept = λ h.
      let running = running_stale cutoff k s.table (visited k (is_stale cutoff) s.table d h) in
      subst (λ st. Fits st (claimed k s.claims)) running g.fits;
  fresh = λ h.
      let (missing, none_yet, unseen) = g.fresh h in
      let absent : find k s.table ≡ none = elim (Option-cases (find k s.table)) [
        | inl gone ↦ gone
        | inr (j, e) ↦ absurd (ground arith)
      ] in
      (missing, none_yet, none_visited k (is_stale cutoff) s.table absent);
}

unseen-Good :
    (issued : Bool) (status : Option JobStatus) (n : ℕ) (seen : Bool)
    → Good issued status n seen
    → Good issued status n false
unseen-Good issued status n seen g = record {
  fits = g.fits;
  swept = λ h. absurd (ground arith);
  fresh = λ h. ground (arith, g.fresh h);
}

-- A row that the sweep saw was claimed, so the flush may write the end of a run.
flush-Good :
    (k now : ℕ) (seen t : List Job) (issued : Bool) (n : ℕ)
    → Good issued (status_at k t) n (visits k seen)
    → Good issued (status_at k (recover_rows now seen t)) n false
flush-Good k now seen t issued n g = elim (recover_lem k now seen t) [
  | inl same ↦ rw same (unseen-Good issued (status_at k t) n (visits k seen) g)
  | inr (by_sweep, written) ↦
      let owned : 0 < n = ground (arith, g.swept by_sweep) in
      rw written (
        unseen-Good issued (some failed) n (visits k seen)
          (ended-Good issued n (status_at k t) failed (visits k seen) owned (inr refl) g))
]

pub delete-Stays :
    (k : ℕ) (p : Job → Bool) (t : List Job)
    → IsDistinct t
    → Stays k t (select p t) ⊎ (status_at k (select p t) ≡ none)
delete-Stays k p t d = ground (arith, find-select k p t d)

pub Step-GoodAt : {s t : Floor} → Step s t → (k : ℕ) → IsDistinct s.table → GoodAt k s → GoodAt k t
Step-GoodAt {s} (submit schema params id now new) k d g =
    Appears-Good k id s.issued (claimed k s.claims) (visits k s.seen) s.table
      (Db.create schema params id now s.table).1 new (create_lem schema k params id now s.table) g
Step-GoodAt {s} (submit_keyed schema token params id now new) k d g =
    Appears-Good k id s.issued (claimed k s.claims) (visits k s.seen) s.table
      (Db.create_idempotent schema token params id now s.table).1 new
      (create_idempotent_lem schema k token params id now s.table) g
Step-GoodAt {s} (claim i now) k d g = claim-Good i k now s g
Step-GoodAt {s} (finish i status error now owned end) k d g =
    elim (update_status_lem i k status error now s.table) [
      | inl same ↦ rw same g
      | inr (mine, written) ↦ rw written (
          ended-Good (is_issued k s.issued) (claimed k s.claims) (status_at k s.table) status
            (visits k s.seen) (rw (← mine) owned) end g)
    ]
Step-GoodAt {s} (cancel i now) k d g =
    elim (transition_lem i k pending cancelled none now s.table) [
      | inl same ↦ rw same g
      | inr (mine, was, written) ↦ rw written (
          cancelled-Good (is_issued k s.issued) (claimed k s.claims) (visits k s.seen)
            (rw was at g))
    ]
Step-GoodAt {s} (save i now) k d g = rw (mark_saved_lem i k now s.table) g
Step-GoodAt {s} (query cutoff) k d g = query-Good cutoff k s d g
Step-GoodAt {s} (flush now present) k d g =
    flush-Good k now s.seen s.table (is_issued k s.issued) (claimed k s.claims) g
Step-GoodAt {s} abort k d g =
    unseen-Good (is_issued k s.issued) (status_at k s.table) (claimed k s.claims) (visits k s.seen)
      g
Step-GoodAt {s} (forget_user user) k d g =
    elim (delete-Stays k (λ j. not (has_number j.user_id user)) s.table d) [
      | inl same ↦ rw same g
      | inr gone ↦ rw gone (
          gone-Good (is_issued k s.issued) (claimed k s.claims) (status_at k s.table)
            (visits k s.seen) g)
    ]
