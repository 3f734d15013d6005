-- ===== src/Interleaving/Claims.antt =====
-- Each job is run at most once, and a cancelled one never, in whatever order the steps are made.
use ai_virtual_try_on.Prelude.{
  ℕ, ◌<◌, ◌≡◌, ◌⊎◌, refl, subst, true, none, some, ◌∷◌, ◌==◌, arith, inl, inr, Bool-cases,
  if◌then◌else◌, not, has_number,
}
use ai_virtual_try_on.Job.{pending, processing, cancelled}
use ai_virtual_try_on.Job.Table.{find}
use ai_virtual_try_on.JobStore.Db
use ai_virtual_try_on.Sweeps.Recovery.{visits}
use ai_virtual_try_on.Interleaving.{
  Floor, empty, claimed, is_issued, won, Step, submit, submit_keyed, claim, finish, cancel, save,
  query, flush, abort, forget_user, Reach, here, later,
}
use ai_virtual_try_on.Interleaving.Effects.{
  status_at, create_lem, create_idempotent_lem, transition_lem, update_status_lem, mark_saved_lem,
  recover_lem, claim_won, claim_lost,
}
use ai_virtual_try_on.Interleaving.Distinct.{IsDistinct, Step-IsDistinct}
use ai_virtual_try_on.Interleaving.Counts.{same_id, is_known, Fits, Good, GoodAt}
use ai_virtual_try_on.Interleaving.Steps.{
  Step-GoodAt, delete-Stays, claims_there, moved_to, elsewhere,
}

empty-GoodAt : (k : ℕ) → GoodAt k empty
unfolding find
empty-GoodAt k = record {
  fits = omega arith;
  swept = λ h. absurd (ground arith);
  fresh = λ h. (refl, refl, refl);
}

Reach-IsDistinct : {s t : Floor} → Reach s t → IsDistinct s.table → IsDistinct t.table
Reach-IsDistinct here d = d
Reach-IsDistinct (later r step) d = Step-IsDistinct step (Reach-IsDistinct r d)

Reach-GoodAt : {s t : Floor} → Reach s t → (k : ℕ) → IsDistinct s.table → GoodAt k s → GoodAt k t
Reach-GoodAt here k d g = g
Reach-GoodAt (later r step) k d g = Step-GoodAt step k (Reach-IsDistinct r d) (Reach-GoodAt r k d g)

from_empty-GoodAt : {s : Floor} → Reach empty s → (k : ℕ) → GoodAt k s
from_empty-GoodAt r k = Reach-GoodAt r k tt (empty-GoodAt k)

-- From an empty table, whatever submissions, cancellations, saves, runs, sweeps and deletions of
-- accounts follow and in whatever order, ids being fresh: the number of claimed runs of a job is
-- fixed by its status, none while it is pending or cancelled, and exactly one while it is
-- processing, completed or failed; and it is at most one when no row has the id. So no job is ever
-- run twice.
pub claimed_once :
    {s : Floor} (r : Reach empty s) (k : ℕ) → Fits (status_at k s.table) (claimed k s.claims)
claimed_once r k = (from_empty-GoodAt r k).fits

-- The job is cancelled, or its row is gone, and no run of it was claimed.
abbrev IsWithdrawn : ℕ → Floor → Type 0
IsWithdrawn k s =
    ((status_at k s.table ≡ some cancelled) ⊎ (status_at k s.table ≡ none))
    × (is_issued k s.issued ≡ true)
    × (claimed k s.claims ≡ 0)

claim-IsWithdrawn :
    (i k now : ℕ) (s : Floor)
    → IsWithdrawn k s
    → IsWithdrawn k (record s {
      table = (Db.try_transition_status i pending processing none now s.table).1;
      claims =
          if won (Db.try_transition_status i pending processing none now s.table).0
          then i ∷ s.claims
          else s.claims;
    })
claim-IsWithdrawn i k now s w =
    elim (Bool-cases (won (Db.try_transition_status i pending processing none now s.table).0)) [
      | inr lost ↦ ground (arith, claim_lost i pending processing none now s.table lost)
      | inl starts ↦ elim (Bool-cases (i == k)) [
        | inl mine ↦
            let (was, is) = claim_won i pending processing none now s.table starts in
            absurd (ground (arith, moved_to i k s.table pending mine was))
        | inr other ↦ ground (
          arith,
          claims_there i k s.claims other,
          elsewhere i k pending processing now s.table other,
        )
      ]
    ]

Step-IsWithdrawn :
    {s t : Floor}
    → Step s t
    → (k : ℕ) → IsDistinct s.table
    → GoodAt k s
    → IsWithdrawn k s
    → IsWithdrawn k t
Step-IsWithdrawn {s} (submit schema params id now new) k d g w =
    elim (create_lem schema k params id now s.table) [
      | inl same ↦ ground arith
      | inr (mine, was, is) ↦ absurd (ground (arith, same_id k id s.issued mine new))
    ]
Step-IsWithdrawn {s} (submit_keyed schema token params id now new) k d g w =
    elim (create_idempotent_lem schema k token params id now s.table) [
      | inl same ↦ ground arith
      | inr (mine, was, is) ↦ absurd (ground (arith, same_id k id s.issued mine new))
    ]
Step-IsWithdrawn {s} (claim i now) k d g w = claim-IsWithdrawn i k now s w
Step-IsWithdrawn {s} (finish i status error now owned end) k d g w =
    elim (update_status_lem i k status error now s.table) [
      | inl same ↦ ground arith
      | inr (mine, is) ↦
          let owner : 0 < claimed k s.claims = rw (← mine) owned in absurd (ground arith)
    ]
Step-IsWithdrawn {s} (cancel i now) k d g w =
    elim (transition_lem i k pending cancelled none now s.table) [
      | inl same ↦ ground arith
      | inr (mine, was, is) ↦ ground arith
    ]
Step-IsWithdrawn {s} (save i now) k d g w = ground (arith, mark_saved_lem i k now s.table)
Step-IsWithdrawn {s} (query cutoff) k d g w = w
Step-IsWithdrawn {s} (flush now present) k d g w = elim (recover_lem k now s.seen s.table) [
  | inl same ↦ ground arith
  | inr (by_sweep, is) ↦ absurd (ground (arith, g.swept by_sweep))
]
Step-IsWithdrawn {s} abort k d g w = w
Step-IsWithdrawn {s} (forget_user user) k d g w =
    elim (delete-Stays k (λ j. not (has_number j.user_id user)) s.table d) [
      | inl same ↦ ground arith
      | inr gone ↦ ground arith
    ]

append : {s t u : Floor} → Reach s t → Reach t u → Reach s u
append r here = r
append r (later q step) = later (append r q) step

Reach-IsWithdrawn :
    {s t : Floor} → Reach empty s → Reach s t → (k : ℕ) → IsWithdrawn k s → IsWithdrawn k t
Reach-IsWithdrawn r here k w = w
Reach-IsWithdrawn r (later q step) k w =
    Step-IsWithdrawn step k (Reach-IsDistinct (append r q) tt) (from_empty-GoodAt (append r q) k)
      (Reach-IsWithdrawn r q k w)

cancelled-IsWithdrawn :
    (k : ℕ) (s : Floor) → GoodAt k s → status_at k s.table ≡ some cancelled → IsWithdrawn k s
cancelled-IsWithdrawn k s g c =
    let of_cancelled =
      subst (λ st. Good (is_issued k s.issued) st (claimed k s.claims) (visits k s.seen)) c g in
    (
      inl c,
      is_known (is_issued k s.issued) cancelled (claimed k s.claims) (visits k s.seen) of_cancelled,
      of_cancelled.fits,
    )

-- Once a job is cancelled, it stays so as long as its row is there, and no run of it is ever
-- claimed, whatever submissions, cancellations, saves, runs, sweeps and deletions of accounts
-- follow, ids being fresh: the recovery of stale jobs cannot overwrite it, and when its row is gone
-- no other takes its id.
pub cancelled_stays :
    {s t : Floor} (r : Reach empty s) (q : Reach s t) (k : ℕ)
    → status_at k s.table ≡ some cancelled
    → ((status_at k t.table ≡ some cancelled) ⊎ (status_at k t.table ≡ none))
      × (claimed k t.claims ≡ 0)
cancelled_stays {s} {t} r q k c =
    let (status, known, unclaimed) =
      Reach-IsWithdrawn r q k (cancelled-IsWithdrawn k s (from_empty-GoodAt r k) c) in
    (status, unclaimed)
