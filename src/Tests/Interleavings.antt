-- ===== src/Tests/Interleavings.antt =====
-- A submission, a cancellation, a run, a sweep and the deletion of the account, one after the other.
use ai_virtual_try_on.Prelude.{
  count_where, ◌≤◌, ◌≡◌, ◌⊎◌, refl, not, has_number, any_of, is_some, false, none, some, [], ◌∷◌,
  select, if◌then◌else◌,
}
use ai_virtual_try_on.Job.{cancelled, pending, processing}
use ai_virtual_try_on.Job.Table.{find, modify}
use ai_virtual_try_on.JobStore.Db
use ai_virtual_try_on.JobStore.Db.{insert_row, fits_columns, owner_exists}
use ai_virtual_try_on.JobStore.Index.{conflicts}
use ai_virtual_try_on.Sweeps.{is_stale, recover_rows}
use ai_virtual_try_on.Interleaving.{
  Floor, empty, claimed, won, submit, claim, cancel, query, flush, forget_user, Reach, here, later,
}
use ai_virtual_try_on.Interleaving.Effects.{status_at}
use ai_virtual_try_on.Interleaving.Counts.{Fits}
use ai_virtual_try_on.JobStore.Idempotency.{is_active_for}
use ai_virtual_try_on.Interleaving.Keys.{one_active_per_key}
use ai_virtual_try_on.Interleaving.Claims.{claimed_once, cancelled_stays}
use ai_virtual_try_on.Tests.Jobs.{params, schema}

abbrev submitted : Floor
submitted = record empty { table = (Db.create schema params 1 100 []).1; issued = 1 ∷ [] }

abbrev taken_back : Floor
taken_back = record submitted {
  table = (Db.try_transition_status 1 pending cancelled none 110 submitted.table).1;
}

abbrev to_cancelled : Reach empty taken_back
to_cancelled = later (later here (submit schema params 1 100 refl)) (cancel 1 110)

is_cancelled : status_at 1 taken_back.table ≡ some cancelled
unfolding Db.try_transition_status Db.create insert_row fits_columns owner_exists find conflicts
    modify
is_cancelled = refl

abbrev run_refused : Floor
run_refused = record {
  table = (Db.try_transition_status 1 pending processing none 120 taken_back.table).1;
  claims =
      if won (Db.try_transition_status 1 pending processing none 120 taken_back.table).0
      then 1 ∷ taken_back.claims
      else taken_back.claims;
  issued = taken_back.issued;
  seen = taken_back.seen;
}

abbrev looked : Floor
looked = record run_refused { seen = select (is_stale 500) run_refused.table }

abbrev swept : Floor
swept = record looked { table = recover_rows 900 looked.seen looked.table; seen = [] }

all_there : any_of (λ j. not (is_some (find j.id looked.table))) looked.seen ≡ false
unfolding Db.try_transition_status Db.create insert_row fits_columns owner_exists find conflicts
    modify
all_there = refl

abbrev deleted : Floor
deleted = record swept { table = select (λ j. not (has_number j.user_id 7)) swept.table }

abbrev to_deleted : Reach taken_back deleted
to_deleted =
    later (later (later (later here (claim 1 120)) (query 500)) (flush 900 all_there))
      (forget_user 7)

claimed_once_example : Fits (status_at 1 taken_back.table) (claimed 1 taken_back.claims)
claimed_once_example = claimed_once to_cancelled 1

cancelled_stays_example :
    ((status_at 1 deleted.table ≡ some cancelled) ⊎ (status_at 1 deleted.table ≡ none))
    × (claimed 1 deleted.claims ≡ 0)
cancelled_stays_example = cancelled_stays to_cancelled to_deleted 1 is_cancelled

one_active_per_key_example : count_where (is_active_for "user:7" "k1") taken_back.table ≤ 1
one_active_per_key_example = one_active_per_key to_cancelled "user:7" "k1"
