-- ===== src/Tests/Limits.antt =====
-- Requests, reset tokens and sweeps at concrete inputs.
use mathlib.Core.Option
use ai_virtual_try_on.Prelude.{
  ℕ, ◌-◌, ◌*◌, ◌≤◌, ◌≡◌, refl, arith, String, true, false, ◌&&◌, none, some, List, [], ◌∷◌, ltb,
  length, select, map, any_of, ◌==◌, not, ◌||◌, Bool, count_where, if◌then◌else◌, All,
}
use ai_virtual_try_on.Errors.{stale_data_error}
use ai_virtual_try_on.Errors.Exec.{ok, err}
use ai_virtual_try_on.Job.{Job, processing, completed}
use ai_virtual_try_on.Job.Table.{find}
use ai_virtual_try_on.JobStore.Index.{IsUnique, clashes, same_entry}
use ai_virtual_try_on.Storage.{Disk, delete_result, cleanup_temp, get_result, load_temp_upload}
use ai_virtual_try_on.RateLimiter.{RateLimiter, RateLimitResult, get_hits, oldest, check}
use ai_virtual_try_on.RateLimiter.Window.{
  Tracks, answer, answers, spec_answers, answers-eq_spec, retry_after_allows,
}
use ai_virtual_try_on.BodySizeLimit.{Message, request, deliver, start, AppEnd, responded}
use ai_virtual_try_on.BodySizeLimit.Budget.{body_length, delivered-le_max}
use ai_virtual_try_on.PasswordReset.{PasswordResetToken, issue_reset_token, consume_reset_token}
use ai_virtual_try_on.PasswordReset.SingleUse.{consume_once}
use ai_virtual_try_on.Sweeps.{
  Faults, is_missing, flush_rows, recover_files, recover_file, is_stale, is_expired, recovered,
  recover_stale_processing_jobs, cleanup_expired_results,
}
use ai_virtual_try_on.Sweeps.Recovery.{holds_at, recovery_lem, recovery_overwrites}
use ai_virtual_try_on.Sweeps.Cleanup.{cleanup_lem}
use ai_virtual_try_on.Tests.Jobs.{waiting}

-- One request in each minute.
abbrev limiter : RateLimiter
limiter = record { max_requests = 1; window_seconds = 60; hits = [] }

abbrev full_limiter : RateLimiter
full_limiter = record { max_requests = 1; window_seconds = 60; hits = ("a", 1000000 ∷ []) ∷ [] }

nothing_tracked : Tracks limiter [] 0
unfolding get_hits
nothing_tracked = record { counts = λ key now h. refl }

abbrev requests : List (String × ℕ)
requests = ("a", 0) ∷ ("b", 5) ∷ ("a", 30000000) ∷ ("a", 60000000) ∷ []

answers-eq_spec_example : answers limiter requests ≡ spec_answers 1 60 [] requests
answers-eq_spec_example =
    answers-eq_spec limiter [] 0 requests nothing_tracked
      (omega arith, (omega arith, (omega arith, (omega arith, tt))))

abbrev refusal : RateLimitResult
refusal = record { allowed = false; retry_after_seconds = 51 }

refused_now : (check "a" 11000000 full_limiter).0 ≡ ok refusal
unfolding check get_hits oldest
refused_now = refl

few_hits : count_where (λ t. ltb (11000000 - t) 60000000) (get_hits "a" full_limiter.hits) ≤ 1
unfolding get_hits
few_hits = omega arith

no_future_hit : All (λ t. t ≤ 11000000) (get_hits "a" full_limiter.hits)
unfolding get_hits
no_future_hit = (omega arith, tt)

retry_after_allows_example : answer (check "a" 11000000 full_limiter).1 "a" 62000000 ≡ true
retry_after_allows_example =
    retry_after_allows "a" 11000000 62000000 full_limiter refusal refused_now refl few_hits
      no_future_hit (omega arith)

delivered-le_max_example :
    body_length (deliver 10 3 (start (request 6 ∷ request 6 ∷ request 1 ∷ []))).0 ≤ 10
delivered-le_max_example = delivered-le_max 10 3 (request 6 ∷ request 6 ∷ request 1 ∷ [])

abbrev app : List Message → AppEnd ℕ
app got = responded (body_length got)

abbrev hash : String → String
hash s = s

-- An unused token of user 7 and a used one.
abbrev tokens : List PasswordResetToken
tokens =
    record { user_id = 7; token_hash = "old"; expires_at = 500; used_at = none }
    ∷ record { user_id = 7; token_hash = "spent"; expires_at = 500; used_at = some 3 }
    ∷ []

consume_once_example :
    consume_reset_token hash "old" 200 (consume_reset_token hash "old" 100 tokens).1
    ≡ (none, (consume_reset_token hash "old" 100 tokens).1)
consume_once_example = consume_once hash "old" 100 200 tokens (omega arith)

issued : (issue_reset_token hash 7 "new" 30 100 tokens).0 ≡ ok "new"
unfolding issue_reset_token
issued = refl

-- A job that has been processing for a long time, and the same job once its run has ended.
abbrev stuck : Job
stuck = record waiting { status = processing }

abbrev ended : Job
ended = record waiting { status = completed; saved = true }

abbrev no_faults : Faults
no_faults = record { cleanup_fails = λ i. false; delete_fails = λ i. false }

abbrev disk : Disk ℕ
disk = record { tmp = []; results = [] }

stuck-IsUnique : IsUnique (stuck ∷ [])
unfolding clashes same_entry
stuck-IsUnique = (refl, tt)

found_stuck : find 1 (stuck ∷ []) ≡ some stuck
unfolding find
found_stuck = refl

found_ended : find 1 (ended ∷ []) ≡ some ended
unfolding find
found_ended = refl

-- The witness of the recovery: one stale job.
recovery_lem_example :
    let (r, table, d') =
      recover_stale_processing_jobs no_faults 900000000 10 (stuck ∷ []) (stuck ∷ []) disk in
    let found = select (is_stale (900000000 - 10 * 60000000)) (stuck ∷ []) in
    let stale = holds_at (is_stale (900000000 - 10 * 60000000)) (find 1 (stuck ∷ [])) in
    (r ≡ ok (length found, map (λ (j : Job). j.id) found))
    × (find 1 table ≡ (
        if stale
        then Option.map (recovered 900000000) (find 1 (stuck ∷ []))
        else find 1 (stuck ∷ [])))
    × (get_result 1 d' ≡ (if stale && true then none else get_result 1 disk))
    × ((name : String)
        → load_temp_upload 1 name d'
          ≡ (if stale && true then none else load_temp_upload 1 name disk))
recovery_lem_example = recovery_lem no_faults 900000000 10 1 (stuck ∷ []) disk stuck-IsUnique

ended_there :
    any_of (is_missing (ended ∷ [])) (select (is_stale (900000000 - 10 * 60000000)) (stuck ∷ []))
    ≡ false
unfolding find
ended_there = refl

-- When the row is gone at the flush, the sweep raises, and the files are deleted all the same.
flush_refused :
    recover_stale_processing_jobs no_faults 900000000 10 (stuck ∷ []) [] disk
    ≡ (err stale_data_error, [], disk)
unfolding recover_stale_processing_jobs flush_rows recover_files recover_file delete_result
    cleanup_temp find
flush_refused = refl

recovery_overwrites_example :
    let (r, table', d') =
      recover_stale_processing_jobs no_faults 900000000 10 (stuck ∷ []) (ended ∷ []) disk in
    (find 1 table' ≡ some (recovered 900000000 ended)) × (get_result 1 d' ≡ none)
recovery_overwrites_example =
    recovery_overwrites no_faults 900000000 10 1 (stuck ∷ []) (ended ∷ []) disk stuck ended
      stuck-IsUnique found_stuck refl found_ended refl ended_there

-- Two expired jobs, for the second of which the storage raises.
abbrev old : Job
old = record stuck { status = completed; updated_at = 0 }

abbrev old_too : Job
old_too = record old { id = 2 }

abbrev faulty : Faults
faulty = record { cleanup_fails = λ i. i == 2; delete_fails = λ i. false }

abbrev results : Disk ℕ
results = record {
  tmp = [];
  results = record { job_id = 1; image = 9 } ∷ record { job_id = 2; image = 8 } ∷ [];
}

old-IsUnique : IsUnique (old ∷ old_too ∷ [])
unfolding clashes same_entry
old-IsUnique = (refl, (refl, tt))

abbrev expired_now : Job → Bool
expired_now = is_expired (900000000000 - 24 * (60 * 60000000))

cleanup_lem_example :
    let ((deleted, bad, ids), d') =
      cleanup_expired_results faulty 900000000000 24 (old ∷ old_too ∷ []) results in
    let gone = holds_at expired_now (find 2 (old ∷ old_too ∷ [])) in
    (get_result 2 d' ≡ (if gone && true then none else get_result 2 results))
    × ((name : String)
        → load_temp_upload 2 name d'
          ≡ (if gone && false then none else load_temp_upload 2 name results))
    × (deleted
        ≡ count_where
            (λ j. expired_now j && not (faulty.delete_fails j.id || faulty.cleanup_fails j.id))
            (old ∷ old_too ∷ []))
    × (bad
        ≡ count_where
            (λ j. expired_now j && (faulty.delete_fails j.id || faulty.cleanup_fails j.id))
            (old ∷ old_too ∷ []))
    × ((i : ℕ)
        → any_of (λ n. n == i) ids ≡ (
            holds_at expired_now (find i (old ∷ old_too ∷ []))
            && (faulty.delete_fails i || faulty.cleanup_fails i)))
cleanup_lem_example = cleanup_lem faulty 900000000000 24 2 (old ∷ old_too ∷ []) results old-IsUnique

counted :
    (cleanup_expired_results faulty 900000000000 24 (old ∷ old_too ∷ []) results).0 ≡ (1, 1, 2 ∷ [])
unfolding cleanup_expired_results
counted = refl
