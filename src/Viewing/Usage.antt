-- ===== src/Viewing/Usage.antt =====
-- The usage that is shown is the usage that admits.
use ai_virtual_try_on.Prelude.{
  ℕ, ◌-◌, ◌≡◌, refl, String, Bool, false, not, ◌&&◌, ◌||◌, Option, none, some, List, ltb, ◌==◌,
  arith, if◌then◌else◌,
}
use ai_virtual_try_on.Errors.{user_facing}
use ai_virtual_try_on.Errors.Exec.{ok, err}
use ai_virtual_try_on.Job.{Job}
use ai_virtual_try_on.Accounts.{User, find_user}
use ai_virtual_try_on.Quota.{
  QuotaStatus, is_below, is_exceeded, remaining, remaining_today, remaining_this_month,
  is_at_capacity, quota_exceeded_message,
}
use ai_virtual_try_on.Administration.Listing.{to_user_row}
use ai_virtual_try_on.Submission.{Config, Caller, status_for, check_admission, capacity_exceeded}
use ai_virtual_try_on.Viewing.{UsageStatusResponse, get_my_usage, get_user}

abbrev pub is_spent : Option ℕ → Bool
is_spent none = false
is_spent (some left) = left == 0

abbrev pub shows_none_left : UsageStatusResponse → Bool
shows_none_left u = is_spent u.left_today || is_spent u.left_this_month

spent-below : (limit used : ℕ) → (limit - used == 0) ≡ not (ltb used limit)
spent-below limit used = ground arith

parts :
    (day month : Option ℕ) (d m : ℕ)
    → not (is_below day d && is_below month m)
      ≡ (is_spent (remaining day d) || is_spent (remaining month m))
parts none none d m = refl
parts none (some l) d m = rw (spent-below l m) refl
parts (some k) none d m = rw (spent-below k d) (ground arith)
parts (some k) (some l) d m = rw (spent-below k d) (rw (spent-below l m) (ground arith))

exceeded_spent :
    (q : QuotaStatus)
    → is_exceeded q ≡ (is_spent (remaining_today q) || is_spent (remaining_this_month q))
unfolding is_exceeded
exceeded_spent q = parts q.limit_per_day q.limit_per_month q.used_today q.used_this_month

abbrev pub caller_of : User → String → Caller
caller_of user client_ip = record { user = some (user.id, user.plan); client_ip = client_ip }

-- The check that a submission which starts a job passes first refuses for the quota exactly if the usage that the caller is shown has none left,
-- and else for the capacity exactly if that is used up; and an administrator is shown the same usage
-- for an account as its owner.
pub usage_lem :
    (config : Config) (user : User) (client_ip : String) (now : ℕ) (users : List User)
    (jobs : List Job)
    → find_user user.id users ≡ some user
    → (caller : Caller)
    → (check_admission config caller now jobs ≡ (
        if shows_none_left (get_my_usage config caller now jobs)
        then err (user_facing (quota_exceeded_message (status_for config caller now jobs)) 429)
        else if is_at_capacity config.max_active_tryon_jobs jobs
        then err capacity_exceeded
        else ok tt))
      × (get_user config user.id now users jobs
          ≡ ok (to_user_row user, get_my_usage config (caller_of user client_ip) now jobs))
unfolding check_admission get_my_usage get_user
usage_lem config user client_ip now users jobs found caller =
    (rw (exceeded_spent (status_for config caller now jobs)) refl, ground (arith, found))
