-- ===== src/Administration/Plans.antt =====
-- What an edit of a plan does, down to the jobs that are submitted under it.
use mathlib.Core.Option
use ai_virtual_try_on.Prelude.{ℕ, ◌≡◌, String, arith, inl, inr, Option-cases}
use ai_virtual_try_on.Errors.{Error}
use ai_virtual_try_on.Errors.Exec.{err}
use ai_virtual_try_on.Accounts.{User}
use ai_virtual_try_on.Quota.{find_plan}
use ai_virtual_try_on.Administration.{PlanLimits, Office, store_limits, update_plan}

module _ (low high : ℕ) (name : String) (limits : PlanLimits) (admin : User) (id now : ℕ)
    (o : Office) where
  -- A refused edit changes nothing, the audit log included.
  pub update_plan_refused :
      (e : Error)
      → (update_plan low high name limits admin id now o).0 ≡ err e
      → (update_plan low high name limits admin id now o).1 ≡ o
  unfolding update_plan store_limits
  update_plan_refused e h = elim (Option-cases (find_plan name o.plans)) [
    | inl missing ↦ ground arith
    | inr (before, e') ↦ ground arith
  ]
