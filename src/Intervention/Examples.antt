-- ===== src/Intervention/Examples.antt =====
-- Interventions on a fresh request.
use coraza_apache.Base.{◌≡◌, refl, some, none, codes, pos, true, ◌↔◌, arith}
use coraza_apache.Intervention.{
  process_intervention, safe_prefix, Intervention, ok, http_forbidden, log_transaction,
}
use coraza_apache.Engine.{Intervention}
use coraza_apache.Samples.{strict_engine, quiet_engine, new_request}
use coraza_apache.Intervention.Location.{Cut, safe_prefix-Cut}
use coraza_apache.Intervention.Verdict.{process_intervention_iff}
use coraza_apache.Request.{http_forbidden, ok}
use coraza_apache.Intervention.Once.{LoggedOnce, process_intervention-LoggedOnce}
use coraza_apache.Logging.{log_transaction}

-- A bare `drop`, reported with status 0.
abbrev bare_drop : Intervention
bare_drop = record { status = pos 0; action = some (codes "drop"); target = none }

process_intervention_iff_example :
    ((process_intervention quiet_engine true new_request).0 ≡ ok)
    ↔ (quiet_engine.queued new_request.ctx.calls ≡ none)
process_intervention_iff_example = process_intervention_iff quiet_engine true new_request refl

redirect_target : safe_prefix (codes "/in\nX: y") ≡ codes "/in"
unfolding safe_prefix
redirect_target = refl

safe_prefix-Cut_example : Cut (codes "/in\nX: y") (safe_prefix (codes "/in\nX: y"))
safe_prefix-Cut_example = safe_prefix-Cut (codes "/in\nX: y")

new_request-LoggedOnce : LoggedOnce new_request
new_request-LoggedOnce = record { at_most = omega arith; not_yet = λ _. refl }

process_intervention-LoggedOnce_example :
    LoggedOnce (process_intervention (strict_engine bare_drop) true new_request).1
    × LoggedOnce (log_transaction (strict_engine bare_drop) new_request).1
process_intervention-LoggedOnce_example =
    process_intervention-LoggedOnce (strict_engine bare_drop) true new_request
      new_request-LoggedOnce
