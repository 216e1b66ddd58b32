-- ===== src/Steps.antt =====
-- The two steps that every phase of `coraza_post_read_request` in src/mod_coraza_phase1.c repeats:
-- an engine call whose failure fails the request closed, and the enforcement of an intervention.
pub mod Clean
pub mod Passing
use coraza_apache.Base.{ℕ, Bool, true, false, ℤ, pos, ltb_ℤ, if◌then◌else◌}
use coraza_apache.Engine.{Call, Engine, call_failed, process_failed}
use coraza_apache.Flow.{Flow, next, return, Action}
use coraza_apache.Intervention.{process_intervention, enforce_intervention}
use coraza_apache.Request.{Request, http_internal_server_error, tell, trigger}

-- `ctx->intervention_triggered = 1; return HTTP_INTERNAL_SERVER_ERROR;`
abbrev pub fail_closed : {A : Type 0} → Action A
fail_closed r = (return http_internal_server_error, trigger r)

-- `if (coraza_process_failed(call)) { fail closed }`
unfoldable pub process : Engine → Call → Action (Unit {0})
process e c r =
    let (rc, r') = tell e c r in if process_failed rc then fail_closed r' else (next tt, r')

-- `if (CORAZA_CALL_FAILED(call)) { fail closed }`
unfoldable pub submit : Engine → Call → Action (Unit {0})
submit e c r = let (rc, r') = tell e c r in if call_failed rc then fail_closed r' else (next tt, r')

-- `return coraza_enforce_intervention(r, ctx, ret);`
abbrev pub enforce_return : ℤ → Request → Flow (Unit {0}) × Request
enforce_return ret r = let (status, r') = enforce_intervention ret r in (return status, r')

-- `ret = coraza_process_intervention(.., r, 1); if (ret > 0) return coraza_enforce_intervention(..);`
unfoldable pub intervene : Engine → Action (Unit {0})
intervene e r =
    let (ret, r') = process_intervention e true r in
    if ltb_ℤ (pos 0) ret then enforce_return ret r' else (next tt, r')
