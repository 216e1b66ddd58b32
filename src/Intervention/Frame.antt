-- ===== src/Intervention/Frame.antt =====
-- What `coraza_process_intervention` of src/mod_coraza.c leaves alone.
use coraza_apache.Base.{◌≡◌, arith, some, Bool, Bool-cases, true, false, inl, Option-cases, inr}
use coraza_apache.Intervention.{
  process_intervention, enforce, poll, Request, log_transaction, Engine,
}
use coraza_apache.Request.{Request}
use coraza_apache.Engine.{Engine, Intervention}
use coraza_apache.Logging.{log_transaction}
use coraza_apache.Intervention.Verdict.{process_intervention_idle}

-- The request with the fields that the call may change taken from another.
abbrev pub touched : Request → Request → Request
touched x r = record r {
  ctx = record (r.ctx) {
    calls = x.ctx.calls;
    logged = x.ctx.logged;
    drop_connection = x.ctx.drop_connection;
  };
  location = x.location;
}

enforce-touched :
    (e : Engine) (early : Bool) (i : Intervention) (r : Request)
    → (enforce e early i r).1 ≡ touched (enforce e early i r).1 r
unfolding enforce log_transaction
enforce-touched e early i r = ground arith

-- With an intervention queued the call enforces it.
pub process_intervention_found :
    (e : Engine) (early : Bool) (r : Request) {i : Intervention}
    → r.attached ≡ true
    → e.queued r.ctx.calls ≡ some i
    → process_intervention e early r ≡ enforce e early i (poll e r).1
unfolding process_intervention
process_intervention_found e early r at q = cc

-- A request without a context is left as it is.
pub process_intervention_detached :
    (e : Engine) (early : Bool) (r : Request)
    → r.attached ≡ false
    → (process_intervention e early r).1 ≡ r
unfolding process_intervention
process_intervention_detached e early r at = ground arith

-- The call changes the transaction's history, the logged flag, the drop flag and the `Location`,
-- and no other part of the request.
pub process_intervention-touched :
    (e : Engine) (early : Bool) (r : Request)
    → (process_intervention e early r).1 ≡ touched (process_intervention e early r).1 r
process_intervention-touched e early r = elim (Bool-cases r.attached) [
  | inl at ↦ elim (Option-cases (e.queued r.ctx.calls)) [
    | inl idle ↦ rw (process_intervention_idle e early r at idle)
    | inr (i, q) ↦
        rw (process_intervention_found e early r at q) (enforce-touched e early i (poll e r).1)
  ]
  | inr out ↦ rw (process_intervention_detached e early r out)
]
