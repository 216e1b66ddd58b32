-- ===== src/Intervention/Verdict.antt =====
-- What `coraza_process_intervention` of src/mod_coraza.c decides, on every branch.
use coraza_apache.Base.{
  Bool, true, false, none, ◌≡◌, ◌⊎◌, ℤ, pos, ◌≤ℤ◌, arith, ◌↔◌, some, refl, if◌then◌else◌, ◌∷◌,
}
use coraza_apache.Engine.{Engine, Intervention, free_intervention, update_status_code}
use coraza_apache.Intervention.{
  is_drop, enforced_status, process_intervention, poll, enforce, log_transaction,
}
use coraza_apache.Request.{Request, ok, http_forbidden}
use coraza_apache.Logging.{log_transaction}

-- A refusal: the status of an HTTP response that does not look like a page served, or one of the
-- two empty successes that a rule may ask for by name.
abbrev pub Refuses : ℤ → Type 0
Refuses s = (s ≡ pos 201) ⊎ (s ≡ pos 204) ⊎ (pos 300 ≤ℤ s)

pub enforced_status-Refuses :
    (i : Intervention)
    → Refuses (enforced_status i)
      × (is_drop i ≡ true → enforced_status i ≡ http_forbidden)
      × (is_drop i ≡ false → Refuses i.status → enforced_status i ≡ i.status)
      × (¬ Refuses i.status → enforced_status i ≡ http_forbidden)
unfolding enforced_status
enforced_status-Refuses i = (ground arith, ground arith, ground arith, ground arith)

enforce_status :
    (e : Engine) (early : Bool) (i : Intervention) (r : Request)
    → (enforce e early i r).0 ≡ enforced_status i
unfolding enforce
enforce_status e early i r = refl

-- What the engine is told when an intervention is enforced without logging, latest first.
pub enforce-calls :
    (e : Engine) (i : Intervention) (r : Request)
    → (enforce e false i r).1.ctx.calls
      ≡ free_intervention ∷ update_status_code (enforced_status i) ∷ r.ctx.calls
unfolding enforce
enforce-calls e i r = ground arith

enforce-drop_connection :
    (e : Engine) (early : Bool) (i : Intervention) (r : Request)
    → (enforce e early i r).1.ctx.drop_connection
      ≡ (if is_drop i then true else r.ctx.drop_connection)
unfolding enforce log_transaction
enforce-drop_connection e early i r = ground arith

-- On a request that has a context, after an intervention was found the call returns the status to
-- enforce, with the drop flag raised for a drop and left alone for any other.
pub process_intervention_enforces :
    (e : Engine) (early : Bool) (r : Request) (i : Intervention)
    → r.attached ≡ true
    → e.queued r.ctx.calls ≡ some i
    → let (ret, r') = process_intervention e early r in
      (ret ≡ enforced_status i)
      × (is_drop i ≡ true → r'.ctx.drop_connection ≡ true)
      × (is_drop i ≡ false → r'.ctx.drop_connection ≡ r.ctx.drop_connection)
unfolding process_intervention
process_intervention_enforces e early r i at q =
    ground
      (arith, enforce_status e early i (poll e r).1, enforce-drop_connection e early i (poll e r).1)

-- On a request that has a context, the call returns `OK` exactly when no intervention is queued.
pub process_intervention_iff :
    (e : Engine) (early : Bool) (r : Request)
    → r.attached ≡ true
    → ((process_intervention e early r).0 ≡ ok) ↔ (e.queued r.ctx.calls ≡ none)
unfolding process_intervention
process_intervention_iff e early r at = ground (arith)

-- With nothing queued the call only asks.
pub process_intervention_idle :
    (e : Engine) (early : Bool) (r : Request)
    → r.attached ≡ true
    → e.queued r.ctx.calls ≡ none
    → process_intervention e early r ≡ (ok, (poll e r).1)
unfolding process_intervention
process_intervention_idle e early r at q = ground arith
