-- ===== src/Obeys/Steps.antt =====
-- Single calls of the engine, and `coraza_process_intervention` of src/mod_coraza.c behind them.
use coraza_apache.Base.{
  ◌≡◌, refl, false, pos, ◌∷◌, inl, inr, Bool, Option-cases, ltb_ℤ, none, ◌∙◌, arith,
}
use coraza_apache.Engine.{Call, Engine, poll_intervention}
use coraza_apache.Intervention.{process_intervention}
use coraza_apache.Intervention.Verdict.{
  Refuses, process_intervention_idle, process_intervention_enforces, enforced_status-Refuses,
}
use coraza_apache.Obeys.{Settled, Speaking, may_intervene, is_pending, Respected, Polled}
use coraza_apache.Request.{Request, tell}
use coraza_apache.Steps.Passing.{Refuses-pos}

pub Settled-Speaking : {e : Engine} {r : Request} → Settled e r → Speaking e r
Settled-Speaking h = record { attached = h.attached; heard = h.heard }

-- A call that may raise an intervention.
pub tell-Speaking :
    {e : Engine} {r : Request} (c : Call)
    → Respected e c r.ctx.calls
    → Settled e r
    → Speaking e (tell e c r).1
tell-Speaking c good h = record {
  attached = h.attached;
  heard = (good, λ _. h.none_pending, h.heard);
}

-- A call that may not.
pub tell_plain-Speaking :
    {e : Engine} {r : Request} (c : Call)
    → Respected e c r.ctx.calls
    → may_intervene c ≡ false
    → Speaking e r
    → Speaking e (tell e c r).1
tell_plain-Speaking c good plain h = record {
  attached = h.attached;
  heard = (good, λ t. absurd (ground arith), h.heard);
}

pub tell_plain-Settled :
    {e : Engine} {r : Request} (c : Call)
    → Respected e c r.ctx.calls
    → may_intervene c ≡ false
    → is_pending (c ∷ r.ctx.calls) ≡ is_pending r.ctx.calls
    → Settled e r
    → Settled e (tell e c r).1
tell_plain-Settled c good plain same h = record {
  attached = h.attached;
  heard = (good, λ t. absurd (ground arith), h.heard);
  none_pending = same ∙ h.none_pending;
}

tell_poll-Settled :
    {e : Engine} {r : Request}
    → e.queued r.ctx.calls ≡ none
    → Speaking e r
    → Settled e (tell e poll_intervention r).1
tell_poll-Settled idle h = record {
  attached = h.attached;
  heard = (idle, λ t. absurd (ground arith), h.heard);
  none_pending = refl;
}

-- Where the intervention's processing finds nothing to enforce, nothing is outstanding.
pub process_intervention-Settled :
    (e : Engine) (early : Bool) (r : Request)
    → Speaking e r
    → ltb_ℤ (pos 0) (process_intervention e early r).0 ≡ false
    → Settled e (process_intervention e early r).1
process_intervention-Settled e early r h calm = elim (Option-cases (e.queued r.ctx.calls)) [
  | inl idle ↦ rw (process_intervention_idle e early r h.attached idle) (tell_poll-Settled idle h)
  | inr (i, found) ↦
      let P = process_intervention e early r in
      let refuses : Refuses P.0 =
        rw (process_intervention_enforces e early r i h.attached found).0
          (enforced_status-Refuses i).0 in
      absurd (grind (arith, Refuses-pos P.0 refuses))
]

-- And the last call was the poll.
pub process_intervention-Polled :
    (e : Engine) (early : Bool) (r : Request)
    → Speaking e r
    → ltb_ℤ (pos 0) (process_intervention e early r).0 ≡ false
    → Polled (process_intervention e early r).1
process_intervention-Polled e early r h calm = elim (Option-cases (e.queued r.ctx.calls)) [
  | inl idle ↦
      rw (process_intervention_idle e early r h.attached idle)
        (record { before = r.ctx.calls; last = refl })
  | inr (i, found) ↦
      let P = process_intervention e early r in
      let refuses : Refuses P.0 =
        rw (process_intervention_enforces e early r i h.attached found).0
          (enforced_status-Refuses i).0 in
      absurd (grind (arith, Refuses-pos P.0 refuses))
]
