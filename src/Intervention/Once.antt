-- ===== src/Intervention/Once.antt =====
-- Phase 5 runs at most once: `coraza_log_transaction` of src/mod_coraza_log.c, called by the log hook
-- and early by `coraza_process_intervention` of src/mod_coraza.c.
use coraza_apache.Base.{
  ◌≡◌, false, inl, inr, Bool-cases, [], ◌∷◌, ◌≤◌, ◌+◌, arith, ℕ, Bool, ◌∙◌, sym, true, Option,
  Option-cases, Bytes, some, none, refl,
}
use coraza_apache.Engine.{
  Engine, History, process_logging, Intervention, update_status_code, free_intervention,
}
use coraza_apache.Request.{Request, tell}
use coraza_apache.Logging.{log_transaction, is_enabled}
use coraza_apache.Intervention.{
  process_intervention, set_location, enforce, early_logging, mark_drop, is_drop, poll, tell,
  enforced_status,
}
use coraza_apache.Intervention.Frame.{process_intervention_detached, process_intervention_found}
use coraza_apache.Intervention.Verdict.{process_intervention_idle}

-- How often the engine was told to log.
abbrev pub logs : History → ℕ
logs [] = 0
logs (process_logging ∷ h) = 1 + logs h
logs (_ ∷ h) = logs h

pub record LoggedOnce (r : Request) : Type 0 where
  pub at_most : logs r.ctx.calls ≤ 1
  pub not_yet : r.ctx.logged ≡ false → logs r.ctx.calls ≡ 0

pub log_transaction-LoggedOnce :
    (e : Engine) (r : Request) → LoggedOnce r → LoggedOnce (log_transaction e r).1
unfolding log_transaction
log_transaction-LoggedOnce e r h = elim (Bool-cases (is_enabled r.dir_conf)) [
  | inr off ↦ rw off h
  | inl on ↦ elim (Bool-cases r.attached) [
    | inr out ↦ simp (on, out) h
    | inl at ↦ elim (Bool-cases r.ctx.logged) [
      | inl before ↦ simp (on, at, before) h
      | inr first ↦
          simp (on, at, first)
            (record {
              at_most = omega (arith, h.not_yet first);
              not_yet = λ t. absurd (ground arith);
            })
    ]
  ]
]

-- A request that differs in nothing that matters here.
LoggedOnce-next :
    (r s : Request)
    → logs s.ctx.calls ≡ logs r.ctx.calls
    → s.ctx.logged ≡ r.ctx.logged
    → LoggedOnce r
    → LoggedOnce s
LoggedOnce-next r s c l h = record {
  at_most = rw c h.at_most;
  not_yet = λ t. c ∙ h.not_yet (sym l ∙ t);
}

early_logging-LoggedOnce :
    (e : Engine) (early : Bool) (r : Request) → LoggedOnce r → LoggedOnce (early_logging e early r)
unfolding early_logging
early_logging-LoggedOnce e true r h = record {
  at_most = (log_transaction-LoggedOnce e r h).at_most;
  not_yet = λ t. absurd (ground arith);
}
early_logging-LoggedOnce e false r h = h

set_location-LoggedOnce :
    (drop : Bool) (target : Option Bytes) (r : Request)
    → LoggedOnce r
    → LoggedOnce (set_location drop target r)
unfolding set_location
set_location-LoggedOnce drop none r h = h
set_location-LoggedOnce true (some loc) r h = h
set_location-LoggedOnce false (some loc) r h =
    LoggedOnce-next r (set_location false (some loc) r) refl refl h

mark_drop-LoggedOnce : (drop : Bool) (r : Request) → LoggedOnce r → LoggedOnce (mark_drop drop r)
mark_drop-LoggedOnce true r h = record { at_most = h.at_most; not_yet = h.not_yet }
mark_drop-LoggedOnce false r h = h

enforce-LoggedOnce :
    (e : Engine) (early : Bool) (i : Intervention) (r : Request)
    → LoggedOnce r
    → LoggedOnce (enforce e early i r).1
unfolding enforce
enforce-LoggedOnce e early i r h =
    let marked = mark_drop (is_drop i) r in
    let updated = (tell e (update_status_code (enforced_status i)) marked).1 in
    let early_logged = early_logging e early updated in
    let located = set_location (is_drop i) i.target early_logged in
    LoggedOnce-next located (tell e free_intervention located).1 refl refl (
      set_location-LoggedOnce (is_drop i) i.target early_logged (
        early_logging-LoggedOnce e early updated
          (LoggedOnce-next marked updated refl refl (mark_drop-LoggedOnce (is_drop i) r h))))

-- Processing interventions and the log hook tell the engine to log a transaction at most once: the
-- flag `logged` is down only while it has not been told, and both keep this so.
pub process_intervention-LoggedOnce :
    (e : Engine) (early : Bool) (r : Request)
    → LoggedOnce r
    → LoggedOnce (process_intervention e early r).1 × LoggedOnce (log_transaction e r).1
process_intervention-LoggedOnce e early r h = (intervened, log_transaction-LoggedOnce e r h)
  where
    intervened : LoggedOnce (process_intervention e early r).1
    intervened = elim (Bool-cases r.attached) [
      | inr out ↦ rw (process_intervention_detached e early r out) h
      | inl at ↦ elim (Option-cases (e.queued r.ctx.calls)) [
        | inl idle ↦
            rw (process_intervention_idle e early r at idle)
              (LoggedOnce-next r (poll e r).1 refl refl h)
        | inr (i, q) ↦
            rw (process_intervention_found e early r at q) (
              enforce-LoggedOnce e early i (poll e r).1
                (LoggedOnce-next r (poll e r).1 refl refl h))
      ]
    ]
