-- ===== src/Intervention.antt =====
-- `coraza_process_intervention`, `coraza_drop_connection` and `coraza_enforce_intervention` of
-- src/mod_coraza.c and src/mod_coraza_phase1.c.
pub mod Verdict
pub mod Location
pub mod Frame
pub mod Once
mod Examples
use coraza_apache.Base.{
  ℕ, Bool, true, false, not, ◌&&◌, ◌||◌, Option, none, some, List, [], ◌∷◌, Bytes, ℤ, pos, ltb, leb,
  ◌==◌, ltb_ℤ, eqb_ℤ, bytes_eq, codes, if◌then◌else◌,
}
use coraza_apache.Engine.{
  Engine, Intervention, poll_intervention, update_status_code, free_intervention,
}
use coraza_apache.Logging.{log_transaction, set_logged}
use coraza_apache.Request.{
  Request, ok, done, http_forbidden, http_created, http_no_content, http_internal_server_error,
  tell, trigger,
}

unfoldable pub drop_connection : Request → Request
drop_connection r = record r { status = http_forbidden; conn_close = true; aborted = true }

-- `intervention->action != NULL && strcmp(intervention->action, "drop") == 0`
pub is_drop_action : Option Bytes → Bool
is_drop_action none = false
is_drop_action (some a) = bytes_eq a (codes "drop")

abbrev pub is_drop : Intervention → Bool
is_drop i = is_drop_action i.action || eqb_ℤ i.status (pos 444)

-- The status to enforce.
pub enforced_status : Intervention → ℤ
enforced_status i =
    if is_drop i
    then http_forbidden
    else if ltb_ℤ i.status (pos 300)
        && (not (eqb_ℤ i.status http_created) && not (eqb_ℤ i.status http_no_content))
    then http_forbidden
    else i.status

-- `(unsigned char)c >= 0x20 && (unsigned char)c != 0x7f`
abbrev pub is_safe_byte : ℕ → Bool
is_safe_byte c = leb 0x20 c && not (c == 0x7f)

-- The redirect target up to its first control character.
pub safe_prefix : Bytes → Bytes
safe_prefix [] = []
safe_prefix (c ∷ cs) = if is_safe_byte c then c ∷ safe_prefix cs else []

abbrev mark_drop : Bool → Request → Request
mark_drop drop r = if drop then record r { ctx = record (r.ctx) { drop_connection = true } } else r

-- `if (early_log) { coraza_log_transaction(r); ctx->logged = 1; }`
early_logging : Engine → Bool → Request → Request
early_logging e early r = if early then set_logged (log_transaction e r).1 else r

set_location : Bool → Option Bytes → Request → Request
set_location drop none r = r
set_location drop (some loc) r = if drop then r else record r { location = some (safe_prefix loc) }

-- What follows once the engine has queued an intervention.
pub enforce : Engine → Bool → Intervention → Request → ℤ × Request
unfolding enforced_status early_logging set_location
enforce e early i r =
    let drop = is_drop i in
    let status = enforced_status i in
    let updated = (tell e (update_status_code status) (mark_drop drop r)).1 in
    let located = set_location drop i.target (early_logging e early updated) in
    (status, (tell e free_intervention located).1)

abbrev pub poll : Engine → Request → Option Intervention × Request
poll e r = (e.queued r.ctx.calls, (tell e poll_intervention r).1)

unfoldable pub process_intervention : Engine → Bool → Request → ℤ × Request
unfolding enforce
process_intervention e early r =
    if not r.attached then (http_internal_server_error, r) else elim (e.queued r.ctx.calls) [
      | none ↦ (ok, (poll e r).1)
      | some i ↦ enforce e early i (poll e r).1
    ]

-- `coraza_enforce_intervention` of src/mod_coraza_phase1.c.
unfoldable pub enforce_intervention : ℤ → Request → ℤ × Request
unfolding drop_connection
enforce_intervention status r =
    if r.ctx.drop_connection then (done, drop_connection (trigger r)) else (status, trigger r)
