-- ===== src/Obeys.antt =====
-- Histories in which the engine is obeyed: no answer of it was an error, and after each call that
-- may raise an intervention it was asked for one, and had none, before the next such call. Shared by
-- `coraza_post_read_request` of src/mod_coraza_phase1.c and `coraza_output_filter` of
-- src/mod_coraza_filter_out.c.
pub mod Steps
pub mod Flow
use coraza_apache.Base.{◌≡◌, Bool, true, false, ◌||◌, [], ◌∷◌, if◌then◌else◌, List, ◌⊎◌, some}
use coraza_apache.Engine.{
  Call, Engine, History, process_connection, process_uri, process_request_headers,
  append_request_body, process_request_body, process_response_headers, append_response_body,
  process_response_body, poll_intervention, add_request_header, add_request_headers, call_failed,
}
use coraza_apache.Steps.Clean.{Accepted}
use coraza_apache.Request.{Request}
use coraza_apache.Headers.{HeaderPair, pack_headers}
use coraza_apache.Headers.RoundTrip.{unpack_headers}

-- May the call raise an intervention?
abbrev pub may_intervene : Call → Bool
may_intervene (process_connection a p b q) = true
may_intervene (process_uri u m v) = true
may_intervene process_request_headers = true
may_intervene (append_request_body b) = true
may_intervene process_request_body = true
may_intervene (process_response_headers s v) = true
may_intervene (append_response_body b) = true
may_intervene process_response_body = true
may_intervene _ = false

abbrev pub is_poll : Call → Bool
is_poll poll_intervention = true
is_poll _ = false

-- Is an answer still to be asked for?
abbrev pub is_pending : History → Bool
is_pending [] = false
is_pending (c ∷ h) = if is_poll c then false else may_intervene c || is_pending h

-- The calls for single request headers at the end of the history, with `told` behind them: if they
-- follow a rejected batch, they are the headers that the batch packs.
abbrev pub Redone : Engine → History → List HeaderPair → Type 0
Redone e (add_request_header n v ∷ h) told = Redone e h (record { name = n; value = v } ∷ told)
Redone e (add_request_headers b n k ∷ h) told =
    (call_failed (e.reply h (add_request_headers b n k)) ≡ false) ⊎ (unpack_headers k b ≡ some told)
Redone e _ told = Unit

-- An answer that was respected: it was accepted, and before the headers are inspected those of a
-- rejected batch were submitted one by one.
abbrev pub Respected : Engine → Call → History → Type 0
Respected e process_request_headers h = Accepted e process_request_headers h × Redone e h []
Respected e c h = Accepted e c h

abbrev pub Heard : Engine → History → Type 0
Heard e [] = Unit
Heard e (c ∷ h) = Respected e c h × (may_intervene c ≡ true → is_pending h ≡ false) × Heard e h

-- A request on which the engine is obeyed so far; the last call's verdict may be outstanding.
pub record Speaking (e : Engine) (r : Request) : Type 0 where
  pub attached : r.attached ≡ true
  pub heard : Heard e r.ctx.calls

-- The same with no verdict outstanding.
pub record Settled (e : Engine) (r : Request) : Type 0 where
  pub attached : r.attached ≡ true
  pub heard : Heard e r.ctx.calls
  pub none_pending : is_pending r.ctx.calls ≡ false

-- The last call asked for an intervention.
pub record Polled (r : Request) : Type 0 where
  pub before : History
  pub last : r.ctx.calls ≡ poll_intervention ∷ before
