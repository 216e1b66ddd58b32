-- ===== src/Steps/Clean.antt =====
-- Histories in which every answer of the engine was respected, and what the repeated steps of
-- `coraza_post_read_request` in src/mod_coraza_phase1.c do to them.
use coraza_apache.Base.{true, false, none, List, [], ◌∷◌, ◌++◌, Bytes, ◌≡◌, ℤ}
use coraza_apache.Engine.{
  Call, process_connection, process_uri, add_request_header, process_request_headers,
  append_request_body, process_request_body, add_response_header, process_response_headers,
  append_response_body, process_response_body, update_status_code, poll_intervention,
  free_intervention, History, Engine, call_failed, process_failed,
}
use coraza_apache.Request.{Request, http_internal_server_error, http_forbidden, done}
use coraza_apache.Intervention.Verdict.{Refuses}

-- No error went unnoticed and no intervention was queued when the engine was asked. The answer to a
-- batch of headers is left open, since a rejected one is no error; a status is reported back and an
-- intervention freed only when one is being enforced.
abbrev pub Accepted : Engine → Call → History → Type 0
Accepted e (add_request_header n v) h = call_failed (e.reply h (add_request_header n v)) ≡ false
Accepted e (add_response_header n v) h = call_failed (e.reply h (add_response_header n v)) ≡ false
Accepted e (append_request_body b) h = call_failed (e.reply h (append_request_body b)) ≡ false
Accepted e (append_response_body b) h = call_failed (e.reply h (append_response_body b)) ≡ false
Accepted e (process_connection a p b q) h =
    process_failed (e.reply h (process_connection a p b q)) ≡ false
Accepted e (process_uri u m v) h = process_failed (e.reply h (process_uri u m v)) ≡ false
Accepted e process_request_headers h = process_failed (e.reply h process_request_headers) ≡ false
Accepted e process_request_body h = process_failed (e.reply h process_request_body) ≡ false
Accepted e (process_response_headers s v) h =
    process_failed (e.reply h (process_response_headers s v)) ≡ false
Accepted e process_response_body h = process_failed (e.reply h process_response_body) ≡ false
Accepted e poll_intervention h = e.queued h ≡ none
Accepted e (update_status_code s) h = ⊥
Accepted e free_intervention h = ⊥
Accepted e _ h = Unit

abbrev pub IsClean : Engine → History → Type 0
IsClean e [] = Unit
IsClean e (c ∷ h) = Accepted e c h × IsClean e h

-- The phases that a history has gone through, oldest first.
pub data Phase : Type 0 where
  connection uri request_headers request_body : Phase

abbrev pub phases : History → List Phase
phases [] = []
phases (process_connection a p b q ∷ h) = phases h ++ connection ∷ []
phases (process_uri u m v ∷ h) = phases h ++ uri ∷ []
phases (process_request_headers ∷ h) = phases h ++ request_headers ∷ []
phases (process_request_body ∷ h) = phases h ++ request_body ∷ []
phases (_ ∷ h) = phases h

-- The request body that the engine was handed.
abbrev pub told_body : History → Bytes
told_body [] = []
told_body (append_request_body b ∷ h) = told_body h ++ b
told_body (_ ∷ h) = told_body h

-- The request after a step that only talked to the engine.
abbrev pub with_calls : History → Request → Request
with_calls h r = record r { ctx = record (r.ctx) { calls = h } }

-- A step that went on: it only talked to the engine, every answer was respected, and it went
-- through the phases `ps` and handed over the body bytes `b`.
pub record Went (e : Engine) (ps : List Phase) (b : Bytes) (r r' : Request) : Type 0 where
  pub frame : r' ≡ with_calls r'.ctx.calls r
  pub clean : IsClean e r.ctx.calls → IsClean e r'.ctx.calls
  pub phased : phases r'.ctx.calls ≡ phases r.ctx.calls ++ ps
  pub told : told_body r'.ctx.calls ≡ told_body r.ctx.calls ++ b

-- How a request that is not let through ends: with the intervention flag raised, and with status
-- 500, the status of a refusal, or a connection that is closed without a response.
pub data Ending (s : ℤ) (r : Request) : Type 0 where
  failed_closed : s ≡ http_internal_server_error → Ending s r
  refused : Refuses s → Ending s r
  connection_dropped :
      s ≡ done → r.aborted ≡ true → r.conn_close ≡ true → r.status ≡ http_forbidden → Ending s r

abbrev pub Refused : ℤ → Request → Type 0
Refused s r = (r.ctx.intervention_triggered ≡ true) × Ending s r
