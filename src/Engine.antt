-- ===== src/Engine.antt =====
-- What the module asks of libcoraza: one constructor of `Call` for each wrapper of
-- src/mod_coraza_dl.c that a request uses, and the engine itself as a parameter. The engine is any
-- function of the calls that a transaction has seen, newest first: its replies may depend on the
-- whole history, and nothing is assumed of them.
use coraza_apache.Base.{ℕ, Bool, not, Option, List, Bytes, ℤ, pos, ltb_ℤ, eqb_ℤ}

-- Lengths passed beside a buffer are the buffer's own.
pub data Call : Type 0 where
  process_connection : Bytes → ℕ → Bytes → ℕ → Call
  process_uri : Bytes → Bytes → Bytes → Call
  add_request_headers : Bytes → ℕ → ℕ → Call
  add_request_header : Bytes → Bytes → Call
  process_request_headers : Call
  is_request_body_accessible : Call
  append_request_body : Bytes → Call
  process_request_body : Call
  add_response_headers : Bytes → ℕ → ℕ → Call
  add_response_header : Bytes → Bytes → Call
  process_response_headers : ℤ → Bytes → Call
  is_response_body_accessible : Call
  is_response_body_processable : Call
  append_response_body : Bytes → Call
  process_response_body : Call
  process_logging : Call
  update_status_code : ℤ → Call
  poll_intervention : Call
  free_intervention : Call

abbrev pub History : Type 0
History = List Call

-- `coraza_intervention_t`, but for the rule's number, which is only logged; `target` is its `data`.
pub record Intervention : Type 0 where
  pub status : ℤ
  pub action : Option Bytes
  pub target : Option Bytes

-- `reply` answers a call after a history, `queued` is what `coraza_intervention` returns.
pub record Engine : Type 0 where
  pub reply : History → Call → ℤ
  pub queued : History → Option Intervention

-- `CORAZA_CALL_FAILED`, for the submit calls.
abbrev pub call_failed : ℤ → Bool
call_failed rc = not (eqb_ℤ rc (pos 0))

-- `coraza_process_failed`, for the `coraza_process_*` calls.
abbrev pub process_failed : ℤ → Bool
process_failed rc = ltb_ℤ rc (pos 0)
