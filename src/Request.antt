-- ===== src/Request.antt =====
-- The state that a request carries: `coraza_request_ctx_t` of src/mod_coraza.h, the fields of the
-- `request_rec` and of its connection that the module writes, and what it has handed to httpd.
use coraza_apache.Base.{ℕ, Bool, true, Option, List, ◌∷◌, Bytes, ℤ, pos, negsuc, [], none, false}
use coraza_apache.Config.{DirConf}
use coraza_apache.Engine.{Call, History, Engine}

-- A bucket, by what reading it gives: bytes in memory or in a file, the end of the stream, another
-- metadata bucket, or a read error.
pub data Bucket : Type 0 where
  heap : Bytes → Bucket
  file : Bytes → Bucket
  eos : Bucket
  metadata : Bucket
  broken : Bucket

abbrev pub Brigade : Type 0
Brigade = List Bucket

-- `transaction` is the handle; `calls` is what the transaction behind it has been told.
pub record Ctx : Type 0 where
  pub transaction : ℕ
  pub calls : History
  pub pending_brigade : Option Brigade
  pub pending_len : ℕ
  pub headers_delayed : Bool
  pub phase2_done : Bool
  pub saved_body : Option Brigade
  pub phase3_done : Bool
  pub phase4_done : Bool
  pub logged : Bool
  pub intervention_triggered : Bool
  pub response_body_processable : Bool
  pub drop_connection : Bool

-- The context as `coraza_create_ctx` leaves it.
abbrev pub new_ctx : ℕ → Ctx
new_ctx handle = record {
  transaction = handle;
  calls = [];
  pending_brigade = none;
  pending_len = 0;
  headers_delayed = false;
  phase2_done = false;
  saved_body = none;
  phase3_done = false;
  phase4_done = false;
  logged = false;
  intervention_triggered = false;
  response_body_processable = false;
  drop_connection = false;
}

-- `attached`: the request's module config points at `ctx`. `died` lists the calls of `ap_die` with
-- the request's status at that time, newest first. `sent` is what went to the next output filter.
pub record Request : Type 0 where
  pub ctx : Ctx
  pub attached : Bool
  pub dir_conf : Option DirConf
  pub status : ℤ
  pub conn_close : Bool
  pub aborted : Bool
  pub location : Option Bytes
  pub read_length_reset : Bool
  pub in_filter : Bool
  pub out_filter : Bool
  pub sent : Brigade
  pub died : List (ℤ × ℤ)

-- `OK`, `DECLINED` and `DONE` of httpd.h, and the statuses that the source names.
abbrev pub ok : ℤ
ok = pos 0

abbrev pub declined : ℤ
declined = negsuc 0

abbrev pub done : ℤ
done = negsuc 1

abbrev pub http_ok : ℤ
http_ok = pos 200

abbrev pub http_created : ℤ
http_created = pos 201

abbrev pub http_no_content : ℤ
http_no_content = pos 204

abbrev pub http_bad_request : ℤ
http_bad_request = pos 400

abbrev pub http_forbidden : ℤ
http_forbidden = pos 403

abbrev pub http_internal_server_error : ℤ
http_internal_server_error = pos 500

-- A wrapper of src/mod_coraza_dl.c: forward the call, return the engine's answer.
abbrev pub tell : Engine → Call → Request → ℤ × Request
tell e c r = (e.reply r.ctx.calls c, record r { ctx = record (r.ctx) { calls = c ∷ r.ctx.calls } })

-- `ctx->intervention_triggered = 1`
abbrev pub trigger : Request → Request
trigger r = record r { ctx = record (r.ctx) { intervention_triggered = true } }
