-- ===== src/Response.antt =====
-- What the output filter of src/mod_coraza_filter_out.c reads of a response, how it answers, and
-- its helpers: `coraza_is_sse_response`, `coraza_die`, the two fail-closed exits and the drop.
mod Examples
use coraza_apache.Base.{
  ℕ, ◌+◌, ◌-◌, Bool, true, false, not, ◌&&◌, ◌||◌, Option, none, some, List, [], ◌∷◌, ◌++◌, Bytes,
  ℤ, pos, ltb, leb, ◌==◌, codes, bytes_eq, take, drop, length, map, if◌then◌else◌,
}
use coraza_apache.Request.{Request, Brigade, http_ok, http_internal_server_error, trigger}
use coraza_apache.Intervention.{drop_connection}
use coraza_apache.Submit.{TableEntry}

-- `save_ok`: may `ap_save_brigade` set the buckets aside.
pub record Response : Type 0 where
  pub headers_out : List TableEntry
  pub err_headers_out : List TableEntry
  pub content_type : Option Bytes
  pub protocol : Option Bytes
  pub header_only : Bool
  pub is_subrequest : Bool
  pub save_ok : Bool

-- What the filter returns: the next filter's status, `APR_SUCCESS`, `AP_FILTER_ERROR`,
-- `APR_EGENERAL` or `APR_ECONNABORTED`.
pub data FilterStatus : Type 0 where
  passed success filter_error general_error conn_aborted : FilterStatus

-- `strncasecmp` folds ASCII letters.
abbrev to_lower : ℕ → ℕ
to_lower c = if leb b'A' c && leb c b'Z' then c + 32 else c

abbrev event_stream : Bytes
event_stream = codes "text/event-stream"

-- The loop behind the media type: blanks, then a `;` or the end.
pub is_parameter_list : Bytes → Bool
is_parameter_list [] = true
is_parameter_list (c ∷ cs) = if c == b' ' || c == b'\t' then is_parameter_list cs else c == b';'

pub is_sse_type : Bytes → Bool
unfolding is_parameter_list
is_sse_type ct =
    if ltb (length ct) (length event_stream)
      || not (bytes_eq (map to_lower (take (length event_stream) ct)) event_stream)
    then false
    else is_parameter_list (drop (length event_stream) ct)

unfoldable pub is_sse_response : Option Bytes → Bool
unfolding is_sse_type
is_sse_response none = false
is_sse_response (some ct) = is_sse_type ct

-- `coraza_die`: the status is cleared before `ap_die` sees the request.
unfoldable pub die : ℤ → Request → Request
die status r =
    let cleared = record r { status = http_ok } in
    record cleared { died = (cleared.status, status) ∷ cleared.died }

abbrev pub remove_filter : Request → Request
remove_filter r = record r { out_filter = false }

-- `ctx->headers_delayed = 0` with the pending brigade cleaned up.
abbrev pub discard_pending : Request → Request
discard_pending r = record r {
  ctx = record (r.ctx) { headers_delayed = false; pending_brigade = some [] };
}

-- `ap_pass_brigade`
abbrev pub pass : Brigade → Request → FilterStatus × Request
pass bb r = (passed, record r { sent = r.sent ++ bb })

unfoldable pub fail_closed_response : Request → FilterStatus × Request
unfolding die
fail_closed_response r =
    let failed = record (remove_filter (trigger r)) { status = http_internal_server_error } in
    if r.ctx.headers_delayed
    then (filter_error, die http_internal_server_error (discard_pending failed))
    else (general_error, failed)

unfoldable pub fail_closed_headers : Request → FilterStatus × Request
unfolding die
fail_closed_headers r = (filter_error, die http_internal_server_error (remove_filter (trigger r)))

unfoldable pub drop_response : Request → FilterStatus × Request
unfolding drop_connection
drop_response r =
    let stepped = remove_filter (trigger r) in
    (
      conn_aborted,
      drop_connection (if r.ctx.headers_delayed then discard_pending stepped else stepped),
    )

-- An intervention with nothing sent yet: a drop, or a clean error page.
unfoldable pub refuse_clean : ℤ → Request → FilterStatus × Request
unfolding die drop_response
refuse_clean ret r =
    if r.ctx.drop_connection
    then drop_response r
    else (filter_error, die ret (remove_filter (trigger r)))

-- An intervention in phase 4: a drop, a clean error page while the headers are delayed, or the end
-- of a response that is already on the wire.
unfoldable pub refuse_response : ℤ → Request → FilterStatus × Request
unfolding die drop_response
refuse_response ret r =
    let stepped = remove_filter (trigger r) in
    if r.ctx.drop_connection
    then drop_response r
    else if r.ctx.headers_delayed
    then (filter_error, die ret (discard_pending stepped))
    else (general_error, record stepped { status = ret })
