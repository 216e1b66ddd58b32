-- ===== src/Output.antt =====
-- The output filter, `coraza_output_filter` of src/mod_coraza_filter_out.c: phases 3 and 4 and the
-- header delay. Reading a bucket gives its bytes or an error; what goes to the next filter is
-- appended to `sent`.
pub mod Conserves
pub mod Exits
pub mod Transparent
pub mod Phase3
pub mod Settled
pub mod Delay
pub mod Counting
pub mod Holding
pub mod Capped
pub mod Released
pub mod Obeyed
mod Examples
use coraza_apache.Base.{
  ℕ, ◌+◌, ◌*◌, Bool, true, false, not, ◌&&◌, ◌||◌, Option, none, some, List, [], ◌∷◌, ◌++◌, Bytes,
  ℤ, pos, ltb, ltb_ℤ, leb_ℤ, eqb_ℤ, codes, length, if◌then◌else◌,
}
use coraza_apache.Body.{brigade_of}
use coraza_apache.Engine.{
  Call, Engine, add_response_headers, add_response_header, process_response_headers,
  is_response_body_accessible, is_response_body_processable, append_response_body,
  process_response_body, call_failed, process_failed,
}
use coraza_apache.Headers.{HeaderPair, int_max}
use coraza_apache.Intervention.{process_intervention}
use coraza_apache.Request.{Request, Bucket, heap, file, eos, metadata, broken, Brigade, tell}
use coraza_apache.Response.{
  Response, FilterStatus, passed, success, is_sse_response, remove_filter, pass,
  fail_closed_response, fail_closed_headers, refuse_clean, refuse_response,
}
use coraza_apache.Submit.{TableEntry, HeaderCalls, collect, submit_headers}

-- A step of the filter goes on, or returns from it.
pub data Turn : Type 0 where
  go_on : Turn
  leave : FilterStatus → Turn

abbrev pub Step : Type 0
Step = Request → Turn × Request

infixr 5 ◌andthen◌
abbrev pub ◌andthen◌ : Step → Step → Step
◌andthen◌ m k r = let (t, r') = m r in elim t [ go_on ↦ k r' | leave s ↦ (leave s, r') ]

abbrev pub leaving : FilterStatus × Request → Turn × Request
leaving (s, r) = (leave s, r)

-- `CORAZA_MAX_DELAYED_BODY`
abbrev pub max_delayed_body : ℕ
max_delayed_body = 1024 * 1024

abbrev pub response_calls : HeaderCalls
response_calls = record { bulk = add_response_headers; single = add_response_header }

abbrev pub content_type_pair : Option Bytes → List HeaderPair
content_type_pair none = []
content_type_pair (some ct) = record { name = codes "Content-Type"; value = ct } ∷ []

-- `headers_out`, the content type and `err_headers_out`, in this order.
pub response_pairs : Response → List HeaderPair
response_pairs resp =
    collect resp.headers_out
    ++ (content_type_pair resp.content_type ++ collect resp.err_headers_out)

abbrev pub set_phase3_done : Step
set_phase3_done r = (go_on, record r { ctx = record (r.ctx) { phase3_done = true } })

pub add_response_pairs : Engine → Response → Step
add_response_pairs e resp r =
    let (done, r') = submit_headers e response_calls (response_pairs resp) r in
    if done then (go_on, r') else leaving (fail_closed_headers r')

abbrev pub response_version : Option Bytes → Bytes
response_version none = codes "HTTP/1.1"
response_version (some v) = v

-- An engine call in phase 3, and the finalization of phase 4 before anything is sent.
pub process_clean : Engine → Call → Step
process_clean e c r =
    let (rc, r') = tell e c r in
    if process_failed rc then leaving (fail_closed_headers r') else (go_on, r')

abbrev pub set_processable : Bool → Request → Request
set_processable b r = record r { ctx = record (r.ctx) { response_body_processable = b } }

-- `accessible && processable`: the second question is only asked after a yes to the first.
pub ask_processable : Engine → Step
ask_processable e r =
    let (acc, r1) = tell e is_response_body_accessible r in
    let (proc, r2) = tell e is_response_body_processable r1 in
    if eqb_ℤ acc (pos 0)
    then (go_on, set_processable false r1)
    else (go_on, set_processable (not (eqb_ℤ proc (pos 0))) r2)

-- `ret = coraza_process_intervention(.., r, 0); if (ret > 0) ..` with nothing sent yet.
pub intervene_clean : Engine → Step
intervene_clean e r =
    let (ret, r') = process_intervention e false r in
    if ltb_ℤ (pos 0) ret then leaving (refuse_clean ret r') else (go_on, r')

abbrev pub set_phase4_done : Step
set_phase4_done r = (go_on, record r { ctx = record (r.ctx) { phase4_done = true } })

-- Step out of the chain and let the response stream.
abbrev pub stream : Brigade → Step
stream bb r = leaving (pass bb (remove_filter r))

-- A body that is not inspected: phase 4 is finalized before any header goes out.
pub finalize_uninspected : Engine → Brigade → Step
finalize_uninspected e bb r =
    if not r.ctx.response_body_processable
    then (process_clean e process_response_body
          andthen set_phase4_done
          andthen intervene_clean e
          andthen stream bb)
        r
    else (go_on, r)

pub stream_events : Response → Brigade → Step
stream_events resp bb r = if is_sse_response resp.content_type then stream bb r else (go_on, r)

pub begin_delay : Response → Step
begin_delay resp r =
    if resp.header_only || resp.is_subrequest || leb_ℤ (pos 400) r.status then (go_on, r) else (
      go_on,
      record r { ctx = record (r.ctx) { pending_brigade = some []; headers_delayed = true } },
    )

-- Phase 3, on the first invocation.
pub run_phase3 : Engine → Response → Brigade → Step
run_phase3 e resp bb r =
    (set_phase3_done
        andthen add_response_pairs e resp
        andthen process_clean e (process_response_headers r.status (response_version resp.protocol))
        andthen ask_processable e
        andthen intervene_clean e
        andthen finalize_uninspected e bb
        andthen stream_events resp bb
        andthen begin_delay resp)
      r

-- The delayed bytes pass the cap: flush what is pending, and all of the current brigade behind it.
pub flush_early : Brigade → Step
flush_early bb r =
    let flushed = record r {
      ctx = record (r.ctx) { headers_delayed = false; pending_brigade = none };
    } in
    stream (brigade_of r.ctx.pending_brigade ++ bb) flushed

abbrev pub add_pending_len : ℕ → Request → Request
add_pending_len n r = record r { ctx = record (r.ctx) { pending_len = r.ctx.pending_len + n } }

pub bound_delay : Brigade → Bytes → Step
bound_delay bb b r =
    let counted = add_pending_len (length b) r in
    if r.ctx.headers_delayed && ltb 0 (length b)
    then (if ltb max_delayed_body counted.ctx.pending_len
        then flush_early bb counted
        else (go_on, counted))
    else (go_on, r)

pub submit_data : Engine → Bytes → Step
submit_data e b r =
    let (rc, r') = tell e (append_response_body b) r in
    if ltb int_max (length b)
    then leaving (fail_closed_response r)
    else if call_failed rc
    then leaving (fail_closed_response r')
    else (go_on, r')

pub intervene_response : Engine → Step
intervene_response e r =
    let (ret, r') = process_intervention e false r in
    if ltb_ℤ (pos 0) ret then leaving (refuse_response ret r') else (go_on, r')

pub inspect_data : Engine → Bytes → Step
inspect_data e b r =
    if ltb 0 (length b) && r.ctx.response_body_processable
    then (submit_data e b andthen intervene_response e) r
    else (go_on, r)

-- The loop's body for one bucket; an end of stream is noted by `has_eos` below.
pub inspect_bucket : Engine → Brigade → Bucket → Step
inspect_bucket e bb (heap b) = bound_delay bb b andthen inspect_data e b
inspect_bucket e bb (file b) = bound_delay bb b andthen inspect_data e b
inspect_bucket e bb eos = λ r. (go_on, r)
inspect_bucket e bb metadata = λ r. (go_on, r)
inspect_bucket e bb broken = λ r. leaving (fail_closed_response r)

-- The loop over the buckets `rest` of the brigade `bb`.
pub inspect_buckets : Engine → Brigade → Brigade → Step
inspect_buckets e bb [] = λ r. (go_on, r)
inspect_buckets e bb (b ∷ rest) = inspect_bucket e bb b andthen inspect_buckets e bb rest

pub has_eos : Brigade → Bool
has_eos [] = false
has_eos (eos ∷ rest) = true
has_eos (_ ∷ rest) = has_eos rest

-- The last step of a brigade that ends the stream: release everything in order.
pub release : Brigade → Step
release bb r =
    let undelayed = record r {
      ctx = record (r.ctx) { headers_delayed = false; pending_brigade = some [] };
    } in
    if r.ctx.headers_delayed
    then stream (brigade_of r.ctx.pending_brigade ++ bb) undelayed
    else stream bb r

pub process_last : Engine → Step
process_last e r =
    let (rc, r') = tell e process_response_body r in
    if process_failed rc then leaving (fail_closed_response r') else (go_on, r')

-- `phase4_done` is set before an intervention is enforced, and after none was found.
pub intervene_last : Engine → Step
intervene_last e r =
    let (ret, r') = process_intervention e false r in
    let done = (set_phase4_done r').1 in
    if ltb_ℤ (pos 0) ret then leaving (refuse_response ret done) else (go_on, done)

-- Not the last brigade: keep it during the delay, or pass it on.
pub hold_or_pass : Response → Brigade → Step
hold_or_pass resp bb r =
    let held = brigade_of r.ctx.pending_brigade ++ bb in
    if not r.ctx.headers_delayed
    then leaving (pass bb r)
    else if not resp.save_ok
    then leaving (fail_closed_response r)
    else (leave success, record r { ctx = record (r.ctx) { pending_brigade = some held } })

pub finish_brigade : Engine → Response → Brigade → Step
finish_brigade e resp bb =
    if has_eos bb
    then (process_last e andthen intervene_last e andthen release bb)
    else hold_or_pass resp bb

pub run_phase4 : Engine → Response → Brigade → Step
run_phase4 e resp bb = inspect_buckets e bb bb andthen finish_brigade e resp bb

pub filter_brigade : Engine → Response → Brigade → Step
filter_brigade e resp bb r =
    if not r.ctx.phase3_done
    then (run_phase3 e resp bb andthen run_phase4 e resp bb) r
    else run_phase4 e resp bb r

-- `coraza_output_filter` on a request with a context.
unfoldable pub output_filter : Engine → Response → Brigade → Step
output_filter e resp bb r =
    if r.ctx.intervention_triggered then stream bb r else filter_brigade e resp bb r
