-- ===== src/Body.antt =====
-- Reading, keeping and inspecting the request body: the loop of `coraza_post_read_request` in
-- src/mod_coraza_phase1.c, with `coraza_open_body_spool`. What httpd and APR answer is a parameter.
pub mod Loop
pub mod Replay
pub mod Memory
pub mod Settled
use coraza_apache.Base.{
  ℕ, ◌+◌, Bool, true, false, not, ◌&&◌, Option, none, some, List, [], ◌∷◌, ◌++◌, Bytes, ℤ, pos,
  negsuc, leb, ◌==◌, length, if◌then◌else◌,
}
use coraza_apache.Engine.{Engine, append_request_body}
use coraza_apache.Flow.{Flow, next, return, Action, ◌>>=◌, ◌>>◌, pure}
use coraza_apache.Request.{Request, Bucket, heap, file, eos, Brigade, http_bad_request}
use coraza_apache.Steps.{fail_closed, submit, intervene}

-- One `ap_get_client_block`: a block, or -1. The end of the list is the end of the body.
pub data Read : Type 0 where
  block : Bytes → Read
  failed : Read

-- Answers of httpd and APR: may the temp directory be found, the temp file be made, a block be
-- added to the brigade, a block be written to the file.
pub record Host : Type 0 where
  pub setup_client_block : ℤ
  pub should_client_block : Bool
  pub reads : List Read
  pub temp_dir : Bool
  pub mktemp : Bool
  pub brigade_write : Brigade → Bytes → Bool
  pub file_write : Bytes → Bytes → Bool

-- The loop's variables: `saved_len`, `spool` (what the file holds) and `spool_len`.
pub record Saving : Type 0 where
  pub saved_len : ℕ
  pub spool : Option Bytes
  pub spool_len : ℕ

abbrev pub brigade_of : Option Brigade → Brigade
brigade_of none = []
brigade_of (some b) = b

abbrev pub set_saved_body : Brigade → Request → Request
set_saved_body b r = record r { ctx = record (r.ctx) { saved_body = some b } }

-- `coraza_open_body_spool`: an empty file, or an error.
pub open_body_spool : Host → Option Bytes
open_body_spool host = if not host.temp_dir then none else if not host.mktemp then none else some []

-- `spool == NULL && saved_len + nread <= mem_limit`
pub fits_in_memory : ℕ → Bytes → Saving → Bool
fits_in_memory limit b s = elim s.spool [
  | none ↦ leb (s.saved_len + length b) limit
  | some _ ↦ false
]

-- The branch that keeps the block in memory.
pub save_in_memory : Host → Bytes → Saving → Action Saving
save_in_memory host b s r =
    let saved = brigade_of r.ctx.saved_body in
    if not (host.brigade_write saved b) then fail_closed r else (
      next (record s { saved_len = s.saved_len + length b }),
      set_saved_body (saved ++ heap b ∷ []) r,
    )

-- The branch that appends the block to the open file.
pub write_spool : Host → Bytes → Saving → Bytes → Action Saving
write_spool host b s contents r =
    if not (host.file_write contents b)
    then fail_closed r
    else (next (record s { spool = some (contents ++ b); spool_len = s.spool_len + length b }), r)

-- `spool` if it is open, else a new file, or `none` where that cannot be made.
pub opened_spool : Host → Option Bytes → Option Bytes
unfolding open_body_spool
opened_spool host none = open_body_spool host
opened_spool host (some contents) = some contents

pub write_opened : Host → Bytes → Saving → Option Bytes → Action Saving
unfolding write_spool
write_opened host b s none r = fail_closed r
write_opened host b s (some contents) r = write_spool host b s contents r

pub save_in_file : Host → Bytes → Saving → Action Saving
unfolding write_opened
save_in_file host b s = write_opened host b s (opened_spool host s.spool)

pub save_block : Host → ℕ → Bytes → Saving → Action Saving
save_block host limit b s =
    if fits_in_memory limit b s then save_in_memory host b s else save_in_file host b s

-- The rest of the loop's body: nothing more under `SecRequestBodyAccess Off`.
pub inspect_block : Engine → Bool → Bytes → Action (Unit {0})
inspect_block e inspect b =
    if not inspect then pure tt else (submit e (append_request_body b) >> intervene e)

-- `while ((nread = ap_get_client_block(..)) > 0)` and the test `nread < 0` behind it.
pub read_body : Engine → Host → ℕ → Bool → List Read → Saving → Action Saving
read_body e host limit inspect [] s = pure s
read_body e host limit inspect (failed ∷ rest) s = λ r. (return http_bad_request, r)
read_body e host limit inspect (block b ∷ rest) s =
    let go_on = do
      s' ← save_block host limit b s
      inspect_block e inspect b
      read_body e host limit inspect rest s'
    in if length b == 0 then pure s else go_on

-- The spooled tail as one file bucket, and the end of the stream.
abbrev pub tail_buckets : Saving → Brigade
tail_buckets s = elim s.spool [ none ↦ eos ∷ [] | some contents ↦ file contents ∷ eos ∷ [] ]
