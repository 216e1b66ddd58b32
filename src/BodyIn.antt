-- ===== src/BodyIn.antt =====
-- The replay input filter of src/mod_coraza_body_in.c: `coraza_input_filter` and
-- `coraza_replay_saved_body`. What APR does to a brigade and the filter below are parameters; APR's
-- documented behaviour is a record of laws.
pub mod Moves
pub mod Delivers
pub mod Reads
mod Instance
mod Examples
use coraza_apache.Base.{
  ℕ, Bool, true, false, not, ◌&&◌, ◌||◌, Option, none, some, List, [], ◌∷◌, ◌++◌, map, ℤ, pos,
  negsuc, leb_ℤ, ltb_ℤ, ◌⊎◌, inl, inr, ◌≡◌, length, if◌then◌else◌, ◌≤◌, suc, zero,
}
use coraza_apache.Body.Loop.{contents}
use coraza_apache.Request.{Request, Bucket, heap, file, eos, metadata, broken, Brigade}

-- `ap_input_mode_t`
pub data Mode : Type 0 where
  read_bytes get_line eat_crlf speculative exhaustive init : Mode

-- A status of APR; `apr_error` is any other failure.
pub data Rv : Type 0 where
  apr_success apr_incomplete : Rv
  apr_error : ℤ → Rv

-- `partition saved n` is `apr_brigade_partition`: the status, what stands before the point and what
-- stands behind it. `split_line` moves a line to the front. `copy` gives an error or a copy.
pub record Apr : Type 0 where
  pub partition : Brigade → ℕ → Rv × (Brigade × Brigade)
  pub split_line : Brigade → Rv × (Brigade × Brigade)
  pub copy : Bucket → ℤ ⊎ Bucket

-- `ap_get_brigade(f->next, ..)`: the status, and the brigade with what was read behind it.
abbrev pub Below : Type 0
Below = Mode → ℤ → Brigade → Rv × Brigade

-- What a reader sees of a brigade, piece by piece.
pub data Piece : Type 0 where
  byte : ℕ → Piece
  end_of_stream mark bad : Piece

abbrev pub pieces_of : Bucket → List Piece
pieces_of (heap b) = map byte b
pieces_of (file b) = map byte b
pieces_of eos = end_of_stream ∷ []
pieces_of metadata = mark ∷ []
pieces_of broken = bad ∷ []

abbrev pub pieces : Brigade → List Piece
pieces [] = []
pieces (b ∷ bs) = pieces_of b ++ pieces bs

-- How many bytes there are.
abbrev pub size : List Piece → ℕ
size [] = 0
size (byte c ∷ ps) = suc (size ps)
size (end_of_stream ∷ ps) = size ps
size (mark ∷ ps) = size ps
size (bad ∷ ps) = size ps

-- The documented behaviour: partitioning, splitting and copying change no content; a partition that
-- succeeds stands at the byte asked for, and one that is incomplete stands at the end.
pub record AprLaws (a : Apr) : Type 0 where
  pub partition_keeps :
      (saved before after : Brigade) (n : ℕ) (rv : Rv)
      → a.partition saved n ≡ (rv, (before, after))
      → pieces (before ++ after) ≡ pieces saved
  pub partition_at :
      (saved before after : Brigade) (n : ℕ)
      → a.partition saved n ≡ (apr_success, (before, after))
      → size (pieces before) ≡ n
  pub partition_short :
      (saved before after : Brigade) (n : ℕ)
      → a.partition saved n ≡ (apr_incomplete, (before, after))
      → (after ≡ []) × (size (pieces before) ≤ n)
  pub split_keeps :
      (saved line rest : Brigade) (rv : Rv)
      → a.split_line saved ≡ (rv, (line, rest))
      → pieces (line ++ rest) ≡ pieces saved
  pub copy_same : (b c : Bucket) → a.copy b ≡ inr c → pieces_of c ≡ pieces_of b

-- What a call of the filter returns: a status, the caller's brigade, and the request.
abbrev pub Answer : Type 0
Answer = Rv × (Brigade × Request)

abbrev set_saved : Brigade → Request → Request
set_saved b r = record r { ctx = record (r.ctx) { saved_body = some b } }

-- `ap_remove_input_filter(f); return ap_get_brigade(f->next, ..)`
abbrev pub step_aside : Below → Mode → ℤ → Brigade → Request → Answer
step_aside below mode n bb r =
    let (rv, bb') = below mode n bb in (rv, (bb', record r { in_filter = false }))

-- The copying loop of a speculative read.
pub copy_all : Apr → Brigade → Brigade → Rv × Brigade
copy_all a [] bb = (apr_success, bb)
copy_all a (b ∷ bs) bb = elim (a.copy b) [
  | inl rv ↦ (apr_error rv, bb)
  | inr c ↦ copy_all a bs (bb ++ c ∷ [])
]

-- A speculative read with a limit: `APR_INCOMPLETE` is as good as a success.
pub copy_part : Apr → Brigade → Rv × (Brigade × Brigade) → Request → Answer
unfolding copy_all
copy_part a bb (apr_success, (before, after)) r =
    let (rv, bb') = copy_all a before bb in (rv, (bb', set_saved (before ++ after) r))
copy_part a bb (apr_incomplete, (before, after)) r =
    let (rv, bb') = copy_all a (before ++ after) bb in (rv, (bb', set_saved (before ++ after) r))
copy_part a bb (apr_error rv, (before, after)) r =
    (apr_error rv, (bb, set_saved (before ++ after) r))

-- The limit of a read, where it is positive.
abbrev pub limit_of : ℤ → Option ℕ
limit_of (pos zero) = none
limit_of (pos (suc n)) = some (suc n)
limit_of (negsuc n) = none

pub look_ahead : Apr → Brigade → Brigade → Option ℕ → Request → Answer
unfolding copy_part
look_ahead a bb saved none r = let (rv, bb') = copy_all a saved bb in (rv, (bb', r))
look_ahead a bb saved (some n) r = copy_part a bb (a.partition saved n) r

-- `APR_BRIGADE_CONCAT(bb, saved)`
abbrev pub hand_over_all : Brigade → Brigade → Request → Answer
hand_over_all bb saved r = (apr_success, (bb ++ saved, set_saved [] r))

-- The end of the function, behind the partition.
pub hand_over_part : Brigade → Rv × (Brigade × Brigade) → Request → Answer
hand_over_part bb (apr_success, (before, after)) r =
    (apr_success, (bb ++ before, set_saved after r))
hand_over_part bb (apr_incomplete, (before, after)) r = hand_over_all bb (before ++ after) r
hand_over_part bb (apr_error rv, (before, after)) r =
    (apr_error rv, (bb, set_saved (before ++ after) r))

pub hand_over : Apr → Brigade → Brigade → Option ℕ → Request → Answer
unfolding hand_over_part
hand_over a bb saved none r = hand_over_all bb saved r
hand_over a bb saved (some n) r = hand_over_part bb (a.partition saved n) r

-- `coraza_replay_saved_body` on a body that is not empty, by mode.
pub replay_mode : Apr → Below → Mode → ℤ → Brigade → Brigade → Request → Answer
unfolding look_ahead hand_over
replay_mode a below eat_crlf n bb saved r = let (rv, bb') = below eat_crlf n bb in (rv, (bb', r))
replay_mode a below get_line n bb saved r =
    let (rv, parts) = a.split_line saved in (rv, (bb ++ parts.0, set_saved parts.1 r))
replay_mode a below speculative n bb saved r = look_ahead a bb saved (limit_of n) r
replay_mode a below exhaustive n bb saved r = hand_over_all bb saved r
replay_mode a below read_bytes n bb saved r = hand_over a bb saved (limit_of n) r
replay_mode a below init n bb saved r = hand_over a bb saved (limit_of n) r

-- `coraza_replay_saved_body`: once everything is handed over, step aside.
pub replay_saved_body : Apr → Below → Mode → ℤ → Brigade → Brigade → Request → Answer
unfolding replay_mode
replay_saved_body a below mode n bb [] r =
    step_aside below mode n bb (record r { ctx = record (r.ctx) { saved_body = none } })
replay_saved_body a below mode n bb (b ∷ bs) r = replay_mode a below mode n bb (b ∷ bs) r

pub replay_or_aside : Apr → Below → Mode → ℤ → Brigade → Option Brigade → Request → Answer
unfolding replay_saved_body
replay_or_aside a below mode n bb none r = step_aside below mode n bb r
replay_or_aside a below mode n bb (some saved) r =
    if not r.ctx.intervention_triggered
    then replay_saved_body a below mode n bb saved r
    else step_aside below mode n bb r

-- `coraza_input_filter` on a request with a context.
unfoldable pub input_filter : Apr → Below → Mode → ℤ → Brigade → Request → Answer
unfolding replay_or_aside
input_filter a below mode n bb r = replay_or_aside a below mode n bb r.ctx.saved_body r
