-- ===== src/Submit.antt =====
-- Handing a header set to the engine: the bulk call with its per-header fallback, which
-- `coraza_post_read_request` of src/mod_coraza_phase1.c and `coraza_output_filter` of
-- src/mod_coraza_filter_out.c share but for the two calls, and the collection of the pairs.
pub mod Complete
pub mod Frame
pub mod Passing
pub mod Settled
pub mod Redone
mod Examples
use coraza_apache.Base.{
  ℕ, Bool, true, false, not, ◌||◌, Option, none, some, List, [], ◌∷◌, ◌++◌, Bytes, ltb, length,
  if◌then◌else◌,
}
use coraza_apache.Engine.{Call, Engine, call_failed, add_request_headers, add_request_header}
use coraza_apache.Headers.{HeaderPair, pack_headers, int_max}
use coraza_apache.Request.{Request, tell}

-- `apr_table_entry_t`: either pointer may be NULL.
pub record TableEntry : Type 0 where
  pub key : Option Bytes
  pub val : Option Bytes

-- A NULL value is submitted as the empty string.
abbrev pub value_of : Option Bytes → Bytes
value_of none = []
value_of (some v) = v

-- The collection loop: an entry with a NULL key is passed over.
pub collect_key : Option Bytes → Option Bytes → List HeaderPair → List HeaderPair
collect_key none v rest = rest
collect_key (some k) v rest = record { name = k; value = value_of v } ∷ rest

unfoldable pub collect : List TableEntry → List HeaderPair
unfolding collect_key
collect [] = []
collect (t ∷ ts) = collect_key t.key t.val (collect ts)

-- Which calls a phase uses.
pub record HeaderCalls : Type 0 where
  pub bulk : Bytes → ℕ → ℕ → Call
  pub single : Bytes → Bytes → Call

-- The calls of phase 1.
abbrev pub request_calls : HeaderCalls
request_calls = record { bulk = add_request_headers; single = add_request_header }

module _ (e : Engine) (calls : HeaderCalls) where
  -- The per-header loop; `false` is the fail-closed return.
  pub submit_each : List HeaderPair → Request → Bool × Request
  submit_each [] r = (true, r)
  submit_each (p ∷ ps) r =
      if ltb int_max (length p.name) || ltb int_max (length p.value)
      then (false, r)
      else let (rc, r') = tell e (calls.single p.name p.value) r in
        if call_failed rc then (false, r') else submit_each ps r'

  -- A packed batch: the loop runs only if the engine rejects it.
  submit_packed : List HeaderPair → Bytes → ℕ → Request → Bool × Request
  submit_packed ps packed n r =
      let (rc, r') = tell e (calls.bulk packed n (length ps)) r in
      if not (call_failed rc) then (true, r') else submit_each ps r'

  submit_nonempty : List HeaderPair → Option (Bytes × ℕ) → Request → Bool × Request
  submit_nonempty ps none r = submit_each ps r
  submit_nonempty ps (some (packed, n)) r = submit_packed ps packed n r

  unfoldable pub submit_headers : List HeaderPair → Request → Bool × Request
  unfolding submit_nonempty submit_packed submit_each
  submit_headers [] r = (true, r)
  submit_headers (p ∷ ps) r = submit_nonempty (p ∷ ps) (pack_headers (p ∷ ps)) r
