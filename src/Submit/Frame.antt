-- ===== src/Submit/Frame.antt =====
-- Submitting headers, in src/mod_coraza_phase1.c and src/mod_coraza_filter_out.c, changes nothing
-- but what the transaction has been told.
use coraza_apache.Base.{◌≡◌, refl, List, Bytes, ◌∷◌, ℕ, Option-cases, arith, inl, length, inr, []}
use coraza_apache.Submit.{
  submit_each, submit_packed, submit_headers, Engine, Request, HeaderCalls, HeaderPair,
}
use coraza_apache.Engine.{Engine}
use coraza_apache.Request.{Request, tell}
use coraza_apache.Headers.{HeaderPair, pack_headers}

-- The request with the history of another.
abbrev pub told_as : Request → Request → Request
told_as x r = record r { ctx = record (r.ctx) { calls = x.ctx.calls } }

module _ (e : Engine) (calls : HeaderCalls) where
  submit_each-told_as :
      (ps : List HeaderPair) (r : Request)
      → (submit_each e calls ps r).1 ≡ told_as (submit_each e calls ps r).1 r
  unfolding submit_each
  submit_each-told_as [] r = refl
  submit_each-told_as (p ∷ ps) r =
      ground (arith, submit_each-told_as ps (tell e (calls.single p.name p.value) r).1)

  submit_packed-told_as :
      (ps : List HeaderPair) (packed : Bytes) (n : ℕ) (r : Request)
      → (submit_packed e calls ps packed n r).1 ≡ told_as (submit_packed e calls ps packed n r).1 r
  unfolding submit_packed
  submit_packed-told_as ps packed n r =
      ground (arith, submit_each-told_as ps (tell e (calls.bulk packed n (length ps)) r).1)

  pub submit_headers-told_as :
      (ps : List HeaderPair) (r : Request)
      → (submit_headers e calls ps r).1 ≡ told_as (submit_headers e calls ps r).1 r
  unfolding submit_headers
  submit_headers-told_as [] r = refl
  submit_headers-told_as (p ∷ ps) r = elim (Option-cases (pack_headers (p ∷ ps))) [
    | inl e0 ↦ rw e0 (submit_each-told_as (p ∷ ps) r)
    | inr ((packed, n), e1) ↦ rw e1 (submit_packed-told_as (p ∷ ps) packed n r)
  ]
