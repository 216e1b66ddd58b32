-- ===== src/Submit/Settled.antt =====
-- Submitting headers, in src/mod_coraza_phase1.c and src/mod_coraza_filter_out.c, obeys the engine.
use coraza_apache.Base.{
  ◌≡◌, refl, true, false, pos, ◌∷◌, [], inl, inr, Option-cases, Bool-cases, Bytes, ℕ, length, ap,
  sym, ◌∙◌, List, ℤ, arith,
}
use coraza_apache.Engine.{Engine, History, call_failed}
use coraza_apache.Headers.{HeaderPair, pack_headers}
use coraza_apache.Obeys.{Settled, may_intervene, is_pending, Respected}
use coraza_apache.Obeys.Steps.{tell_plain-Settled}
use coraza_apache.Output.{response_calls}
use coraza_apache.Request.{Request, tell}
use coraza_apache.Submit.{HeaderCalls, request_calls, submit_each, submit_packed, submit_headers}
use coraza_apache.Submit.Complete.{submit_each_step}

-- A pair of calls that may not raise an intervention.
pub record PlainCalls (e : Engine) (calls : HeaderCalls) : Type 0 where
  pub bulk_accepted : (b : Bytes) (n k : ℕ) (h : History) → Respected e (calls.bulk b n k) h
  pub bulk_plain : (b : Bytes) (n k : ℕ) → may_intervene (calls.bulk b n k) ≡ false
  pub bulk_same :
      (b : Bytes) (n k : ℕ) (h : History) → is_pending (calls.bulk b n k ∷ h) ≡ is_pending h
  pub single_accepted :
      (n v : Bytes) (h : History)
      → call_failed (e.reply h (calls.single n v)) ≡ false
      → Respected e (calls.single n v) h
  pub single_plain : (n v : Bytes) → may_intervene (calls.single n v) ≡ false
  pub single_same : (n v : Bytes) (h : History) → is_pending (calls.single n v ∷ h) ≡ is_pending h

pub request_calls-PlainCalls : (e : Engine) → PlainCalls e request_calls
request_calls-PlainCalls e = record {
  bulk_accepted = λ b n k h. tt;
  bulk_plain = λ b n k. refl;
  bulk_same = λ b n k h. refl;
  single_accepted = λ n v h good. good;
  single_plain = λ n v. refl;
  single_same = λ n v h. refl;
}

pub response_calls-PlainCalls : (e : Engine) → PlainCalls e response_calls
response_calls-PlainCalls e = record {
  bulk_accepted = λ b n k h. tt;
  bulk_plain = λ b n k. refl;
  bulk_same = λ b n k h. refl;
  single_accepted = λ n v h good. good;
  single_plain = λ n v. refl;
  single_same = λ n v h. refl;
}

module _ (e : Engine) (calls : HeaderCalls) (plain : PlainCalls e calls) where
  accepts : (rc : ℤ) → rc ≡ pos 0 → call_failed rc ≡ false
  accepts rc h = ground arith

  submit_each-Settled :
      (ps : List HeaderPair) (r : Request)
      → Settled e r
      → (submit_each e calls ps r).0 ≡ true
      → Settled e (submit_each e calls ps r).1
  unfolding submit_each
  submit_each-Settled [] r s h = s
  submit_each-Settled (p ∷ ps) r s h =
      let (_, _, rc, step) = submit_each_step e calls p ps r h in
      let c = calls.single p.name p.value in
      let good = plain.single_accepted p.name p.value r.ctx.calls (accepts _ rc) in
      rw step (
        submit_each-Settled ps (tell e c r).1
          (tell_plain-Settled c good (plain.single_plain p.name p.value)
            (plain.single_same p.name p.value r.ctx.calls) s)
          (ap (λ x. x.0) (sym step) ∙ h))

  submit_packed-Settled :
      (ps : List HeaderPair) (packed : Bytes) (n : ℕ) (r : Request)
      → Settled e r
      → (submit_packed e calls ps packed n r).0 ≡ true
      → Settled e (submit_packed e calls ps packed n r).1
  unfolding submit_packed
  submit_packed-Settled ps packed n r s h =
      let c = calls.bulk packed n (length ps) in
      let told =
        tell_plain-Settled c (plain.bulk_accepted packed n (length ps) r.ctx.calls)
          (plain.bulk_plain packed n (length ps)) (plain.bulk_same packed n (length ps) r.ctx.calls)
          s in
      elim (Bool-cases (call_failed (e.reply r.ctx.calls c))) [
        | inl bad ↦ rw bad (submit_each-Settled ps (tell e c r).1 told (rw bad at h))
        | inr good ↦ rw good told
      ]

  pub submit_headers-Settled :
      (ps : List HeaderPair) (r : Request)
      → Settled e r
      → (submit_headers e calls ps r).0 ≡ true
      → Settled e (submit_headers e calls ps r).1
  unfolding submit_headers
  submit_headers-Settled [] r s h = s
  submit_headers-Settled (p ∷ ps) r s h = elim (Option-cases (pack_headers (p ∷ ps))) [
    | inl e0 ↦ rw e0 (submit_each-Settled (p ∷ ps) r s (rw e0 at h))
    | inr ((packed, n), e1) ↦ rw e1 (submit_packed-Settled (p ∷ ps) packed n r s (rw e1 at h))
  ]
