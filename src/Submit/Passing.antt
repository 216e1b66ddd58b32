-- ===== src/Submit/Passing.antt =====
-- Submitting the request headers in src/mod_coraza_phase1.c only talks to the engine.
use coraza_apache.Base.{
  Bool-cases, Option-cases, ℤ, List, ◌≡◌, Bytes, pos, ℕ, true, false, arith, [], ◌∷◌, length, inl,
  inr, sym, append-nil, ap, ◌∙◌,
}
use coraza_apache.Submit.{
  submit_each, submit_packed, submit_headers, request_calls, Engine, HeaderPair, Request,
}
use coraza_apache.Submit.Complete.{submit_each_step}
use coraza_apache.Engine.{Engine, call_failed, add_request_headers, add_request_header}
use coraza_apache.Headers.{HeaderPair, pack_headers}
use coraza_apache.Request.{Request, tell}
use coraza_apache.Steps.Clean.{Went}
use coraza_apache.Steps.Passing.{Went-refl, tell-Went, Went-trans}

module _ (e : Engine) where
  accepts : (rc : ℤ) → rc ≡ pos 0 → call_failed rc ≡ false
  accepts rc h = ground arith

  submit_each-Went :
      (ps : List HeaderPair) (r : Request)
      → (submit_each e request_calls ps r).0 ≡ true
      → Went e [] [] r (submit_each e request_calls ps r).1
  unfolding submit_each
  submit_each-Went [] r h = Went-refl e r
  submit_each-Went (p ∷ ps) r h =
      let (_, _, rc, step) = submit_each_step e request_calls p ps r h in
      let c = add_request_header p.name p.value in
      rw step (
        Went-trans (tell-Went e c [] [] r (accepts _ rc) (sym (append-nil _)) (sym (append-nil _)))
          (submit_each-Went ps (tell e c r).1 (ap (λ x. x.0) (sym step) ∙ h)))

  submit_packed-Went :
      (ps : List HeaderPair) (packed : Bytes) (n : ℕ) (r : Request)
      → (submit_packed e request_calls ps packed n r).0 ≡ true
      → Went e [] [] r (submit_packed e request_calls ps packed n r).1
  unfolding submit_packed
  submit_packed-Went ps packed n r h =
      let c = add_request_headers packed n (length ps) in
      let told : Went e [] [] r (tell e c r).1 =
        tell-Went e c [] [] r tt (sym (append-nil _)) (sym (append-nil _)) in
      elim (Bool-cases (call_failed (e.reply r.ctx.calls c))) [
        | inl bad ↦ rw bad (Went-trans told (submit_each-Went ps (tell e c r).1 (rw bad at h)))
        | inr good ↦ rw good told
      ]

  pub submit_headers-Went :
      (ps : List HeaderPair) (r : Request)
      → (submit_headers e request_calls ps r).0 ≡ true
      → Went e [] [] r (submit_headers e request_calls ps r).1
  unfolding submit_headers
  submit_headers-Went [] r h = Went-refl e r
  submit_headers-Went (p ∷ ps) r h = elim (Option-cases (pack_headers (p ∷ ps))) [
    | inl e0 ↦ rw e0 (submit_each-Went (p ∷ ps) r (rw e0 at h))
    | inr ((packed, n), e1) ↦ rw e1 (submit_packed-Went (p ∷ ps) packed n r (rw e1 at h))
  ]
