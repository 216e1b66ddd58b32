-- ===== src/Submit/Redone.antt =====
-- The headers of a batch that the engine rejects, in src/mod_coraza_phase1.c: each is submitted again
-- by a call of its own.
use coraza_apache.Base.{
  ◌≡◌, [], ◌∷◌, ◌++◌, List, Bytes, true, ℕ, Option-cases, inl, length, ap, inr, some, sym, ◌∙◌,
  Bool-cases, append-nil,
}
use coraza_apache.Obeys.{Redone, Polled}
use coraza_apache.Submit.{
  submit_each, submit_headers, request_calls, Engine, submit_packed, Request, HeaderPair,
}
use coraza_apache.Engine.{Engine, add_request_header, add_request_headers, call_failed}
use coraza_apache.Request.{Request, tell}
use coraza_apache.Headers.{HeaderPair, pack_headers}
use coraza_apache.Submit.Complete.{submit_each_step}
use coraza_apache.Headers.RoundTrip.{unpack_headers, unpack-pack_headers}

module _ (e : Engine) where
  Polled-Redone : (r : Request) (told : List HeaderPair) → Polled r → Redone e r.ctx.calls told
  Polled-Redone r told p = rw p.last tt

  submit_each-Redone :
      (ps told : List HeaderPair) (r : Request)
      → (submit_each e request_calls ps r).0 ≡ true
      → Redone e r.ctx.calls (ps ++ told)
      → Redone e (submit_each e request_calls ps r).1.ctx.calls told
  unfolding submit_each
  submit_each-Redone [] told r h d = d
  submit_each-Redone (p ∷ ps) told r h d =
      let (_, _, rc, step) = submit_each_step e request_calls p ps r h in
      let r' = (tell e (add_request_header p.name p.value) r).1 in
      rw step (submit_each-Redone ps told r' (ap (λ x. x.0) (sym step) ∙ h) d)

  submit_packed-Redone :
      (ps : List HeaderPair) (packed : Bytes) (n : ℕ) (r : Request)
      → unpack_headers (length ps) packed ≡ some ps
      → (submit_packed e request_calls ps packed n r).0 ≡ true
      → Redone e (submit_packed e request_calls ps packed n r).1.ctx.calls []
  unfolding submit_packed
  submit_packed-Redone ps packed n r back h =
      let c = add_request_headers packed n (length ps) in
      elim (Bool-cases (call_failed (e.reply r.ctx.calls c))) [
        | inl bad ↦ rw bad (
            submit_each-Redone ps [] (tell e c r).1 (rw bad at h)
              (inr (back ∙ ap some (sym (append-nil ps)))))
        | inr good ↦ rw good (inl good)
      ]

  pub submit_headers-Redone :
      (ps : List HeaderPair) (r : Request)
      → Polled r
      → (submit_headers e request_calls ps r).0 ≡ true
      → Redone e (submit_headers e request_calls ps r).1.ctx.calls []
  unfolding submit_headers
  submit_headers-Redone [] r p h = Polled-Redone r [] p
  submit_headers-Redone (q ∷ ps) r p h = elim (Option-cases (pack_headers (q ∷ ps))) [
    | inl e0 ↦ rw e0 (submit_each-Redone (q ∷ ps) [] r (rw e0 at h) (Polled-Redone r _ p))
    | inr ((packed, n), e1) ↦
        rw e1
          (submit_packed-Redone (q ∷ ps) packed n r (unpack-pack_headers (q ∷ ps) e1) (rw e1 at h))
  ]
