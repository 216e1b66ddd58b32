-- ===== src/Obeys/Flow.antt =====
-- Steps of `coraza_post_read_request` in src/mod_coraza_phase1.c on a request on which the engine is
-- obeyed so far.
use coraza_apache.Base.{◌≡◌, true, false, inl, inr, Bool-cases, ℤ, pos, ltb_ℤ}
use coraza_apache.Flow.{Post, Action, ◌>>◌, ◌>>=◌, >>=-Post, Flow}
use coraza_apache.Obeys.{Settled, Speaking, Respected}
use coraza_apache.Obeys.Steps.{tell-Speaking, process_intervention-Settled}
use coraza_apache.Steps.{process, submit, intervene}
use coraza_apache.Engine.{Engine, Call, call_failed, process_failed}
use coraza_apache.Request.{Request}
use coraza_apache.Intervention.{process_intervention}

abbrev pub Any : ℤ → Request → Type 0
Any s r = Unit

module _ (e : Engine) where
  -- What a step does to a request on which nothing is outstanding.
  abbrev pub Settles : {A : Type 0} → Flow A × Request → Type 0
  Settles {A} = Post {A = A} (λ _ r. Settled e r) Any

  abbrev pub Speaks : {A : Type 0} → Flow A × Request → Type 0
  Speaks {A} = Post {A = A} (λ _ r. Speaking e r) Any

  pub seq :
      {A B : Type 0} (m : Action A) (f : A → Action B) (r : Request)
      → Settles (m r)
      → ((a : A) (s : Request) → Settled e s → Settles (f a s))
      → Settles ((m >>= f) r)
  seq m f r h k = >>=-Post (λ _ s. Settled e s) (λ _ s. Settled e s) Any m f r h k

  pub seq_poll :
      {B : Type 0} (m : Action (Unit {0})) (k : Action B) (r : Request)
      → Speaks (m r)
      → ((s : Request) → Speaking e s → Settles (k s))
      → Settles ((m >> k) r)
  seq_poll m k r h f =
      >>=-Post (λ _ s. Speaking e s) (λ _ s. Settled e s) Any m (λ _. k) r h (λ _ s p. f s p)

  pub process-Speaks :
      (c : Call) (r : Request)
      → (process_failed (e.reply r.ctx.calls c) ≡ false → Respected e c r.ctx.calls)
      → Settled e r
      → Speaks (process e c r)
  unfolding process
  process-Speaks c r acc h = elim (Bool-cases (process_failed (e.reply r.ctx.calls c))) [
    | inl bad ↦ rw bad tt
    | inr good ↦ rw good (tell-Speaking c (acc good) h)
  ]

  pub submit-Speaks :
      (c : Call) (r : Request)
      → (call_failed (e.reply r.ctx.calls c) ≡ false → Respected e c r.ctx.calls)
      → Settled e r
      → Speaks (submit e c r)
  unfolding submit
  submit-Speaks c r acc h = elim (Bool-cases (call_failed (e.reply r.ctx.calls c))) [
    | inl bad ↦ rw bad tt
    | inr good ↦ rw good (tell-Speaking c (acc good) h)
  ]

  pub intervene-Settles : (r : Request) → Speaking e r → Settles (intervene e r)
  unfolding intervene
  intervene-Settles r h = elim (Bool-cases (ltb_ℤ (pos 0) (process_intervention e true r).0)) [
    | inl deny ↦ rw deny tt
    | inr calm ↦ rw calm (process_intervention-Settled e true r h calm)
  ]
