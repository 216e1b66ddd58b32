-- ===== src/Steps/Passing.antt =====
-- What each repeated step of `coraza_post_read_request` in src/mod_coraza_phase1.c guarantees,
-- whether it goes on or returns.
use coraza_apache.Base.{
  Bool-cases, Option-cases, ℤ, List, inl, ltb_ℤ, ◌≡◌, true, pos, Bytes, ◌++◌, inr, arith, [], false,
  ◌∙◌, ap, ◌∷◌, refl, append_assoc, sym, append-nil,
}
use coraza_apache.Flow.{Post, ◌>>=◌, >>=-Post, Action, Post-map}
use coraza_apache.Steps.{process, submit, intervene, enforce_intervention, Engine, Request}
use coraza_apache.Steps.Clean.{
  Went, Refused, Phase, Accepted, refused, phases, with_calls, told_body, failed_closed,
  connection_dropped,
}
use coraza_apache.Engine.{Engine, Call, process_failed, call_failed, poll_intervention}
use coraza_apache.Intervention.{enforce_intervention, process_intervention}
use coraza_apache.Request.{Request, tell}
use coraza_apache.Intervention.Verdict.{
  Refuses, process_intervention_idle, process_intervention_enforces, enforced_status-Refuses,
}

pub tell-Went :
    (e : Engine) (c : Call) (ps : List Phase) (b : Bytes) (r : Request)
    → Accepted e c r.ctx.calls
    → phases (c ∷ r.ctx.calls) ≡ phases r.ctx.calls ++ ps
    → told_body (c ∷ r.ctx.calls) ≡ told_body r.ctx.calls ++ b
    → Went e ps b r (tell e c r).1
tell-Went e c ps b r ok_c ph tb = record {
  frame = refl;
  clean = λ h. (ok_c, h);
  phased = ph;
  told = tb;
}

pub Went-trans :
    {e : Engine} {ps qs : List Phase} {b c : Bytes} {r s t : Request}
    → Went e ps b r s
    → Went e qs c s t
    → Went e (ps ++ qs) (b ++ c) r t
Went-trans {ps} {qs} {b} {c} {r} f g = record {
  frame = g.frame ∙ ap (with_calls _) f.frame;
  clean = λ h. g.clean (f.clean h);
  phased = g.phased ∙ rw f.phased (append_assoc (phases r.ctx.calls) ps qs);
  told = g.told ∙ rw f.told (append_assoc (told_body r.ctx.calls) b c);
}

pub Went-refl : (e : Engine) (r : Request) → Went e [] [] r r
Went-refl e r = record {
  frame = refl;
  clean = λ h. h;
  phased = sym (append-nil _);
  told = sym (append-nil _);
}

pub Went-attached :
    {e : Engine} {ps : List Phase} {b : Bytes} {r s : Request}
    → Went e ps b r s
    → r.attached ≡ true
    → s.attached ≡ true
Went-attached w at = ap (λ x. x.attached) w.frame ∙ at

-- Steps that only talk compose under a sequence.
pub Went->>= :
    {A : Type 0} (e : Engine) (ps qs : List Phase) (b c : Bytes) (m : Action (Unit {0}))
    (f : Unit {0} → Action A) (r : Request)
    → Post (λ _ s. Went e ps b r s) Refused (m r)
    → ((s : Request) → Went e ps b r s → Post (λ _ t. Went e qs c s t) Refused (f tt s))
    → Post (λ _ t. Went e (ps ++ qs) (b ++ c) r t) Refused ((m >>= f) r)
Went->>= e ps qs b c m f r h k =
    >>=-Post (λ _ s. Went e ps b r s) (λ _ t. Went e (ps ++ qs) (b ++ c) r t) Refused m f r h
      (λ a s w.
        Post-map (λ _ t. Went e qs c s t) (λ _ t. Went e (ps ++ qs) (b ++ c) r t) Refused (f a s)
          (λ a' t w'. Went-trans w w') (k s w))

pub process-Post :
    (e : Engine) (c : Call) (ps : List Phase) (b : Bytes) (r : Request)
    → (process_failed (e.reply r.ctx.calls c) ≡ false → Accepted e c r.ctx.calls)
    → phases (c ∷ r.ctx.calls) ≡ phases r.ctx.calls ++ ps
    → told_body (c ∷ r.ctx.calls) ≡ told_body r.ctx.calls ++ b
    → Post (λ _ r'. Went e ps b r r') Refused (process e c r)
unfolding process
process-Post e c ps b r acc ph tb = elim (Bool-cases (process_failed (e.reply r.ctx.calls c))) [
  | inl bad ↦ rw bad (refl, failed_closed refl)
  | inr good ↦ rw good (tell-Went e c ps b r (acc good) ph tb)
]

pub submit-Post :
    (e : Engine) (c : Call) (ps : List Phase) (b : Bytes) (r : Request)
    → (call_failed (e.reply r.ctx.calls c) ≡ false → Accepted e c r.ctx.calls)
    → phases (c ∷ r.ctx.calls) ≡ phases r.ctx.calls ++ ps
    → told_body (c ∷ r.ctx.calls) ≡ told_body r.ctx.calls ++ b
    → Post (λ _ r'. Went e ps b r r') Refused (submit e c r)
unfolding submit
submit-Post e c ps b r acc ph tb = elim (Bool-cases (call_failed (e.reply r.ctx.calls c))) [
  | inl bad ↦ rw bad (refl, failed_closed refl)
  | inr good ↦ rw good (tell-Went e c ps b r (acc good) ph tb)
]

enforce_intervention-Refused :
    (ret : ℤ) (r : Request) → Refuses ret → let (s, r') = enforce_intervention ret r in Refused s r'
unfolding enforce_intervention
enforce_intervention-Refused ret r h = elim (Bool-cases r.ctx.drop_connection) [
  | inl drop ↦ rw drop (refl, connection_dropped refl refl refl refl)
  | inr keep ↦ rw keep (refl, refused h)
]

pub Refuses-pos : (s : ℤ) → Refuses s → ltb_ℤ (pos 0) s ≡ true
Refuses-pos s h = ground arith

pub intervene-Post :
    (e : Engine) (r : Request)
    → r.attached ≡ true
    → Post (λ _ r'. Went e [] [] r r') Refused (intervene e r)
unfolding intervene
intervene-Post e r at = elim (Option-cases (e.queued r.ctx.calls)) [
  | inl idle ↦
      rw (process_intervention_idle e true r at idle)
        (tell-Went e poll_intervention [] [] r idle (sym (append-nil _)) (sym (append-nil _)))
  | inr (i, found) ↦
      let P = process_intervention e true r in
      let refuses : Refuses P.0 =
        rw (process_intervention_enforces e true r i at found).0 (enforced_status-Refuses i).0 in
      rw (Refuses-pos P.0 refuses) (enforce_intervention-Refused P.0 P.1 refuses)
]
