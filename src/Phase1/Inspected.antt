-- ===== src/Phase1/Inspected.antt =====
-- `coraza_post_read_request` of src/mod_coraza_phase1.c from the connection to the end of phase 2:
-- what has happened when it lets the request through, and how it ends when it does not.
use coraza_apache.Base.{
  Bool-cases, ℤ, List, ℕ, inl, ◌⊎◌, ◌≡◌, inr, true, false, ◌++◌, ◌∙◌, sym, append-nil, ◌∷◌, arith,
  [], refl, eqb_ℤ, ap, if◌then◌else◌,
}
use coraza_apache.Phase1.{
  inspect_request, run_body, take_body, setup_body, finalize_phase2, Host, Engine, DirConf, Request,
  mem_limit, ask, set_phase2_done, nothing_saved, ok, process, modify, finish_replay, intervene,
  Incoming, add_out_filter, run_connection, run_uri, run_headers,
}
use coraza_apache.Engine.{Engine, process_request_body}
use coraza_apache.Body.{Host, set_saved_body, read_body}
use coraza_apache.Config.{DirConf}
use coraza_apache.Request.{Request, http_bad_request, ok}
use coraza_apache.Body.Loop.{LoopStop, body_of, Loop}
use coraza_apache.Body.Replay.{shown, read_body-Loop}
use coraza_apache.Steps.Clean.{Refused, Phase, request_body, Went, connection, uri, request_headers}
use coraza_apache.Phase1.Taken.{Taken, Before, ask-Went, finish_replay-Taken, Taken-Went}
use coraza_apache.Flow.{Post, >>=-Post, Post-imp, Action, ◌>>◌, pure}
use coraza_apache.Steps.Passing.{Went-attached, process-Post, intervene-Post, Went-trans, Went-refl}
use coraza_apache.Steps.{process, intervene}
use coraza_apache.Phase1.Passed.{run_connection-Post, run_uri-Post, run_headers-Post}

-- How the hook returns early: a step refused the request or failed it closed, the body could not
-- be read, or httpd did not set up its reading (a status that is not `OK`).
abbrev pub Stopped : Host → ℤ → Request → Type 0
Stopped host s r =
    Refused s r
    ⊎ (s ≡ http_bad_request)
    ⊎ ((s ≡ host.setup_client_block) × (eqb_ℤ host.setup_client_block ok ≡ false))

loop-Stopped : (host : Host) (s : ℤ) (r : Request) → LoopStop s r → Stopped host s r
loop-Stopped host s r (inl x) = inl x
loop-Stopped host s r (inr x) = inr (inl x)

module _ (e : Engine) (host : Host) (conf : DirConf) (start : Request) where
  abbrev limit : ℕ
  limit = mem_limit conf.body_mem_limit

  take_body-Post :
      (ps : List Phase) (r : Request)
      → host.should_client_block ≡ true
      → Before e start ps r
      → Post (λ _ r'. Taken e host limit start ps r') (Stopped host) (take_body e host conf r)
  unfolding take_body
  take_body-Post ps r body before =
      let asked = ask-Went e r in
      let r1 = (ask e r).1 in
      let r2 = set_saved_body [] r1 in
      let sh = shown (ask e r).0 (body_of host.reads) in
      >>=-Post (Loop e limit r2 (body_of host.reads) sh) (λ _ r'. Taken e host limit start ps r')
        (Stopped host) (read_body e host limit (ask e r).0 host.reads nothing_saved)
        (λ s. modify (finish_replay s)) r2
        (Post-imp (Loop e limit r2 (body_of host.reads) sh)
          (Loop e limit r2 (body_of host.reads) sh) LoopStop (Stopped host)
          (read_body e host limit (ask e r).0 host.reads nothing_saved r2) (λ _ _ h. h)
          (loop-Stopped host)
          (read_body-Loop e limit r2 host (ask e r).0 host.reads [] [] nothing_saved r2
            (Went-attached asked before.attached)
            (record {
              frame = refl;
              clean = λ c. c;
              phased = refl;
              telling = sym (append-nil _);
              keeping = refl;
              memory = refl;
              bounded = omega arith;
              spooled = refl;
            })))
        (λ s r' loop. finish_replay-Taken e host limit start r r1 ps s r' body before asked loop)

  no_body-Taken :
      (ps : List Phase) (r : Request)
      → host.should_client_block ≡ false
      → Before e start ps r
      → Taken e host limit start ps r
  no_body-Taken ps r none_sent before = record {
    attached = before.attached;
    clean = before.clean;
    phased = before.phased;
    inspected = inl (before.silent ∙ rw none_sent (sym (append-nil _)));
    kept = λ h. absurd (ground arith);
    watched = before.watched;
  }

  -- The end of phase 2.
  abbrev pub Done : List Phase → Request → Type 0
  Done ps r = Taken e host limit start ps r × (r.ctx.phase2_done ≡ true)

  set_phase2_done-Taken :
      (ps : List Phase) (r : Request)
      → Taken e host limit start ps r
      → Taken e host limit start ps (set_phase2_done r)
  set_phase2_done-Taken ps r t = record {
    attached = t.attached;
    clean = t.clean;
    phased = t.phased;
    inspected = t.inspected;
    kept = λ h.
        let k = t.kept h in
        record {
          replay = k.replay;
          ends = k.ends;
          memory = k.memory;
          filtered = k.filtered;
          rereadable = k.rereadable;
        };
    watched = t.watched;
  }

  -- A step that only talks, after the body was taken.
  talk-Post :
      (ps qs : List Phase) (m : Action (Unit {0})) (r : Request)
      → Taken e host limit start ps r
      → Post (λ _ s. Went e qs [] r s) Refused (m r)
      → Post (λ _ s. Taken e host limit start (ps ++ qs) s × Went e qs [] r s) (Stopped host) (m r)
  talk-Post ps qs m r t h =
      Post-imp (λ _ s. Went e qs [] r s)
        (λ _ s. Taken e host limit start (ps ++ qs) s × Went e qs [] r s) Refused (Stopped host)
        (m r) (λ _ s w. (Taken-Went t w, w)) (λ _ _ x. inl x) h

  finalize_phase2-Post :
      (ps : List Phase) (r : Request)
      → Taken e host limit start ps r
      → Post (λ _ r'. Done (ps ++ request_body ∷ []) r') (Stopped host) (finalize_phase2 e r)
  unfolding finalize_phase2
  finalize_phase2-Post ps r t =
      let qs = ps ++ request_body ∷ [] in
      let Last = λ (u : Unit {0}) (r' : Request). Done qs r' in
      >>=-Post (λ _ s. Taken e host limit start qs s × Went e (request_body ∷ []) [] r s) Last
        (Stopped host) (process e process_request_body) (λ _. modify set_phase2_done >> intervene e)
        r
        (talk-Post ps (request_body ∷ []) (process e process_request_body) r t (
          process-Post e process_request_body (request_body ∷ []) [] r (λ h. h) refl
            (sym (append-nil _))))
        (λ _ s h.
          let s' = set_phase2_done s in
          let t' = set_phase2_done-Taken qs s h.0 in
          Post-imp (λ _ r'. Taken e host limit start (qs ++ []) r' × Went e [] [] s' r') Last
            (Stopped host) (Stopped host) (intervene e s')
            (λ _ r' k. (rw (append-nil qs) at k.0, ap (λ x. x.ctx.phase2_done) k.1.frame))
            (λ _ _ x. x) (talk-Post qs [] (intervene e) s' t' (intervene-Post e s' t'.attached)))

  setup_body-Post :
      (ps : List Phase) (r : Request)
      → Before e start ps r
      → Post (λ _ s. Before e start ps s) (Stopped host) (setup_body host r)
  unfolding setup_body
  setup_body-Post ps r before = elim (Bool-cases (eqb_ℤ host.setup_client_block ok)) [
    | inl ready ↦ rw ready before
    | inr refused_setup ↦ rw refused_setup (inr (inr (refl, refused_setup)))
  ]

  choose_body-Post :
      (ps : List Phase) (r : Request)
      → Before e start ps r
      → Post
          (λ _ s. Taken e host limit start ps s)
          (Stopped host)
          ((if host.should_client_block then take_body e host conf else pure tt) r)
  choose_body-Post ps r before = elim (Bool-cases host.should_client_block) [
    | inl body ↦ simp body (take_body-Post ps r body before)
    | inr none_sent ↦ simp none_sent (no_body-Taken ps r none_sent before)
  ]

  run_body-Post :
      (ps : List Phase) (r : Request)
      → Before e start ps r
      → Post (λ _ r'. Done (ps ++ request_body ∷ []) r') (Stopped host) (run_body e host conf r)
  unfolding run_body
  run_body-Post ps r before =
      let Last = λ (u : Unit {0}) (r' : Request). Done (ps ++ request_body ∷ []) r' in
      let body = if host.should_client_block then take_body e host conf else pure tt in
      >>=-Post (λ _ s. Before e start ps s) Last (Stopped host) (setup_body host)
        (λ _. body >> finalize_phase2 e) r (setup_body-Post ps r before)
        (λ _ s b.
          >>=-Post (λ _ t. Taken e host limit start ps t) Last (Stopped host) body
            (λ _. finalize_phase2 e) s (choose_body-Post ps s b)
            (λ _ t k. finalize_phase2-Post ps t k))

  -- The talk so far, in front of one more step.
  lead-Post :
      (ps qs : List Phase) (m : Action (Unit {0})) (r : Request)
      → Went e ps [] start r
      → Post (λ _ s. Went e qs [] r s) Refused (m r)
      → Post (λ _ s. Went e (ps ++ qs) [] start s) (Stopped host) (m r)
  lead-Post ps qs m r w h =
      Post-imp (λ _ s. Went e qs [] r s) (λ _ s. Went e (ps ++ qs) [] start s) Refused
        (Stopped host) (m r) (λ _ _ v. Went-trans w v) (λ _ _ x. inl x) h

  Before-body :
      (ps : List Phase) (r : Request)
      → start.attached ≡ true
      → Went e ps [] start r
      → Before e start ps (add_out_filter r)
  Before-body ps r at w = record {
    attached = Went-attached w at;
    clean = w.clean;
    phased = w.phased;
    silent = w.told ∙ append-nil _;
    watched = refl;
  }

-- A request with a context that the hook lets through (`DECLINED`) has gone through its four phases
-- in order, every answer that the engine gave was good, phase 2 is finished and the output filter
-- in place; its body, if it has one, is kept for the handler as it was sent, within the memory
-- limit, and the engine was handed exactly this body unless it said that it does not read bodies. A
-- request that is not let through was failed closed, refused or dropped with the intervention flag
-- raised, or ends with 400, or with the status, other than `OK`, with which httpd refused to set the
-- reading up.
pub inspect_request-Post :
    (e : Engine) (host : Host) (conf : DirConf) (inc : Incoming) (start : Request)
    → start.attached ≡ true
    → Post
        (λ _ r'. Done e host conf start (connection ∷ uri ∷ request_headers ∷ request_body ∷ []) r')
        (Stopped host)
        (inspect_request e host conf inc start)
unfolding inspect_request
inspect_request-Post e host conf inc start at =
    let All = connection ∷ uri ∷ request_headers ∷ request_body ∷ [] in
    let Last = λ (u : Unit {0}) (r' : Request). Done e host conf start All r' in
    let rest = modify add_out_filter >> run_body e host conf in
    >>=-Post (λ _ s. Went e (connection ∷ []) [] start s) Last (Stopped host) (run_connection e inc)
      (λ _. run_uri e inc >> (run_headers e inc >> rest)) start
      (lead-Post e host conf start [] (connection ∷ []) (run_connection e inc) start
        (Went-refl e start) (run_connection-Post e inc start at))
      (λ _ s w.
        >>=-Post (λ _ t. Went e (connection ∷ uri ∷ []) [] start t) Last (Stopped host)
          (run_uri e inc) (λ _. run_headers e inc >> rest) s
          (lead-Post e host conf start (connection ∷ []) (uri ∷ []) (run_uri e inc) s w
            (run_uri-Post e inc s (Went-attached w at)))
          (λ _ t v.
            >>=-Post (λ _ u. Went e (connection ∷ uri ∷ request_headers ∷ []) [] start u) Last
              (Stopped host) (run_headers e inc) (λ _. rest) t
              (lead-Post e host conf start (connection ∷ uri ∷ []) (request_headers ∷ [])
                (run_headers e inc) t v (run_headers-Post e inc t (Went-attached v at)))
              (λ _ u x.
                run_body-Post e host conf start (connection ∷ uri ∷ request_headers ∷ [])
                  (add_out_filter u)
                  (Before-body e host conf start (connection ∷ uri ∷ request_headers ∷ []) u at
                    x))))
