-- ===== src/Body/Replay.antt =====
-- The body that the replay filter will hand on is the body that was read, and the body that the
-- engine was told: the read loop of `coraza_post_read_request` in src/mod_coraza_phase1.c.
use coraza_apache.Base.{
  Bool-cases, List, ◌++◌, ℕ, Bytes, [], ◌∷◌, ◌≡◌, if◌then◌else◌, length, sym, true, append_assoc,
  refl, ◌==◌, inl, ap, inr, ◌∙◌, append-nil, Bool, false,
}
use coraza_apache.Body.{
  Read, block, failed, Host, Saving, read_body, Engine, Request, inspect_block, save_block, submit,
  append_request_body, intervene,
}
use coraza_apache.Flow.{Post, ◌>>=◌, ◌>>◌, >>=-Post, Post-imp}
use coraza_apache.Steps.Clean.{Refused, told_body, Went, with_calls}
use coraza_apache.Steps.Passing.{submit-Post, intervene-Post, Went->>=, Went-attached, Went-refl}
use coraza_apache.Engine.{Engine, append_request_body}
use coraza_apache.Request.{Request}
use coraza_apache.Steps.{submit, intervene}
use coraza_apache.Body.Loop.{Loop, body_of, with_body, LoopStop, save_block-Loop}

-- What the engine is told of a block: nothing, where it does not read bodies.
abbrev pub shown : Bool → Bytes → Bytes
shown inspect b = if inspect then b else []

shown_nil : (inspect : Bool) → shown inspect [] ≡ []
shown_nil true = refl
shown_nil false = refl

shown-append :
    (inspect : Bool) (a b : Bytes) → shown inspect (a ++ b) ≡ shown inspect a ++ shown inspect b
shown-append true a b = refl
shown-append false a b = refl

module _ (e : Engine) (limit : ℕ) (start : Request) where
  Loop-Went :
      (kept told b : Bytes) (s : Saving) (r r' : Request)
      → Loop e limit start kept told s r
      → Went e [] b r r'
      → Loop e limit start kept (told ++ b) s r'
  Loop-Went kept told b s r r' h w =
      let same : r'.ctx.saved_body ≡ r.ctx.saved_body = ap (λ x. x.ctx.saved_body) w.frame in
      record {
        frame =
            w.frame
            ∙ ap (with_calls _) h.frame
            ∙ ap (λ x. with_body r'.ctx.calls x start) (sym same);
        clean = λ c. w.clean (h.clean c);
        phased = w.phased ∙ append-nil _ ∙ h.phased;
        telling =
            w.told ∙ ap (λ x. x ++ b) h.telling ∙ append_assoc (told_body start.ctx.calls) told b;
        keeping = rw same h.keeping;
        memory = rw same h.memory;
        bounded = h.bounded;
        spooled = h.spooled;
      }

  Loop-cast :
      {kept kept' told told' : Bytes} {s : Saving} {r : Request}
      → kept ≡ kept'
      → told ≡ told'
      → Loop e limit start kept told s r
      → Loop e limit start kept' told' s r
  Loop-cast k t h = record {
    frame = h.frame;
    clean = h.clean;
    phased = h.phased;
    telling = h.telling ∙ ap (λ x. told_body start.ctx.calls ++ x) t;
    keeping = h.keeping ∙ k;
    memory = h.memory;
    bounded = h.bounded;
    spooled = h.spooled;
  }

  Loop-end :
      (inspect : Bool) {kept told : Bytes} {s : Saving} {r : Request}
      → Loop e limit start kept told s r
      → Loop e limit start (kept ++ []) (told ++ shown inspect []) s r
  Loop-end inspect {kept} {told} =
      Loop-cast (sym (append-nil kept))
        (sym (ap (λ x. told ++ x) (shown_nil inspect) ∙ append-nil told))

  inspect_block-Post :
      (inspect : Bool) (b : Bytes) (r : Request)
      → r.attached ≡ true
      → Post (λ _ r'. Went e [] (shown inspect b) r r') Refused (inspect_block e inspect b r)
  unfolding inspect_block
  inspect_block-Post true b r at = rw (append-nil b) at (
      Went->>= e [] [] b [] (submit e (append_request_body b)) (λ _. intervene e) r
        (submit-Post e (append_request_body b) [] b r (λ h. h) (sym (append-nil _)) refl)
        (λ s w. intervene-Post e s (Went-attached w at)))
  inspect_block-Post false b r at = Went-refl e r

  -- The rest of the loop, behind one block.
  read_more :
      (host : Host) (inspect : Bool) (b : Bytes) (rest : List Read) (kept told : Bytes) (s : Saving)
      (r : Request)
      → start.attached ≡ true
      → Loop e limit start kept told s r
      → ((s' : Saving) (r' : Request)
          → Loop e limit start (kept ++ b) (told ++ shown inspect b) s' r'
          → Post
              (Loop e limit start
                ((kept ++ b) ++ body_of rest)
                ((told ++ shown inspect b) ++ shown inspect (body_of rest)))
              LoopStop
              (read_body e host limit inspect rest s' r'))
      → Post
          (Loop e limit start
            (kept ++ (b ++ body_of rest))
            (told ++ shown inspect (b ++ body_of rest)))
          LoopStop
          ((save_block host limit b s >>= λ s'.
              inspect_block e inspect b >> read_body e host limit inspect rest s')
            r)
  read_more host inspect b rest kept told s r at h k =
      let Last =
        Loop e limit start (kept ++ (b ++ body_of rest))
          (told ++ shown inspect (b ++ body_of rest)) in
      let Saved = Loop e limit start (kept ++ b) told in
      let Shown = λ (s' : Saving) (u : Unit {0}) (r' : Request).
        Loop e limit start (kept ++ b) (told ++ shown inspect b) s' r' in
      >>=-Post Saved Last LoopStop (save_block host limit b s) _ r
        (save_block-Loop e host limit start b kept told s r h)
        (λ s' r' h'.
          >>=-Post (Shown s') Last LoopStop (inspect_block e inspect b) _ r'
            (Post-imp (λ _ t. Went e [] (shown inspect b) r' t) (Shown s') Refused LoopStop
              (inspect_block e inspect b r')
              (λ _ t w. Loop-Went (kept ++ b) told (shown inspect b) s' r' t h' w) (λ _ _ x. inl x)
              (inspect_block-Post inspect b r' (ap (λ x. x.attached) h'.frame ∙ at)))
            (λ _ r'' h''.
              Post-imp _ Last LoopStop LoopStop (read_body e host limit inspect rest s' r'')
                (λ _ _ l.
                  Loop-cast (append_assoc kept b (body_of rest))
                    (append_assoc told (shown inspect b) (shown inspect (body_of rest))
                      ∙ ap (λ x. told ++ x) (sym (shown-append inspect b (body_of rest))))
                    l)
                (λ _ _ x. x) (k s' r'' h'')))

  pub read_body-Loop :
      (host : Host) (inspect : Bool) (reads : List Read) (kept told : Bytes) (s : Saving)
      (r : Request)
      → start.attached ≡ true
      → Loop e limit start kept told s r
      → Post
          (Loop e limit start (kept ++ body_of reads) (told ++ shown inspect (body_of reads)))
          LoopStop
          (read_body e host limit inspect reads s r)
  unfolding read_body
  read_body-Loop host inspect [] kept told s r at h = Loop-end inspect h
  read_body-Loop host inspect (failed ∷ rest) kept told s r at h = inr refl
  read_body-Loop host inspect (block b ∷ rest) kept told s r at h =
      elim (Bool-cases (length b == 0)) [
        | inl over ↦ rw over (Loop-end inspect h)
        | inr more ↦ rw more (
            read_more host inspect b rest kept told s r at h (λ s' r'' h''.
              read_body-Loop host inspect rest (kept ++ b) (told ++ shown inspect b) s' r'' at h''))
      ]
