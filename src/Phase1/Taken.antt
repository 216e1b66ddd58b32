-- ===== src/Phase1/Taken.antt =====
-- What the body part of `coraza_post_read_request` in src/mod_coraza_phase1.c establishes.
use coraza_apache.Base.{
  Bool-cases, Bytes, ℕ, List, if◌then◌else◌, [], ◌≡◌, true, ◌⊎◌, ◌++◌, ap, pos, sym, inl, ◌∙◌, inr,
  append-nil, ◌≤◌, arith, refl, append_assoc,
}
use coraza_apache.Phase1.{finish_replay, ask, Engine, Host, Request}
use coraza_apache.Body.{Host, brigade_of, Saving, set_saved_body}
use coraza_apache.Engine.{Engine, History, is_request_body_accessible}
use coraza_apache.Request.{Request}
use coraza_apache.Steps.Clean.{Went, Phase, told_body, IsClean, phases}
use coraza_apache.Body.Loop.{contents, body_of, Loop}
use coraza_apache.Body.Replay.{shown}
use coraza_apache.Steps.Passing.{tell-Went, Went-attached}
use coraza_apache.Body.Memory.{
  EndsWithEos, memory_bytes, finish-EndsWithEos, contents-finish, memory_bytes-finish,
}

-- The body that the client sends, if it sends one.
abbrev pub body_sent : Host → Bytes
body_sent host = if host.should_client_block then body_of host.reads else []

-- The answer of the engine that spares it the body.
abbrev pub Unread : Engine → Type 0
Unread e = (h : History) × (e.reply h is_request_body_accessible ≡ pos 0)

-- The kept body is the body as sent, ends with the end of the stream, and has at most the limit
-- in memory; the handler is given it by the replay filter.
pub record Kept (host : Host) (limit : ℕ) (r : Request) : Type 0 where
  pub replay : contents (brigade_of r.ctx.saved_body) ≡ body_of host.reads
  pub ends : EndsWithEos (brigade_of r.ctx.saved_body)
  pub memory : memory_bytes (brigade_of r.ctx.saved_body) ≤ limit
  pub filtered : r.in_filter ≡ true
  pub rereadable : r.read_length_reset ≡ true

-- Reached from `start` through the phases `ps`, the body kept and shown to the engine.
pub record Taken (e : Engine) (host : Host) (limit : ℕ) (start : Request) (ps : List Phase)
    (r : Request) : Type 0 where
  pub attached : r.attached ≡ true
  pub clean : IsClean e start.ctx.calls → IsClean e r.ctx.calls
  pub phased : phases r.ctx.calls ≡ phases start.ctx.calls ++ ps
  pub inspected :
      (told_body r.ctx.calls ≡ told_body start.ctx.calls ++ body_sent host)
      ⊎ ((told_body r.ctx.calls ≡ told_body start.ctx.calls) × Unread e)
  pub kept : host.should_client_block ≡ true → Kept host limit r
  pub watched : r.out_filter ≡ true

Kept-Went :
    {e : Engine} {ps : List Phase} {b : Bytes} {host : Host} {limit : ℕ} {r s : Request}
    → Went e ps b r s
    → Kept host limit r
    → Kept host limit s
Kept-Went {r = r} {s = s} w k =
    let same : s.ctx.saved_body ≡ r.ctx.saved_body = ap (λ x. x.ctx.saved_body) w.frame in
    record {
      replay = rw same k.replay;
      ends = rw same k.ends;
      memory = rw same k.memory;
      filtered = ap (λ x. x.in_filter) w.frame ∙ k.filtered;
      rereadable = ap (λ x. x.read_length_reset) w.frame ∙ k.rereadable;
    }

pub Taken-Went :
    {e : Engine} {host : Host} {limit : ℕ} {start : Request} {ps qs : List Phase} {r s : Request}
    → Taken e host limit start ps r
    → Went e qs [] r s
    → Taken e host limit start (ps ++ qs) s
Taken-Went {ps = ps} {qs = qs} {r = r} {s = s} t w =
    let same_told : told_body s.ctx.calls ≡ told_body r.ctx.calls = w.told ∙ append-nil _ in
    record {
      attached = Went-attached w t.attached;
      clean = λ c. w.clean (t.clean c);
      phased = w.phased ∙ ap (λ x. x ++ qs) t.phased ∙ append_assoc _ ps qs;
      inspected = rw same_told t.inspected;
      kept = λ h. Kept-Went w (t.kept h);
      watched = ap (λ x. x.out_filter) w.frame ∙ t.watched;
    }

-- What was reached before the body: only talk, and the output filter in place.
pub record Before (e : Engine) (start : Request) (ps : List Phase) (r : Request) : Type 0 where
  pub attached : r.attached ≡ true
  pub clean : IsClean e start.ctx.calls → IsClean e r.ctx.calls
  pub phased : phases r.ctx.calls ≡ phases start.ctx.calls ++ ps
  pub silent : told_body r.ctx.calls ≡ told_body start.ctx.calls
  pub watched : r.out_filter ≡ true

pub ask-Went : (e : Engine) (r : Request) → Went e [] [] r (ask e r).1
ask-Went e r =
    tell-Went e is_request_body_accessible [] [] r tt (sym (append-nil _)) (sym (append-nil _))

ask-shown :
    (e : Engine) (r : Request) (body : Bytes)
    → (shown (ask e r).0 body ≡ body) ⊎ ((shown (ask e r).0 body ≡ []) × Unread e)
ask-shown e r body = elim (Bool-cases (ask e r).0) [
  | inl yes_ ↦ inl (rw yes_)
  | inr no_ ↦ inr (rw no_, (r.ctx.calls, ground arith))
]

pub finish_replay-Taken :
    (e : Engine) (host : Host) (limit : ℕ) (start r0 r1 : Request) (ps : List Phase) (s : Saving)
    (r : Request)
    → host.should_client_block ≡ true
    → Before e start ps r0
    → Went e [] [] r0 r1
    → Loop e limit
        (set_saved_body [] r1)
        (body_of host.reads)
        (shown (ask e r0).0 (body_of host.reads))
        s
        r
    → Taken e host limit start ps (finish_replay s r)
finish_replay-Taken e host limit start r0 r1 ps s r body before asked loop =
    let saved = brigade_of r.ctx.saved_body in
    let sh = shown (ask e r0).0 (body_of host.reads) in
    let base : told_body r.ctx.calls ≡ told_body start.ctx.calls ++ sh =
      loop.telling ∙ ap (λ x. x ++ sh) (asked.told ∙ append-nil _ ∙ before.silent) in
    record {
      attached = ap (λ x. x.attached) loop.frame ∙ Went-attached asked before.attached;
      clean = λ c. loop.clean (asked.clean (before.clean c));
      phased = loop.phased ∙ asked.phased ∙ append-nil _ ∙ before.phased;
      inspected = elim (ask-shown e r0 (body_of host.reads)) [
        | inl all ↦ inl (base ∙ ap (λ x. told_body start.ctx.calls ++ x) (rw body all))
        | inr (nothing, unread) ↦
            inr (base ∙ ap (λ x. told_body start.ctx.calls ++ x) nothing ∙ append-nil _, unread)
      ];
      kept = λ _. record {
        replay = contents-finish saved s ∙ loop.keeping;
        ends = finish-EndsWithEos (brigade_of r.ctx.saved_body) s;
        memory = memory_bytes-finish saved s limit (omega (arith, loop.memory, loop.bounded));
        filtered = refl;
        rereadable = refl;
      };
      watched =
          ap (λ x. x.out_filter) loop.frame ∙ ap (λ x. x.out_filter) asked.frame ∙ before.watched;
    }
