-- ===== src/Body/Loop.antt =====
-- What the read loop of `coraza_post_read_request` in src/mod_coraza_phase1.c keeps true, and that
-- keeping a block keeps it true.
use coraza_apache.Base.{
  Bool-cases, Option-cases, List, Option, ℤ, ◌++◌, ℕ, Bytes, [], ◌∷◌, ◌⊎◌, ◌≡◌, some, if◌then◌else◌,
  length, sym, true, append_assoc, ◌≤◌, refl, ◌==◌, none, inl, ap, inr, ◌∙◌, ◌+◌, append-nil, arith,
  length-append,
}
use coraza_apache.Body.{
  Read, block, failed, Host, Saving, Brigade, Engine, Request, write_spool, save_in_memory,
  brigade_of, heap, fits_in_memory, http_bad_request, file, set_saved_body, save_block,
  opened_spool, save_in_file, write_opened,
}
use coraza_apache.Flow.{Post}
use coraza_apache.Steps.Clean.{Refused, IsClean, phases, told_body, failed_closed}
use coraza_apache.Engine.{Engine, History}
use coraza_apache.Request.{Brigade, Request, http_bad_request, eos, metadata, broken}

-- The bytes that a reader of a brigade gets.
abbrev pub contents : Brigade → Bytes
contents [] = []
contents (heap b ∷ bs) = b ++ contents bs
contents (file b ∷ bs) = b ++ contents bs
contents (_ ∷ bs) = contents bs

abbrev pub bytes_of : Option Bytes → Bytes
bytes_of none = []
bytes_of (some b) = b

-- The body as the client sent it: the blocks up to the end.
abbrev pub body_of : List Read → Bytes
body_of [] = []
body_of (failed ∷ rest) = []
body_of (block b ∷ rest) = if length b == 0 then [] else b ++ body_of rest

pub contents-append : (xs ys : Brigade) → contents (xs ++ ys) ≡ contents xs ++ contents ys
contents-append [] ys = refl
contents-append (heap b ∷ xs) ys =
    rw (contents-append xs ys) (sym (append_assoc b (contents xs) (contents ys)))
contents-append (file b ∷ xs) ys =
    rw (contents-append xs ys) (sym (append_assoc b (contents xs) (contents ys)))
contents-append (eos ∷ xs) ys = contents-append xs ys
contents-append (metadata ∷ xs) ys = contents-append xs ys
contents-append (broken ∷ xs) ys = contents-append xs ys

-- The request after a step that talked to the engine and kept body bytes.
abbrev pub with_body : History → Option Brigade → Request → Request
with_body h saved r = record r { ctx = record (r.ctx) { calls = h; saved_body = saved } }

-- The loop has kept `kept` and told the engine `told`, having begun at the request `start`.
pub record Loop (e : Engine) (limit : ℕ) (start : Request) (kept told : Bytes) (s : Saving)
    (r : Request) : Type 0 where
  pub frame : r ≡ with_body r.ctx.calls r.ctx.saved_body start
  pub clean : IsClean e start.ctx.calls → IsClean e r.ctx.calls
  pub phased : phases r.ctx.calls ≡ phases start.ctx.calls
  pub telling : told_body r.ctx.calls ≡ told_body start.ctx.calls ++ told
  pub keeping : contents (brigade_of r.ctx.saved_body) ++ bytes_of s.spool ≡ kept
  pub memory : length (contents (brigade_of r.ctx.saved_body)) ≡ s.saved_len
  pub bounded : s.saved_len ≤ limit
  pub spooled : s.spool_len ≡ length (bytes_of s.spool)

-- The loop stops as every step does, or on a read error with status 400.
abbrev pub LoopStop : ℤ → Request → Type 0
LoopStop s r = Refused s r ⊎ (s ≡ http_bad_request)

fits_in_memory_lem :
    (limit : ℕ) (b : Bytes) (s : Saving)
    → fits_in_memory limit b s ≡ true
    → (s.spool ≡ none) × (s.saved_len + length b ≤ limit)
unfolding fits_in_memory
fits_in_memory_lem limit b s h = ground arith

-- A block behind what is in memory, while no file is open.
append_in_memory :
    (saved : Brigade) (b kept : Bytes) (spool : Option Bytes)
    → spool ≡ none
    → contents saved ++ bytes_of spool ≡ kept
    → contents (saved ++ heap b ∷ []) ++ bytes_of spool ≡ kept ++ b
append_in_memory saved b kept none empty h =
    rw (contents-append saved (heap b ∷ []))
      (simp append-nil (ap (λ x. x ++ b) (sym (append-nil (contents saved)) ∙ h)))
append_in_memory saved b kept (some f) empty h = absurd (ground arith)

module _ (e : Engine) (host : Host) (limit : ℕ) (start : Request) where
  save_in_memory-Loop :
      (b kept told : Bytes) (s : Saving) (r : Request)
      → Loop e limit start kept told s r
      → fits_in_memory limit b s ≡ true
      → Post (Loop e limit start (kept ++ b) told) LoopStop (save_in_memory host b s r)
  unfolding save_in_memory fits_in_memory
  save_in_memory-Loop b kept told s r h fits =
      let (empty, room) = fits_in_memory_lem limit b s fits in
      let saved = brigade_of r.ctx.saved_body in
      elim (Bool-cases (host.brigade_write (brigade_of r.ctx.saved_body) b)) [
        | inl written ↦ rw written (record {
          frame = ap (λ x. set_saved_body (brigade_of r.ctx.saved_body ++ heap b ∷ []) x) h.frame;
          clean = h.clean;
          phased = h.phased;
          telling = h.telling;
          keeping = append_in_memory saved b kept s.spool empty h.keeping;
          memory = omega (
            arith,
            ap length (contents-append saved (heap b ∷ [])),
            length-append (contents saved) (b ++ []),
            ap length (append-nil b),
            h.memory,
          );
          bounded = room;
          spooled = h.spooled;
        })
        | inr refused ↦ rw refused (inl (refl, failed_closed refl))
      ]

  write_spool-Loop :
      (b kept told contents' : Bytes) (s : Saving) (r : Request)
      → Loop e limit start kept told s r
      → bytes_of s.spool ≡ contents'
      → Post (Loop e limit start (kept ++ b) told) LoopStop (write_spool host b s contents' r)
  unfolding write_spool
  write_spool-Loop b kept told contents' s r h same =
      elim (Bool-cases (host.file_write contents' b)) [
        | inl written ↦ rw written (record {
          frame = h.frame;
          clean = h.clean;
          phased = h.phased;
          telling = h.telling;
          keeping =
              sym (append_assoc (contents (brigade_of r.ctx.saved_body)) contents' b)
              ∙ ap (λ x. x ++ b) (rw (← same) h.keeping);
          memory = h.memory;
          bounded = h.bounded;
          spooled = omega (arith, h.spooled, ap length same, length-append contents' b);
        })
        | inr refused ↦ rw refused (inl (refl, failed_closed refl))
      ]

  opened_spool_lem :
      (spool : Option Bytes) {contents' : Bytes}
      → opened_spool host spool ≡ some contents'
      → bytes_of spool ≡ contents'
  unfolding opened_spool
  opened_spool_lem none h = ground arith
  opened_spool_lem (some f) h = ground arith

  save_in_file-Loop :
      (b kept told : Bytes) (s : Saving) (r : Request)
      → Loop e limit start kept told s r
      → Post (Loop e limit start (kept ++ b) told) LoopStop (save_in_file host b s r)
  unfolding save_in_file
  save_in_file-Loop b kept told s r h = elim (Option-cases (opened_spool host s.spool)) [
    | inl closed ↦ rw (closed, write_opened) (inl (refl, failed_closed refl))
    | inr (contents', opened) ↦
        rw (opened, write_opened)
          (write_spool-Loop b kept told contents' s r h (opened_spool_lem s.spool opened))
  ]

  pub save_block-Loop :
      (b kept told : Bytes) (s : Saving) (r : Request)
      → Loop e limit start kept told s r
      → Post (Loop e limit start (kept ++ b) told) LoopStop (save_block host limit b s r)
  unfolding save_block
  save_block-Loop b kept told s r h = elim (Bool-cases (fits_in_memory limit b s)) [
    | inl fits ↦ rw fits (save_in_memory-Loop b kept told s r h fits)
    | inr full ↦ rw full (save_in_file-Loop b kept told s r h)
  ]
