-- ===== src/Body/Settled.antt =====
-- Reading, keeping and inspecting the request body in src/mod_coraza_phase1.c obeys the engine.
use coraza_apache.Base.{
  true, false, inl, inr, Bool-cases, [], ◌∷◌, List, Option, none, some, Bytes, ℕ, Bool, length,
  ◌==◌,
}
use coraza_apache.Obeys.{Settled}
use coraza_apache.Steps.{submit, intervene}
use coraza_apache.Engine.{Engine, append_request_body}
use coraza_apache.Request.{Request}
use coraza_apache.Body.{
  write_spool, inspect_block, save_block, write_opened, save_in_memory, save_in_file, Host,
  read_body, Saving, Read, brigade_of, fits_in_memory, append_request_body, block, failed,
  opened_spool,
}
use coraza_apache.Obeys.Flow.{Settles, seq, seq_poll, submit-Speaks, intervene-Settles}

module _ (e : Engine) where
  -- Keeping a block says nothing to the engine.
  save_in_memory-Settles :
      (host : Host) (b : Bytes) (s : Saving) (r : Request)
      → Settled e r
      → Settles e (save_in_memory host b s r)
  unfolding save_in_memory
  save_in_memory-Settles host b s r h =
      elim (Bool-cases (host.brigade_write (brigade_of r.ctx.saved_body) b)) [
        | inl written ↦
            rw written
              (record { attached = h.attached; heard = h.heard; none_pending = h.none_pending })
        | inr refused ↦ rw refused tt
      ]

  write_spool-Settles :
      (host : Host) (b contents : Bytes) (s : Saving) (r : Request)
      → Settled e r
      → Settles e (write_spool host b s contents r)
  unfolding write_spool
  write_spool-Settles host b contents s r h = elim (Bool-cases (host.file_write contents b)) [
    | inl written ↦ rw written h
    | inr refused ↦ rw refused tt
  ]

  write_opened-Settles :
      (host : Host) (b : Bytes) (s : Saving) (opened : Option Bytes) (r : Request)
      → Settled e r
      → Settles e (write_opened host b s opened r)
  unfolding write_opened
  write_opened-Settles host b s none r h = tt
  write_opened-Settles host b s (some contents) r h = write_spool-Settles host b contents s r h

  save_block-Settles :
      (host : Host) (limit : ℕ) (b : Bytes) (s : Saving) (r : Request)
      → Settled e r
      → Settles e (save_block host limit b s r)
  unfolding save_block save_in_file
  save_block-Settles host limit b s r h = elim (Bool-cases (fits_in_memory limit b s)) [
    | inl fits ↦ rw fits (save_in_memory-Settles host b s r h)
    | inr full ↦ rw full (write_opened-Settles host b s (opened_spool host s.spool) r h)
  ]

  inspect_block-Settles :
      (inspect : Bool) (b : Bytes) (r : Request)
      → Settled e r
      → Settles e (inspect_block e inspect b r)
  unfolding inspect_block
  inspect_block-Settles true b r h =
      seq_poll e (submit e (append_request_body b)) (intervene e) r
        (submit-Speaks e (append_request_body b) r (λ x. x) h) (intervene-Settles e)
  inspect_block-Settles false b r h = h

  pub read_body-Settles :
      (host : Host) (limit : ℕ) (inspect : Bool) (reads : List Read) (s : Saving) (r : Request)
      → Settled e r
      → Settles e (read_body e host limit inspect reads s r)
  unfolding read_body
  read_body-Settles host limit inspect [] s r h = h
  read_body-Settles host limit inspect (failed ∷ rest) s r h = tt
  read_body-Settles host limit inspect (block b ∷ rest) s r h = elim (Bool-cases (length b == 0)) [
    | inl over ↦ rw over h
    | inr more ↦ rw more (
        seq e (save_block host limit b s) _ r (save_block-Settles host limit b s r h) (λ s' t k.
          seq e (inspect_block e inspect b) _ t (inspect_block-Settles inspect b t k)
            (λ _ u l. read_body-Settles host limit inspect rest s' u l)))
  ]
