-- ===== src/Output/Delay.antt =====
-- The header delay of src/mod_coraza_filter_out.c: what `coraza_output_filter` keeps true of
-- `pending_brigade`, `pending_len` and `headers_delayed`, and phase 4 of it.
use coraza_apache.Base.{
  ◌≡◌, refl, ap, true, false, inl, inr, Bool-cases, [], Bool, length, ◌+◌, ◌≤◌, arith, ℕ, Option, ℤ,
}
use coraza_apache.Output.Conserves.{After, andthen-After}
use coraza_apache.Response.{FilterStatus, refuse_response, fail_closed_response, drop_response}
use coraza_apache.Body.Loop.{contents}
use coraza_apache.Body.{brigade_of}
use coraza_apache.Intervention.Frame.{process_intervention-touched}
use coraza_apache.Request.{Request, Brigade}
use coraza_apache.Output.{
  Turn, max_delayed_body, refuse_response, Step, fail_closed_response, process_intervention,
  leaving, ◌andthen◌,
}
use coraza_apache.Engine.{Engine}
use coraza_apache.Intervention.{process_intervention}
use coraza_apache.Output.Exits.{refuse_response_drop}

-- The part of the state that the delay is about.
pub record Delay : Type 0 where
  pub begun : Bool
  pub refused : Bool
  pub delayed : Bool
  pub pending : Option Brigade
  pub pending_len : ℕ

abbrev pub delay_of : Request → Delay
delay_of r = record {
  begun = r.ctx.phase3_done;
  refused = r.ctx.intervention_triggered;
  delayed = r.ctx.headers_delayed;
  pending = r.ctx.pending_brigade;
  pending_len = r.ctx.pending_len;
}

-- What is held back and the buckets `done` of the current brigade are counted, and within the cap.
pub record Counted (done : Brigade) (pending : Option Brigade) (len : ℕ) : Type 0 where
  pub exact : len ≡ length (contents (brigade_of pending)) + length (contents done)
  pub capped : len ≤ max_delayed_body

-- Between two calls of the filter.
pub record Bounded (d : Delay) : Type 0 where
  pub not_begun : d.begun ≡ false → (d.delayed ≡ false) × (d.pending_len ≡ 0)
  pub undelayed : d.refused ≡ true → d.delayed ≡ false
  pub counted : d.delayed ≡ true → Counted [] d.pending d.pending_len

-- Within a call, in phase 4.
pub record Running (done : Brigade) (d : Delay) : Type 0 where
  pub running : d.begun ≡ true
  pub not_refused : d.refused ≡ false
  pub counting : d.delayed ≡ true → Counted done d.pending d.pending_len

-- A call may end once the delay is over.
pub over-Bounded : (d : Delay) → d.begun ≡ true → d.delayed ≡ false → Bounded d
over-Bounded d b o = record {
  not_begun = λ h. absurd (ground arith);
  undelayed = λ _. o;
  counted = λ h. absurd (ground arith);
}

abbrev pub Leaves : FilterStatus → Request → Type 0
Leaves s r = Bounded (delay_of r)

module _ (Next : Request → Type 0) where
  pub fail_response :
      (r : Request)
      → r.ctx.phase3_done ≡ true
      → After Next Leaves (leaving (fail_closed_response r))
  unfolding fail_closed_response
  fail_response r b = elim (Bool-cases r.ctx.headers_delayed) [
    | inl delayed ↦ simp delayed (over-Bounded _ b refl)
    | inr out ↦ simp out (over-Bounded _ b refl)
  ]

  pub drop_all :
      (r : Request) → r.ctx.phase3_done ≡ true → After Next Leaves (leaving (drop_response r))
  unfolding drop_response
  drop_all r b = elim (Bool-cases r.ctx.headers_delayed) [
    | inl delayed ↦ simp delayed (over-Bounded _ b refl)
    | inr out ↦ simp out (over-Bounded _ b refl)
  ]

  pub refuse_body :
      (ret : ℤ) (r : Request)
      → r.ctx.phase3_done ≡ true
      → After Next Leaves (leaving (refuse_response ret r))
  unfolding refuse_response
  refuse_body ret r b = elim (Bool-cases r.ctx.drop_connection) [
    | inl drop ↦ rw (refuse_response_drop ret r drop) (drop_all r b)
    | inr page ↦ elim (Bool-cases r.ctx.headers_delayed) [
      | inl delayed ↦ simp (page, delayed) (over-Bounded _ b refl)
      | inr out ↦ simp (page, out) (over-Bounded _ b refl)
    ]
  ]

abbrev pub Runs : Brigade → Turn × Request → Type 0
Runs done = After (λ r. Running done (delay_of r)) Leaves

abbrev pub Finishes : Turn × Request → Type 0
Finishes = After (λ _. ⊥) Leaves

pub Running-next :
    (done : Brigade) (r s : Request)
    → delay_of s ≡ delay_of r
    → Running done (delay_of r)
    → Running done (delay_of s)
Running-next done r s e h = rw e h

pub seq :
    (done more : Brigade) (m k : Step) (r : Request)
    → Runs done (m r)
    → ((s : Request) → Running done (delay_of s) → Runs more (k s))
    → Runs more ((m andthen k) r)
seq done more m k r h f =
    andthen-After (λ s. Running done (delay_of s)) (λ s. Running more (delay_of s)) Leaves m k r h f

pub intervention-delay :
    (e : Engine) (r : Request) → delay_of (process_intervention e false r).1 ≡ delay_of r
intervention-delay e r = ap delay_of (process_intervention-touched e false r)
