-- ===== src/Output/Conserves.antt =====
-- The output filter of src/mod_coraza_filter_out.c neither loses, repeats nor reorders what the
-- handler produces, and a refused response sends nothing more.
use coraza_apache.Intervention.Verdict.{Refuses}
use coraza_apache.Base.{◌⊎◌, ◌≡◌, ◌++◌, [], if◌then◌else◌, true, ℤ, false, ◌∷◌}
use coraza_apache.Output.{
  Turn, go_on, leave, Step, ◌andthen◌, Request, Brigade, FilterStatus, brigade_of,
}
use coraza_apache.Request.{Brigade, Request, http_ok, http_internal_server_error}
use coraza_apache.Response.{
  FilterStatus, passed, success, filter_error, general_error, conn_aborted,
}
use coraza_apache.Body.{brigade_of}

-- What holds after a step.
abbrev pub After : (Request → Type 0) → (FilterStatus → Request → Type 0) → Turn × Request → Type 0
After Next Stop (go_on, r) = Next r
After Next Stop (leave s, r) = Stop s r

pub andthen-After :
    (Next Last : Request → Type 0) (Stop : FilterStatus → Request → Type 0) (m k : Step)
    (r : Request)
    → After Next Stop (m r)
    → ((s : Request) → Next s → After Last Stop (k s))
    → After Last Stop ((m andthen k) r)
andthen-After Next Last Stop m k r h f = go (m r) h
  where
    go :
        (x : Turn × Request)
        → After Next Stop x
        → After Last Stop (elim x.0 [ go_on ↦ k x.1 | leave s ↦ (leave s, x.1) ])
    go (go_on, s) h' = f s h'
    go (leave s, t) h' = h'

-- What the filter holds back.
abbrev pub held : Request → Brigade
held r = if r.ctx.headers_delayed then brigade_of r.ctx.pending_brigade else []

-- Neither sent nor held anything else, made no error page, and did not end a delay.
pub record Same (start r : Request) : Type 0 where
  pub same_sent : r.sent ≡ start.sent
  pub same_held : held r ≡ held start
  pub same_died : r.died ≡ start.died
  pub still_delayed : (start.ctx.headers_delayed ≡ false) ⊎ (r.ctx.headers_delayed ≡ true)

-- A response that goes on: what was sent and is held is what was, and the brigade behind it.
abbrev pub Forwarded : Brigade → Request → Request → Type 0
Forwarded bb start r = r.sent ++ held r ≡ start.sent ++ (held start ++ bb)

-- A response that is refused: nothing more is sent, what was held is gone, the filter has stepped
-- out and lets nothing be inspected twice.
pub record Cut (start r : Request) : Type 0 where
  pub nothing_sent : r.sent ≡ start.sent
  pub nothing_held : held r ≡ []
  pub flagged : r.ctx.intervention_triggered ≡ true
  pub stepped_out : r.out_filter ≡ false

-- The status of an error page: 500, or one that refuses.
abbrev pub Denies : ℤ → Type 0
Denies s = (s ≡ http_internal_server_error) ⊎ Refuses s

-- One error page more, made of a request whose status was cleared.
pub record Page (start r : Request) : Type 0 where
  pub code : ℤ
  pub denies : Denies code
  pub made : r.died ≡ (http_ok, code) ∷ start.died

abbrev pub Outcome : Brigade → Request → FilterStatus → Request → Type 0
Outcome bb start passed r = Forwarded bb start r
Outcome bb start success r = Forwarded bb start r
Outcome bb start filter_error r = Cut start r × Page start r
Outcome bb start general_error r = Cut start r × (start.ctx.headers_delayed ≡ false)
Outcome bb start conn_aborted r = Cut start r × (r.aborted ≡ true)
