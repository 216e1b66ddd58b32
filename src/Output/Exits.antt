-- ===== src/Output/Exits.antt =====
-- How the steps of the output filter in src/mod_coraza_filter_out.c end.
use coraza_apache.Base.{
  ◌≡◌, refl, Bool-cases, ℤ, inl, true, false, inr, ◌++◌, append-nil, ◌∙◌, if_true, arith, ◌∷◌, ap,
}
use coraza_apache.Output.{
  leaving, flush_early, fail_closed_headers, fail_closed_response, Brigade, refuse_response,
  Request, brigade_of, refuse_clean,
}
use coraza_apache.Output.Conserves.{Same, Outcome, After, held, Denies, Page}
use coraza_apache.Request.{Brigade, Request, http_internal_server_error, http_ok}
use coraza_apache.Response.{
  refuse_response, fail_closed_headers, fail_closed_response, drop_response, refuse_clean,
}
use coraza_apache.Body.{brigade_of}

undelayed_start :
    (start r : Request)
    → Same start r
    → r.ctx.headers_delayed ≡ false
    → start.ctx.headers_delayed ≡ false
undelayed_start start r h out = elim h.still_delayed [
  | inl never ↦ never
  | inr delayed ↦ absurd (ground arith)
]

die-Page :
    (start r : Request) (code : ℤ)
    → Denies code
    → Same start r
    → {s : Request} → s.died ≡ (http_ok, code) ∷ r.died
    → Page start s
die-Page start r code d h e = record {
  code = code;
  denies = d;
  made = e ∙ ap (λ x. (http_ok, code) ∷ x) h.same_died;
}

pub fail_closed_response-Outcome :
    (bb : Brigade) (start r : Request)
    → Same start r
    → After (Same start) (Outcome bb start) (leaving (fail_closed_response r))
unfolding fail_closed_response
fail_closed_response-Outcome bb start r h = elim (Bool-cases r.ctx.headers_delayed) [
  | inl delayed ↦ rw delayed (
    record { nothing_sent = h.same_sent; nothing_held = refl; flagged = refl; stepped_out = refl },
    die-Page start r http_internal_server_error (inl refl) h refl,
  )
  | inr out ↦ rw out (
    record { nothing_sent = h.same_sent; nothing_held = refl; flagged = refl; stepped_out = refl },
    undelayed_start start r h out,
  )
]

pub drop_response-Outcome :
    (bb : Brigade) (start r : Request)
    → Same start r
    → After (Same start) (Outcome bb start) (leaving (drop_response r))
unfolding drop_response
drop_response-Outcome bb start r h = elim (Bool-cases r.ctx.headers_delayed) [
  | inl delayed ↦ rw delayed (
    record { nothing_sent = h.same_sent; nothing_held = refl; flagged = refl; stepped_out = refl },
    refl,
  )
  | inr out ↦ rw out (
    record { nothing_sent = h.same_sent; nothing_held = refl; flagged = refl; stepped_out = refl },
    refl,
  )
]

pub refuse_response_drop :
    (ret : ℤ) (r : Request) → r.ctx.drop_connection ≡ true → refuse_response ret r ≡ drop_response r
unfolding refuse_response
refuse_response_drop ret r h = if_true r.ctx.drop_connection _ _ h

pub refuse_response-Outcome :
    (bb : Brigade) (ret : ℤ) (start r : Request)
    → Denies ret
    → Same start r
    → After (Same start) (Outcome bb start) (leaving (refuse_response ret r))
unfolding refuse_response
refuse_response-Outcome bb ret start r denies h = elim (Bool-cases r.ctx.drop_connection) [
  | inl drop ↦ rw (refuse_response_drop ret r drop) (drop_response-Outcome bb start r h)
  | inr page ↦ elim (Bool-cases r.ctx.headers_delayed) [
    | inl delayed ↦
        simp (page, delayed)
          (
            record {
              nothing_sent = h.same_sent;
              nothing_held = refl;
              flagged = refl;
              stepped_out = refl;
            },
            die-Page start r ret denies h refl,
          )
    | inr out ↦
        simp (page, out)
          (
            record {
              nothing_sent = h.same_sent;
              nothing_held = refl;
              flagged = refl;
              stepped_out = refl;
            },
            undelayed_start start r h out,
          )
  ]
]

pub refuse_clean_drop :
    (ret : ℤ) (r : Request) → r.ctx.drop_connection ≡ true → refuse_clean ret r ≡ drop_response r
unfolding refuse_clean
refuse_clean_drop ret r h = if_true r.ctx.drop_connection _ _ h

pub refuse_clean-Outcome :
    (bb : Brigade) (ret : ℤ) (start r : Request)
    → Denies ret
    → Same start r
    → r.ctx.headers_delayed ≡ false
    → After (Same start) (Outcome bb start) (leaving (refuse_clean ret r))
unfolding refuse_clean
refuse_clean-Outcome bb ret start r denies h out = elim (Bool-cases r.ctx.drop_connection) [
  | inl drop ↦ rw (refuse_clean_drop ret r drop) (drop_response-Outcome bb start r h)
  | inr page ↦ simp page (
    record {
      nothing_sent = h.same_sent;
      nothing_held = rw out;
      flagged = refl;
      stepped_out = refl;
    },
    die-Page start r ret denies h refl,
  )
]

pub fail_closed_headers-Outcome :
    (bb : Brigade) (start r : Request)
    → Same start r
    → r.ctx.headers_delayed ≡ false
    → After (Same start) (Outcome bb start) (leaving (fail_closed_headers r))
unfolding fail_closed_headers
fail_closed_headers-Outcome bb start r h out = (
  record { nothing_sent = h.same_sent; nothing_held = rw out; flagged = refl; stepped_out = refl },
  die-Page start r http_internal_server_error (inl refl) h refl,
)

pub flush_early-Outcome :
    (bb : Brigade) (start r : Request)
    → Same start r
    → r.ctx.headers_delayed ≡ true
    → After (Same start) (Outcome bb start) (flush_early bb r)
unfolding flush_early
flush_early-Outcome bb start r h delayed = append-nil _ ∙ forwards
  where
    forwards : r.sent ++ (brigade_of r.ctx.pending_brigade ++ bb) ≡ start.sent ++ (held start ++ bb)
    forwards = rw (← h.same_sent, ← h.same_held) (simp delayed)
