-- ===== src/Output/Examples.antt =====
-- An HTML page in two brigades, held back and released, behind an engine that inspects it.
use coraza_apache.Base.{refl, some, none, [], ◌∷◌, codes, pos, true, false, ℤ, arith}
use coraza_apache.Engine.{
  Engine, History, Call, is_response_body_accessible, is_response_body_processable,
}
use coraza_apache.Output.{output_filter, Request}
use coraza_apache.Output.Conserves.{After, Outcome}
use coraza_apache.Output.Phase3.{WellFormed, output_filter-Outcome}
use coraza_apache.Request.{Brigade, heap, eos, Request}
use coraza_apache.Response.{Response}
use coraza_apache.Samples.{new_request}
use coraza_apache.Obeys.{Settled}
use coraza_apache.Output.Settled.{Obeyed}
use coraza_apache.Output.Obeyed.{output_filter-Obeyed}
use coraza_apache.Output.Delay.{Bounded, delay_of}
use coraza_apache.Output.Capped.{output_filter-Bounded}
use coraza_apache.Output.Released.{Released, output_filter-Released}

abbrev html : Response
html = record {
  headers_out = record { key = some (codes "Server"); val = some (codes "x") } ∷ [];
  err_headers_out = [];
  content_type = some (codes "text/html");
  protocol = some (codes "HTTP/1.1");
  header_only = false;
  is_subrequest = false;
  save_ok = true;
}

abbrev reads_responses : History → Call → ℤ
reads_responses h is_response_body_accessible = pos 1
reads_responses h is_response_body_processable = pos 1
reads_responses h _ = pos 0

abbrev inspecting : Engine
inspecting = record { reply = reads_responses; queued = λ h. none }

abbrev page : Brigade
page = heap (codes "<p>") ∷ eos ∷ []

new_request-WellFormed : WellFormed new_request
new_request-WellFormed = record { not_begun = λ _. refl; refused = λ _. refl }

output_filter-Outcome_example :
    After (λ _. ⊥) (Outcome page new_request) (output_filter inspecting html page new_request)
output_filter-Outcome_example =
    output_filter-Outcome inspecting html page new_request new_request-WellFormed

new_request-Settled : Settled inspecting new_request
new_request-Settled = record { attached = refl; heard = tt; none_pending = refl }

output_filter-Obeyed_example :
    After (λ _. ⊥) (Obeyed inspecting) (output_filter inspecting html page new_request)
output_filter-Obeyed_example =
    output_filter-Obeyed inspecting html page new_request new_request-Settled

new_request-Bounded : Bounded (delay_of new_request)
new_request-Bounded = record {
  not_begun = λ _. (refl, refl);
  undelayed = λ _. refl;
  counted = λ h. absurd (ground arith);
}

output_filter-Bounded_example :
    After (λ _. ⊥) (λ _ s. Bounded (delay_of s)) (output_filter inspecting html page new_request)
output_filter-Bounded_example =
    output_filter-Bounded inspecting html page new_request new_request-Bounded

-- The same response with its first piece held back.
abbrev holding : Request
holding = record new_request {
  ctx = record (new_request.ctx) {
    phase3_done = true;
    headers_delayed = true;
    response_body_processable = true;
    pending_brigade = some (heap (codes "<html>") ∷ []);
    pending_len = 6;
  };
}

output_filter-Released_example :
    After (λ _. ⊥) (Released inspecting) (output_filter inspecting html page holding)
output_filter-Released_example = output_filter-Released inspecting html page holding refl refl refl
