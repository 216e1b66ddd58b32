-- ===== src/Response/Examples.antt =====
-- Content types that stream, and one that only begins like one.
use coraza_apache.Base.{◌≡◌, refl, some, codes, true, false, bytes_eq}
use coraza_apache.Response.{is_sse_response, is_sse_type, is_parameter_list}

with_charset : is_sse_response (some (codes "Text/Event-Stream ; charset=utf-8")) ≡ true
unfolding is_sse_response is_sse_type is_parameter_list bytes_eq
with_charset = refl

longer_type : is_sse_response (some (codes "text/event-streams")) ≡ false
unfolding is_sse_response is_sse_type is_parameter_list bytes_eq
longer_type = refl
