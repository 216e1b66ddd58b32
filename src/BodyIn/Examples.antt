-- ===== src/BodyIn/Examples.antt =====
-- A handler that reads a body of five bytes.
use coraza_apache.Base.{refl, [], ◌∷◌, codes, pos, some, ◌≡◌, ◌++◌, arith}
use coraza_apache.BodyIn.{input_filter, Below, speculative, apr_success, pieces}
use coraza_apache.BodyIn.Delivers.{Delivered, input_filter-Delivered}
use coraza_apache.BodyIn.Instance.{cutting, cutting-AprLaws, cutting-NeverFails}
use coraza_apache.Request.{Brigade, Request, heap, eos}
use coraza_apache.Samples.{new_request}
use coraza_apache.BodyIn.Reads.{read_on, read_on-pieces}
use coraza_apache.Body.{brigade_of}

abbrev nothing_below : Below
nothing_below mode n bb = (apr_success, bb)

abbrev five_bytes : Brigade
five_bytes = heap (codes "a=1&b") ∷ eos ∷ []

abbrev with_body : Request
with_body = record new_request { ctx = record (new_request.ctx) { saved_body = some five_bytes } }

input_filter-Delivered_example :
    Delivered cutting cutting-AprLaws nothing_below speculative
      (pos 2)
      []
      five_bytes
      with_body
      (input_filter cutting nothing_below speculative (pos 2) [] with_body)
input_filter-Delivered_example =
    input_filter-Delivered cutting cutting-AprLaws nothing_below speculative (pos 2) []
      (heap (codes "a=1&b")) (eos ∷ []) with_body refl refl

read_on-pieces_example :
    let (bb', r') = read_on cutting nothing_below 1 6 [] with_body in
    (pieces bb' ≡ pieces [] ++ pieces five_bytes) × (brigade_of r'.ctx.saved_body ≡ [])
read_on-pieces_example =
    read_on-pieces cutting cutting-AprLaws cutting-NeverFails nothing_below 1 6 [] five_bytes
      with_body refl refl (omega arith)
