-- ===== src/Headers/Examples.antt =====
-- Header packing on a request with two headers.
use coraza_apache.Base.{◌≡◌, refl, some, none, List, [], ◌∷◌, codes, arith, Bytes, length, ◌≤◌, ◌≢◌}
use coraza_apache.Headers.{HeaderPair, int_max, write_loop, pack_headers}
use coraza_apache.Headers.Limits.{wire_size, pack_headers_total, NamesFit, pack_headers_bounds}
use coraza_apache.Headers.RoundTrip.{unpack_headers, unpack-pack_headers}

abbrev host_header : HeaderPair
host_header = record { name = codes "Host"; value = codes "a.b" }

abbrev two_headers : List HeaderPair
two_headers = host_header ∷ record { name = codes "X"; value = [] } ∷ []

abbrev two_headers_packed : Bytes
two_headers_packed =
    0 ∷ 4 ∷ 72 ∷ 111 ∷ 115 ∷ 116 ∷ 0 ∷ 0 ∷ 0 ∷ 3 ∷ 97 ∷ 46 ∷ 98 ∷ 0 ∷ 1 ∷ 88 ∷ 0 ∷ 0 ∷ 0 ∷ 0 ∷ []

pack_two_headers : pack_headers two_headers ≡ some (two_headers_packed, 20)
unfolding pack_headers write_loop
pack_two_headers = refl

pack_no_header : pack_headers [] ≡ none
unfolding pack_headers
pack_no_header = refl

unpack-pack_headers_example : unpack_headers 2 two_headers_packed ≡ some two_headers
unpack-pack_headers_example = unpack-pack_headers two_headers pack_two_headers

pack_headers_total_example :
    pack_headers two_headers ≡ some (write_loop two_headers, wire_size two_headers)
pack_headers_total_example =
    pack_headers_total two_headers (omega arith) (omega arith) (ground arith)

pack_headers_bounds_example :
    (length two_headers_packed ≡ 20) × (20 ≤ int_max) × NamesFit two_headers × (two_headers ≢ [])
pack_headers_bounds_example = pack_headers_bounds two_headers pack_two_headers
