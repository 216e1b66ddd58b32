-- ===== src/Submit/Complete.antt =====
-- No header is lost on the way to the engine: src/mod_coraza_phase1.c and
-- src/mod_coraza_filter_out.c, with `coraza_pack_headers` of src/mod_coraza.c.
use coraza_apache.Base.{ℕ, true, some, List, [], ◌∷◌, Bytes, ◌≡◌, ◌⊎◌, ◌≤◌, pos, arith, length}
use coraza_apache.Engine.{History, Engine}
use coraza_apache.Headers.{HeaderPair, int_max}
use coraza_apache.Headers.RoundTrip.{unpack_headers}
use coraza_apache.Request.{Request, tell}
use coraza_apache.Submit.{HeaderCalls, submit_each}

module _ (e : Engine) (calls : HeaderCalls) where
  -- One accepted call for each header, in order, with lengths that fit an int.
  abbrev pub EachTold : History → List HeaderPair → History → Type 0
  EachTold h [] h' = h' ≡ h
  EachTold h (p ∷ ps) h' =
      (length p.name ≤ int_max)
      × (length p.value ≤ int_max)
      × (e.reply h (calls.single p.name p.value) ≡ pos 0)
      × EachTold (calls.single p.name p.value ∷ h) ps h'

  -- One accepted batch, which reads back as the headers.
  pub record BulkTold (h : History) (ps : List HeaderPair) (h' : History) : Type 0 where
    pub packed : Bytes
    pub packed_len : ℕ
    pub whole : packed_len ≡ length packed
    pub reads_back : unpack_headers (length ps) packed ≡ some ps
    pub accepted : e.reply h (calls.bulk packed packed_len (length ps)) ≡ pos 0
    pub grows : h' ≡ calls.bulk packed packed_len (length ps) ∷ h

  -- The headers one by one, after a batch that could not be built or was rejected.
  abbrev pub FallbackTold : History → List HeaderPair → History → Type 0
  FallbackTold h ps h' =
      EachTold h ps h'
      ⊎ ((packed : Bytes) × (unpack_headers (length ps) packed ≡ some ps)
          × EachTold (calls.bulk packed (length packed) (length ps) ∷ h) ps h')

  -- One round of the loop that did not fail.
  pub submit_each_step :
      (p : HeaderPair) (ps : List HeaderPair) (r : Request)
      → (submit_each e calls (p ∷ ps) r).0 ≡ true
      → (length p.name ≤ int_max)
        × (length p.value ≤ int_max)
        × (e.reply r.ctx.calls (calls.single p.name p.value) ≡ pos 0)
        × (submit_each e calls (p ∷ ps) r
            ≡ submit_each e calls ps (tell e (calls.single p.name p.value) r).1)
  unfolding submit_each
  submit_each_step p ps r h = ground arith
