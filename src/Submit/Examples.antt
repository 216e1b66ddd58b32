-- ===== src/Submit/Examples.antt =====
-- One header, which the engine takes as a batch.
use coraza_apache.Base.{[], ◌∷◌, codes, List}
use coraza_apache.Submit.{HeaderPair}
use coraza_apache.Headers.{HeaderPair}

abbrev one_header : List HeaderPair
one_header = record { name = codes "Host"; value = codes "a.b" } ∷ []
