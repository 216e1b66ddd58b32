-- ===== src/Child/Serves.antt =====
-- From the start of a worker to a request: `coraza_child_init` and `coraza_create_ctx` of
-- src/mod_coraza.c.
use coraza_apache.Base.{ℕ, List, ◌∷◌}
use coraza_apache.DlOpen.{dl_open}
use coraza_apache.Config.{DirConf}
use coraza_apache.Child.{Child, has_entries, dl_open, ok, DirConf}
use coraza_apache.Merge.{has_entries}
use coraza_apache.Request.{ok}
use coraza_apache.WafCache.Sound.{Sound}

-- The index stands in the array.
pub data Among (i : ℕ) : List ℕ → Type 0 where
  found_here : {js : List ℕ} → Among i (i ∷ js)
  found_later : {j : ℕ} {js : List ℕ} → Among i js → Among i (j ∷ js)
