-- ===== src/Check.antt =====
-- The test of the whole configuration, `coraza_check_config` of src/mod_coraza.c.
pub mod Verdict
pub mod Accepts
mod Examples
use coraza_apache.Base.{
  List, Option, if◌then◌else◌, Bool, ℤ, none, ◌∷◌, some, false, ◌&&◌, true, not, ltb, [], ◌||◌,
}
use coraza_apache.Directives.{ServerConf}
use coraza_apache.Config.{DirConf}
use coraza_apache.Logging.{is_enabled}
use coraza_apache.Request.{http_internal_server_error, ok}

-- A server of the configuration: its default per-directory configuration, those of its
-- <Directory> and <Location> sections if httpd's core has a record of them, and its own.
pub record Server : Type 0 where
  pub lookup_defaults : Option DirConf
  pub sections : Option (List (Option DirConf) × List (Option DirConf))
  pub conf : Option ServerConf

-- Where the module is switched on.
pub data Place : Type 0 where
  server_level in_directory in_location : Place

abbrev pub counts_rules : Option ServerConf → Bool
counts_rules none = false
counts_rules (some scf) = ltb 0 scf.rules_inline || ltb 0 scf.rules_file

-- `coraza_config_has_rules`
pub config_has_rules : List Server → Bool
config_has_rules [] = false
config_has_rules (s ∷ ss) = if counts_rules s.conf then true else config_has_rules ss

-- The loop over a vector of sections.
pub any_enabled : List (Option DirConf) → Bool
any_enabled [] = false
any_enabled (d ∷ ds) = if is_enabled d then true else any_enabled ds

abbrev pub section_place : Option (List (Option DirConf) × List (Option DirConf)) → Option Place
section_place none = none
section_place (some (sec_dir, sec_url)) =
    if any_enabled sec_dir
    then some in_directory
    else if any_enabled sec_url
    then some in_location
    else none

pub server_place : Server → Option Place
unfolding any_enabled
server_place s =
    if is_enabled s.lookup_defaults then some server_level else section_place s.sections

-- `coraza_config_enabled_where`: the place and its server.
pub config_enabled_where : List Server → Option (Place × Server)
unfolding server_place
config_enabled_where [] = none
config_enabled_where (s ∷ ss) =
    let rest = config_enabled_where ss in
    elim (server_place s) [ some p ↦ some (p, s) | none ↦ rest ]

abbrev pub is_found : Option (Place × Server) → Bool
is_found none = false
is_found (some p) = true

unfoldable pub check_config : List Server → ℤ
unfolding config_has_rules config_enabled_where
check_config s =
    if is_found (config_enabled_where s) && not (config_has_rules s)
    then http_internal_server_error
    else ok
