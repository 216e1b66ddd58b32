-- ===== src/Check/Verdict.antt =====
-- When `coraza_check_config` of src/mod_coraza.c refuses a configuration.
use coraza_apache.Base.{
  List, Option, Bool, ◌∷◌, ◌≡◌, true, ◌⊎◌, false, some, [], ◌↔◌, arith, Bool-cases, if-holds, inl,
  refl, inr, none,
}
use coraza_apache.Check.{
  any_enabled, config_has_rules, check_config, Server, server_place, config_enabled_where, is_found,
  is_enabled, Place, DirConf, counts_rules, http_internal_server_error, section_place, ok,
}
use coraza_apache.Config.{DirConf}
use coraza_apache.Logging.{is_enabled}
use coraza_apache.Request.{http_internal_server_error, ok}

-- One of the configurations is switched on.
pub data HasOn : List (Option DirConf) → Type 0 where
  on_here : {d : Option DirConf} {ds : List (Option DirConf)} → is_enabled d ≡ true → HasOn (d ∷ ds)
  on_later : {d : Option DirConf} {ds : List (Option DirConf)} → HasOn ds → HasOn (d ∷ ds)

-- The ways in which a server is switched on.
pub data SwitchedOn (s : Server) : Type 0 where
  by_default : is_enabled s.lookup_defaults ≡ true → SwitchedOn s
  by_directory :
      {dirs urls : List (Option DirConf)}
      → s.sections ≡ some (dirs, urls)
      → HasOn dirs
      → SwitchedOn s
  by_location :
      {dirs urls : List (Option DirConf)}
      → s.sections ≡ some (dirs, urls)
      → HasOn urls
      → SwitchedOn s

pub data SomeOn : List Server → Type 0 where
  this_on : {s : Server} {ss : List Server} → SwitchedOn s → SomeOn (s ∷ ss)
  later_on : {s : Server} {ss : List Server} → SomeOn ss → SomeOn (s ∷ ss)

-- No server has counted a rule.
abbrev pub Ruleless : List Server → Type 0
Ruleless [] = Unit
Ruleless (s ∷ ss) = (counts_rules s.conf ≡ false) × Ruleless ss

config_has_rules-Ruleless : (ss : List Server) → config_has_rules ss ≡ false → Ruleless ss
unfolding config_has_rules
config_has_rules-Ruleless [] h = tt
config_has_rules-Ruleless (s ∷ ss) h = elim (Bool-cases (counts_rules s.conf)) [
  | inl counted ↦ absurd (ground arith)
  | inr none_counted ↦ (none_counted, config_has_rules-Ruleless ss (rw none_counted at h))
]

Ruleless-config_has_rules : (ss : List Server) → Ruleless ss → config_has_rules ss ≡ false
unfolding config_has_rules
Ruleless-config_has_rules [] h = refl
Ruleless-config_has_rules (s ∷ ss) (here, later) = rw here (Ruleless-config_has_rules ss later)

any_enabled-HasOn : (ds : List (Option DirConf)) → any_enabled ds ≡ true → HasOn ds
unfolding any_enabled
any_enabled-HasOn [] h = absurd (ground arith)
any_enabled-HasOn (d ∷ ds) h = elim (Bool-cases (is_enabled d)) [
  | inl on ↦ on_here on
  | inr off ↦ on_later (any_enabled-HasOn ds (rw off at h))
]

HasOn-any_enabled : {ds : List (Option DirConf)} → HasOn ds → any_enabled ds ≡ true
unfolding any_enabled
HasOn-any_enabled (on_here h) = rw h refl
HasOn-any_enabled (on_later {d = d} h) =
    if-holds (λ b. b ≡ true) (is_enabled d) (λ _. refl) (λ _. HasOn-any_enabled h)

abbrev is_place : Option Place → Bool
is_place none = false
is_place (some p) = true

server_place-SwitchedOn : (s : Server) → is_place (server_place s) ≡ true → SwitchedOn s
unfolding server_place
server_place-SwitchedOn s h = elim (Bool-cases (is_enabled s.lookup_defaults)) [
  | inl on ↦ by_default on
  | inr off ↦ by_sections s.sections refl (rw off at h)
]
  where
    by_sections :
        (x : Option (List (Option DirConf) × List (Option DirConf)))
        → s.sections ≡ x
        → is_place (section_place x) ≡ true
        → SwitchedOn s
    by_sections none e k = absurd (ground arith)
    by_sections (some (dirs, urls)) e k = elim (Bool-cases (any_enabled dirs)) [
      | inl on ↦ by_directory e (any_enabled-HasOn dirs on)
      | inr off ↦ elim (Bool-cases (any_enabled urls)) [
        | inl on ↦ by_location e (any_enabled-HasOn urls on)
        | inr neither ↦ absurd (ground arith)
      ]
    ]

place_of_sections :
    (dirs urls : List (Option DirConf))
    → HasOn dirs ⊎ HasOn urls
    → is_place (section_place (some (dirs, urls))) ≡ true
place_of_sections dirs urls (inl on) = rw (HasOn-any_enabled on) refl
place_of_sections dirs urls (inr on) =
    if-holds (λ x. is_place x ≡ true) (any_enabled dirs) (λ _. refl)
      (λ _. rw (HasOn-any_enabled on) refl)

SwitchedOn-server_place : (s : Server) → SwitchedOn s → is_place (server_place s) ≡ true
unfolding server_place
SwitchedOn-server_place s on =
    if-holds (λ x. is_place x ≡ true) (is_enabled s.lookup_defaults) (λ _. refl)
      (λ off. by_way on off)
  where
    by_way :
        SwitchedOn s
        → is_enabled s.lookup_defaults ≡ false
        → is_place (section_place s.sections) ≡ true
    by_way (by_default h) off = absurd (ground arith)
    by_way (by_directory {dirs} {urls} e h) off = rw e (place_of_sections dirs urls (inl h))
    by_way (by_location {dirs} {urls} e h) off = rw e (place_of_sections dirs urls (inr h))

config_enabled_where-SomeOn :
    (ss : List Server) → is_found (config_enabled_where ss) ≡ true → SomeOn ss
unfolding config_enabled_where
config_enabled_where-SomeOn [] h = absurd (ground arith)
config_enabled_where-SomeOn (s ∷ ss) h =
    by_place (server_place s) (server_place-SwitchedOn s) (config_enabled_where-SomeOn ss) h
  where
    by_place :
        (x : Option Place)
        → (is_place x ≡ true → SwitchedOn s)
        → (is_found (config_enabled_where ss) ≡ true → SomeOn ss)
        → is_found (elim x as (λ _. Option (Place × Server)) [
          | some p ↦ some (p, s)
          | none ↦ config_enabled_where ss
        ])
          ≡ true
        → SomeOn (s ∷ ss)
    by_place none a b k = later_on (b k)
    by_place (some p) a b k = this_on (a refl)

found_place :
    (s : Server) (x : Option Place) (rest : Option (Place × Server))
    → (is_place x ≡ true) ⊎ (is_found rest ≡ true)
    → is_found (elim x as (λ _. Option (Place × Server)) [ some p ↦ some (p, s) | none ↦ rest ])
      ≡ true
found_place s none rest (inl h) = absurd (ground arith)
found_place s none rest (inr h) = h
found_place s (some p) rest h = refl

SomeOn-config_enabled_where :
    {ss : List Server} → SomeOn ss → is_found (config_enabled_where ss) ≡ true
unfolding config_enabled_where
SomeOn-config_enabled_where (this_on {s = s} h) =
    found_place s (server_place s) _ (inl (SwitchedOn-server_place s h))
SomeOn-config_enabled_where (later_on {s = s} h) =
    found_place s (server_place s) _ (inr (SomeOn-config_enabled_where h))

off_on : {b : Bool} → b ≡ false → b ≡ true → ⊥
off_on {b} h k = absurd (ground arith)

-- The configuration is refused (500) exactly when some server is switched on, by default or in a
-- section, and no server has counted a rule directive; else it is accepted (`OK`).
pub check_config_iff :
    (ss : List Server)
    → ((check_config ss ≡ http_internal_server_error) ↔ (SomeOn ss × Ruleless ss))
      × ((check_config ss ≡ http_internal_server_error) ⊎ (check_config ss ≡ ok))
unfolding check_config
check_config_iff ss = elim (Bool-cases (is_found (config_enabled_where ss))) [
  | inr nowhere ↦ simp nowhere (
    (
      (λ h. absurd (ground arith)),
      (λ h. absurd (off_on nowhere (SomeOn-config_enabled_where h.0))),
    ),
    inr refl,
  )
  | inl somewhere ↦ elim (Bool-cases (config_has_rules ss)) [
    | inl rules ↦
        simp (somewhere, rules)
          (
            (
              (λ h. absurd (ground arith)),
              (λ h. absurd (off_on (Ruleless-config_has_rules ss h.1) rules)),
            ),
            inr refl,
          )
    | inr ruleless ↦
        simp (somewhere, ruleless)
          (
            (
              λ h.
                  (config_enabled_where-SomeOn ss somewhere, config_has_rules-Ruleless ss ruleless),
              λ h. refl,
            ),
            inl refl,
          )
  ]
]
