-- ===== src/RulesScan/Examples.antt =====
-- Rule texts that are refused and that are not.
use coraza_apache.RulesScan.{
  Files, check_rules_text, check_rules_file, scan, scan_init, scan_done, finish, chunk, at_eof,
}
use coraza_apache.Base.{
  bytes_eq, Bytes, codes, some, ◌≡◌, ◌++◌, ◌∷◌, refl, none, arith, true, ◌↔◌, inr, inl,
}
use coraza_apache.RulesScan.Chunks.{file_check, check_rules_file-check_rules_text}
use coraza_apache.RulesScan.Bounds.{scan-InBounds, InBounds}
use coraza_apache.RulesScan.Letters.{SameWord}
use coraza_apache.RulesScan.Line.{is_refused, check_rules_text_iff}

abbrev refused_text : Bytes
refused_text = codes "# remote\n SECREMOTERULES k https://example.com\n"

refused_on_line_two :
    check_rules_text refused_text
    ≡ some (record { directive = codes "SecRemoteRules"; rec_line = 2 })
unfolding check_rules_text scan scan_done bytes_eq
refused_on_line_two = refl

glued_word_refused :
    check_rules_text (codes "SecRemote\\\n Rules k https://example.com")
    ≡ some (record { directive = codes "SecRemoteRules"; rec_line = 1 })
unfolding check_rules_text scan scan_done bytes_eq
glued_word_refused = refl

-- The same record with a carriage return in front of the newline.
glued_word_missed :
    check_rules_text (codes "SecRemote\\" ++ 13 ∷ codes "\n Rules k https://example.com") ≡ none
unfolding check_rules_text scan scan_done bytes_eq
glued_word_missed = refl

abbrev etc : Files
etc = record {
  server_root_relative = λ p. some (codes "/etc/" ++ p);
  file_open = λ p. some (chunk (codes "SecRem") (chunk (codes "oteRules k x\n") at_eof));
}

check_rules_file-check_rules_text_example :
    check_rules_file etc (codes "r.conf")
    ≡ file_check (codes "/etc/r.conf") (check_rules_text (codes "SecRemoteRules k x\n"))
check_rules_file-check_rules_text_example =
    check_rules_file-check_rules_text etc (codes "r.conf") (codes "/etc/r.conf")
      (chunk (codes "SecRem") (chunk (codes "oteRules k x\n") at_eof)) refl refl tt

scan-InBounds_example :
    InBounds (scan refused_text scan_init).1 × InBounds (finish (scan refused_text scan_init)).1
scan-InBounds_example =
    scan-InBounds refused_text scan_init
      (record { word_fits = omega arith; line_fits = omega arith })

check_rules_text_iff_example :
    (is_refused (check_rules_text (codes "secremoterules\tk u")) ≡ true)
    ↔ SameWord (codes "secremoterules") (codes "SecRemoteRules")
check_rules_text_iff_example =
    check_rules_text_iff 115 (codes "ecremoterules") (codes "\tk u")
      (record { not_null = refl; not_comment = refl })
      (
        refl,
        refl,
        (
          refl,
          refl,
          (
            refl,
            refl,
            (
              refl,
              refl,
              (
                refl,
                refl,
                (
                  refl,
                  refl,
                  (
                    refl,
                    refl,
                    (
                      refl,
                      refl,
                      (
                        refl,
                        refl,
                        (refl, refl, (refl, refl, (refl, refl, (refl, refl, (refl, refl, tt))))),
                      ),
                    ),
                  ),
                ),
              ),
            ),
          ),
        ),
      )
      (omega arith) (inr (inl refl), (refl, (refl, (refl, tt)))) refl
