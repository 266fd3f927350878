-- ===== src/Samples/AclFile.antt =====
-- A document with two sections, and managed rules composed into it.
use mcm.AclFile.Body.{
  parse_acl_file, render_acl_file, body_lines, body_line, join_sections, distinct_principals,
}
use mcm.AclFile.Body.Agreement.{all_known, is_valid, to_global, parse_acl_file-typed_rules}
use mcm.AclFile.Entry.{
  parse_acl_entry, directive_entry, topic_entry, pattern_entry, user_entry,
  mosquitto_perm_to_acl_perm,
}
use mcm.AclFile.Document.{
  parse_entries, ends_in_newline, drop_last, sort_texts, insert_text, contains, newline,
}
use mcm.Text.{text_eq, has_prefix, trim_space, fields, to_lower}
use mcm.Text.Split.{split, join}
use mcm.Base.{true, keep, map, refl, ◌++◌}
use mcm.Acl.Rule.{mosquitto_acl, mosquitto_pattern_acl, permission_text}
use mcm.Base.{List, [], ◌∷◌, ◌≡◌}
use mcm.Base.Members.{All}
use mcm.Text.{Bytes, codes}
use mcm.Acl.Rule.{Rule}
use mcm.Acl.Validate.{validate_rule}
use mcm.AclFile.Document.{Document, parse_acl_document, render, typed_rules}
use mcm.AclFile.Document.Lossless.{render-parse_acl_document}
use mcm.AclFile.Document.Scopes.{WellScoped, parse_acl_document_lem}
use mcm.AclFile.Compose.{managed_rule_key, compose_acl_document}
use mcm.AclFile.Compose.Sections.{compose-WellScoped}
use mcm.AclFile.Compose.Keeps.{Keeps, compose-Keeps}
use mcm.AclFile.Compose.Presence.{HasKey, skip_all, compose-HasKey, compose_idempotent}
use mcm.Samples.Rules.{sensors, sensors_valid}

abbrev body : Bytes
body = codes "# two sections\ntopic read open/#\nuser ada\ntopic deny lab/#\n"

abbrev source : Document
source = parse_acl_document body

abbrev managed : List Rule
managed = sensors ∷ []

render-parse_acl_document_example : render (parse_acl_document body) ≡ body
render-parse_acl_document_example = render-parse_acl_document body

parse_acl_document_lem_example :
    WellScoped [] source.entries × All (λ r. validate_rule r ≡ []) (typed_rules source)
parse_acl_document_lem_example = parse_acl_document_lem body

compose-WellScoped_example : WellScoped [] (compose_acl_document source managed).0.entries
compose-WellScoped_example =
    compose-WellScoped source managed (sensors_valid, tt) parse_acl_document_lem_example.0

compose-Keeps_example :
    Keeps source.entries (compose_acl_document source managed).0.entries
    × ((compose_acl_document source managed).0.ends_with_newline ≡ source.ends_with_newline)
compose-Keeps_example = compose-Keeps source managed

compose-HasKey_example :
    All (λ r. HasKey (managed_rule_key r) (compose_acl_document source managed).0.entries) managed
compose-HasKey_example = compose-HasKey source managed (sensors_valid, tt)

compose_idempotent_example :
    let d' = (compose_acl_document source managed).0 in
    compose_acl_document d' managed ≡ (d', skip_all managed)
compose_idempotent_example = compose_idempotent source managed (sensors_valid, tt)

body_known : all_known (parse_acl_document body).entries ≡ true
unfolding parse_acl_document parse_entries ends_in_newline drop_last split parse_acl_entry
    directive_entry topic_entry pattern_entry user_entry text_eq has_prefix trim_space fields
    to_lower
body_known = refl

parse_acl_file-typed_rules_example :
    keep is_valid (parse_acl_file body) ≡ map to_global (typed_rules (parse_acl_document body))
parse_acl_file-typed_rules_example = parse_acl_file-typed_rules body body_known

-- A principal of two words is rendered whole and read back as its first word.
abbrev two_words : Rule
two_words = record sensors { principal = codes "ada lovelace" }

two_words_rendered :
    render_acl_file (two_words ∷ [])
    ≡ codes "user ada lovelace" ++ (newline ∷ codes "topic read sensors/+/temp")
unfolding render_acl_file join_sections distinct_principals contains sort_texts insert_text text_eq
    join mosquitto_acl mosquitto_pattern_acl permission_text
two_words_rendered = refl

two_words_read :
    map (λ (r : Rule). r.principal) (parse_acl_file (render_acl_file (two_words ∷ [])))
    ≡ codes "ada" ∷ []
unfolding render_acl_file join_sections distinct_principals contains sort_texts insert_text text_eq
    join mosquitto_acl mosquitto_pattern_acl permission_text parse_acl_file body_lines body_line
    split has_prefix trim_space fields to_lower mosquitto_perm_to_acl_perm
two_words_read = refl
