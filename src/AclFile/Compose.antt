-- ===== src/AclFile/Compose.antt =====
-- internal/mosquitto/acldoc.go: `ComposeACLDocument`, which merges managed rules into a document.
pub mod Insertion
pub mod Sections
pub mod Keeps
pub mod Presence
use mcm.Base.{
  ℕ, zero, suc, Bool, true, false, not, ◌&&◌, ◌||◌, List, [], ◌∷◌, ◌++◌, Option, none, some, length,
  is_empty, if◌then◌else◌,
}
use mcm.Text.{Bytes, codes, text_eq}
use mcm.Acl.Rule.{
  Rule, Selector, effective_selector, normalize, permission_text, mosquitto_acl,
  mosquitto_pattern_acl,
}
use mcm.AclFile.Entry.{Entry, Kind, plain_entry, semantic_key, anonymous_key, user_key, pattern_key}
use mcm.AclFile.Document.{Document, contains, is_user_kind, is_topic_kind}

abbrev pub managed_key_under : Selector → Rule → Bytes
managed_key_under Selector.anonymous r = anonymous_key (permission_text r.permission) r.topic_filter
managed_key_under Selector.pattern r = pattern_key (permission_text r.permission) r.topic_filter
managed_key_under _ r = user_key r.principal (permission_text r.permission) r.topic_filter

unfoldable pub managed_rule_key : Rule → Bytes
managed_rule_key r = managed_key_under (effective_selector r) r

-- `insertACLEntry`. The indices below are at most the number of entries, as the slice wants it.
unfoldable pub insert_acl_entry : ℕ → Entry → List Entry → List Entry
insert_acl_entry zero e es = e ∷ es
insert_acl_entry (suc n) e [] = e ∷ []
insert_acl_entry (suc n) e (x ∷ xs) = x ∷ insert_acl_entry n e xs

-- The loops over a section: `j` entries are read, and `last` is the index behind the last one that
-- passes the test; the next user line ends the section.
unfoldable pub last_in_section : (Entry → Bool) → ℕ → ℕ → List Entry → ℕ
last_in_section test j last [] = last
last_in_section test j last (e ∷ es) =
    let onward = last_in_section test (suc j) (if test e then suc j else last) es in
    if is_user_kind e.kind then last else onward

abbrev pub is_topic_of : Bytes → Entry → Bool
is_topic_of p e = is_topic_kind e.kind && text_eq e.principal p

-- `composeUserInsertIndex`, with the indices counted from the entry that is looked at.
unfoldable pub compose_user_insert_index : Bytes → List Entry → ℕ × Bool
compose_user_insert_index p [] = (0, true)
compose_user_insert_index p (e ∷ es) =
    let (n, needs_header) = compose_user_insert_index p es in
    if not (is_user_kind e.kind) || not (text_eq e.principal p)
    then (suc n, needs_header)
    else (suc (last_in_section (is_topic_of p) 0 0 es), false)

-- The index of the first user line, or the end.
unfoldable pub first_user_index : List Entry → ℕ
first_user_index [] = 0
first_user_index (e ∷ es) = let n = first_user_index es in if is_user_kind e.kind then 0 else suc n

-- The index behind the last topic line in front of the first user line, or the beginning.
unfoldable pub anonymous_index : List Entry → ℕ
anonymous_index es = last_in_section (λ (e : Entry). is_topic_kind e.kind) 0 0 es

abbrev pub managed_entry : Kind → Bytes → Rule → Bytes → Entry
managed_entry k principal r raw = record (plain_entry k raw) {
  principal = principal;
  rule = some r;
}

abbrev pub header_entry : Rule → Entry
header_entry r = record (plain_entry Kind.user (codes "user " ++ r.principal)) {
  principal = r.principal;
}

-- The default branch: a principal without a section gets a header first.
unfoldable pub insert_user_rule : Rule → List Entry → List Entry
insert_user_rule r es =
    let (n, needs_header) = compose_user_insert_index r.principal es in
    let e = managed_entry Kind.topic r.principal r (mosquitto_acl r) in
    if needs_header
    then insert_acl_entry (suc n) e (insert_acl_entry n (header_entry r) es)
    else insert_acl_entry n e es

unfoldable pub insert_managed_under : Selector → Rule → List Entry → List Entry
insert_managed_under Selector.pattern r es =
    insert_acl_entry (first_user_index es)
      (managed_entry Kind.pattern (codes "") r (mosquitto_pattern_acl r)) es
insert_managed_under Selector.anonymous r es =
    insert_acl_entry (anonymous_index es) (managed_entry Kind.topic (codes "") r (mosquitto_acl r))
      es
insert_managed_under _ r es = insert_user_rule r es

unfoldable pub insert_managed : Rule → List Entry → List Entry
insert_managed r es = insert_managed_under (effective_selector (normalize r)) (normalize r) es

pub data Warning : Type 0 where
  skipped inserted : Bytes → Warning

-- The variables of the loop over the managed rules; `existing` is a map used as a set.
pub record Progress : Type 0 where
  pub entries : List Entry
  pub existing : List Bytes
  pub warnings : List Warning

unfoldable pub compose_rule : Progress → Rule → Progress
compose_rule p r =
    let key = managed_rule_key r in
    if contains key p.existing
    then record p { warnings = p.warnings ++ (skipped key ∷ []) }
    else record {
      entries = insert_managed r p.entries;
      existing = key ∷ p.existing;
      warnings = p.warnings ++ (inserted key ∷ []);
    }

unfoldable pub compose_rules : Progress → List Rule → Progress
compose_rules p [] = p
compose_rules p (r ∷ rs) = compose_rules (compose_rule p r) rs

-- The keys of a document's entries, without the empty ones.
unfoldable pub existing_keys : List Entry → List Bytes
existing_keys [] = []
existing_keys (e ∷ es) =
    let rest = existing_keys es in if is_empty (semantic_key e) then rest else semantic_key e ∷ rest

unfoldable pub compose_acl_document : Document → List Rule → Document × List Warning
compose_acl_document d managed =
    let p =
      compose_rules
        (record { entries = d.entries; existing = existing_keys d.entries; warnings = [] })
        managed in
    (record { entries = p.entries; ends_with_newline = d.ends_with_newline }, p.warnings)
