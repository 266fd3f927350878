-- ===== src/AclFile/Entry.antt =====
-- internal/mosquitto/acldoc.go: one line of an ACL document, and how a line is read.
pub mod Facts
pub mod Section
use mcm.Base.{
  ℕ, ◌<◌, Bool, true, false, not, ◌&&◌, ◌||◌, List, [], ◌∷◌, ◌++◌, Option, none, some, length,
  is_empty, if◌then◌else◌, ltb, ◌==◌, ◌≡◌, refl, drop,
}
use mcm.Text.{Bytes, codes, text_eq, has_prefix, trim_space, fields, to_lower}
use mcm.Text.Split.{join}
use mcm.Acl.Rule.{Rule, Selector, Scope, Permission, permission_text}
use mcm.Acl.Validate.{Problem, validate_rule}

pub data Kind : Type 0 where
  blank comment user topic pattern unknown : Kind

-- Why a line could not be interpreted. The source keeps the sentence as text, empty for none.
pub data Issue : Type 0 where
  no_issue user_arity topic_arity pattern_arity : Issue
  unsupported_directive unsupported_permission : Bytes → Issue
  invalid_rule : List Problem → Issue

pub record Entry : Type 0 where
  pub kind : Kind
  pub raw : Bytes
  pub principal : Bytes
  pub rule : Option Rule
  pub issue : Issue

-- An entry with the other fields at their zero values.
abbrev pub plain_entry : Kind → Bytes → Entry
plain_entry k raw = record {
  kind = k;
  raw = raw;
  principal = codes "";
  rule = none;
  issue = no_issue;
}

unfoldable pub mosquitto_perm_to_acl_perm : Bytes → Permission
mosquitto_perm_to_acl_perm perm =
    if text_eq perm (codes "read")
    then Permission.read
    else if text_eq perm (codes "write")
    then Permission.write
    else if text_eq perm (codes "readwrite")
    then Permission.readwrite
    else if text_eq perm (codes "deny")
    then Permission.deny
    else Permission.unset

abbrev pub is_unset : Permission → Bool
is_unset Permission.unset = true
is_unset _ = false

-- A rule as a line gives it: without an id, a scope, a listener and a description.
abbrev pub line_rule : Selector → Bytes → Bytes → Permission → Rule
line_rule selector principal filter permission = record {
  id = codes "";
  selector = selector;
  scope = Scope.unset;
  listener_id = codes "";
  principal = principal;
  topic_filter = filter;
  permission = permission;
  description = codes "";
}

abbrev pub checked_rule : List Problem → Rule → Option Rule × Issue
checked_rule [] r = (some r, no_issue)
checked_rule (p ∷ ps) r = (none, invalid_rule (p ∷ ps))

unfoldable pub build_acl_rule : Selector → Bytes → Bytes → Bytes → Option Rule × Issue
build_acl_rule selector principal permission filter =
    let r =
      line_rule selector principal filter (mosquitto_perm_to_acl_perm (to_lower permission)) in
    if is_unset r.permission
    then (none, unsupported_permission permission)
    else checked_rule (validate_rule r) r

-- The branch of a `topic` line, at the scope in effect.
unfoldable pub topic_entry : Bytes → Bytes → List Bytes → Entry
topic_entry raw scope (word ∷ permission ∷ f ∷ fs) =
    let selector = if is_empty scope then Selector.anonymous else Selector.user in
    let (rule, issue) = build_acl_rule selector scope permission (join b' ' (f ∷ fs)) in
    record { kind = topic; raw = raw; principal = scope; rule = rule; issue = issue }
topic_entry raw scope _ = record (plain_entry unknown raw) { issue = topic_arity }

unfoldable pub pattern_entry : Bytes → List Bytes → Entry
pattern_entry raw (word ∷ permission ∷ f ∷ fs) =
    let (rule, issue) =
      build_acl_rule Selector.pattern (codes "") permission (join b' ' (f ∷ fs)) in
    record { kind = pattern; raw = raw; principal = codes ""; rule = rule; issue = issue }
pattern_entry raw _ = record (plain_entry unknown raw) { issue = pattern_arity }

-- The branch of a `user` line: the entry, and the scope from then on.
unfoldable pub user_entry : Bytes → Bytes → List Bytes → Entry × Bytes
user_entry raw scope (word ∷ principal ∷ []) =
    (record (plain_entry user raw) { principal = principal }, principal)
user_entry raw scope _ = (record (plain_entry unknown raw) { issue = user_arity }, scope)

-- The switch on the first field. A line that is not blank has a field, so that the source's index is
-- in range; the clause for no field is never taken.
unfoldable pub directive_entry : Bytes → Bytes → List Bytes → Entry × Bytes
unfolding user_entry topic_entry pattern_entry
directive_entry raw scope [] = (plain_entry blank raw, scope)
directive_entry raw scope (word ∷ words) =
    if text_eq (to_lower word) (codes "user")
    then user_entry raw scope (word ∷ words)
    else if text_eq (to_lower word) (codes "topic")
    then (topic_entry raw scope (word ∷ words), scope)
    else if text_eq (to_lower word) (codes "pattern")
    then (pattern_entry raw (word ∷ words), scope)
    else (record (plain_entry unknown raw) { issue = unsupported_directive word }, scope)

-- An entry, and the scope that the lines behind it are in.
unfoldable pub parse_acl_entry : Bytes → Bytes → Entry × Bytes
parse_acl_entry raw scope =
    let trimmed = trim_space raw in
    if is_empty trimmed
    then (plain_entry blank raw, scope)
    else if has_prefix (codes "#") trimmed
    then (plain_entry comment raw, scope)
    else directive_entry raw scope (fields trimmed)

-- `permissionAndFilter`.
permission_and_filter : Entry → Bytes × Bytes
permission_and_filter e = go e.rule (fields (trim_space e.raw))
  where
    go : Option Rule → List Bytes → Bytes × Bytes
    go (some r) ws = (permission_text r.permission, r.topic_filter)
    go none (w ∷ p ∷ f ∷ fs) = (to_lower p, join b' ' (f ∷ fs))
    go none _ = (codes "", codes "")

-- The texts of the keys.
abbrev pub anonymous_key : Bytes → Bytes → Bytes
anonymous_key perm filter = codes "anonymous | topic " ++ (perm ++ (codes " " ++ filter))

abbrev pub user_key : Bytes → Bytes → Bytes → Bytes
user_key principal perm filter =
    codes "user " ++ (principal ++ (codes " | topic " ++ (perm ++ (codes " " ++ filter))))

abbrev pub pattern_key : Bytes → Bytes → Bytes
pattern_key perm filter = codes "pattern | " ++ (perm ++ (codes " " ++ filter))

key_under : Kind → Entry → Bytes
unfolding permission_and_filter
key_under Kind.topic e =
    let (perm, filter) = permission_and_filter e in
    if is_empty e.principal then anonymous_key perm filter else user_key e.principal perm filter
key_under Kind.pattern e = let (perm, filter) = permission_and_filter e in pattern_key perm filter
key_under Kind.unknown e = codes "unknown | " ++ trim_space e.raw
key_under _ e = codes ""

unfoldable pub semantic_key : Entry → Bytes
unfolding key_under
semantic_key e = key_under e.kind e
