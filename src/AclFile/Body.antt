-- ===== src/AclFile/Body.antt =====
-- internal/mosquitto/acl.go: `RenderACLFile` and `ParseACLFile`.
pub mod Agreement
use mcm.Base.{
  ℕ, Bool, true, false, not, ◌&&◌, ◌||◌, List, [], ◌∷◌, ◌++◌, is_empty, if◌then◌else◌, keep, map,
}
use mcm.Text.{Bytes, codes, text_eq, has_prefix, trim_space, fields, to_lower}
use mcm.Text.Split.{split, join}
use mcm.Acl.Rule.{
  Rule, Selector, Scope, Permission, effective_selector, mosquitto_acl, mosquitto_pattern_acl,
}
use mcm.AclFile.Entry.{line_rule, mosquitto_perm_to_acl_perm}
use mcm.AclFile.Document.{newline, contains, sort_texts}

-- The three groups of `RenderACLFile`.
pub data Group : Type 0 where
  anonymous patterns users : Group

abbrev group_of_selector : Selector → Group
group_of_selector Selector.anonymous = Group.anonymous
group_of_selector Selector.pattern = Group.patterns
group_of_selector _ = Group.users

abbrev in_anonymous : Group → Bool
in_anonymous Group.anonymous = true
in_anonymous _ = false

abbrev in_patterns : Group → Bool
in_patterns Group.patterns = true
in_patterns _ = false

abbrev in_users : Group → Bool
in_users Group.users = true
in_users _ = false

-- The keys of the map of groups, each once.
unfoldable pub distinct_principals : List Bytes → List Rule → List Bytes
distinct_principals seen [] = []
distinct_principals seen (r ∷ rs) =
    let skip = distinct_principals seen rs in
    let take = r.principal ∷ distinct_principals (r.principal ∷ seen) rs in
    if contains r.principal seen then skip else take

-- The lines of a section, a newline between two.
abbrev pub user_section : List Rule → Bytes → Bytes
user_section rules p =
    join newline
      ((codes "user " ++ p) ∷ map mosquitto_acl (keep (λ (r : Rule). text_eq r.principal p) rules))

abbrev pub section_unless_empty : (Rule → Bytes) → List Rule → List Bytes
section_unless_empty line [] = []
section_unless_empty line (r ∷ rs) = join newline (map line (r ∷ rs)) ∷ []

-- `strings.Join(sections, "\n\n")`.
unfoldable pub join_sections : List Bytes → Bytes
join_sections [] = []
join_sections (s ∷ []) = s
join_sections (s ∷ t ∷ ss) = s ++ (newline ∷ newline ∷ join_sections (t ∷ ss))

unfoldable pub render_acl_file : List Rule → Bytes
unfolding join_sections distinct_principals
render_acl_file rules =
    let anonymous = keep (λ r. in_anonymous (group_of_selector (effective_selector r))) rules in
    let patterns = keep (λ r. in_patterns (group_of_selector (effective_selector r))) rules in
    let users = keep (λ r. in_users (group_of_selector (effective_selector r))) rules in
    join_sections (
      section_unless_empty mosquitto_acl anonymous
      ++ (section_unless_empty mosquitto_pattern_acl patterns
          ++ map (user_section users) (sort_texts (distinct_principals [] users))))

abbrev pub global_rule : Selector → Bytes → Bytes → List Bytes → Rule
global_rule selector principal permission fs =
    record (line_rule selector principal (join b' ' fs)
      (mosquitto_perm_to_acl_perm (to_lower permission))) { scope = Scope.global }

-- The branch of a `topic` line.
abbrev pub topic_rules : Bytes → List Bytes → List Rule
topic_rules user (word ∷ permission ∷ f ∷ fs) =
    global_rule (if is_empty user then Selector.anonymous else Selector.user) user permission
      (f ∷ fs)
    ∷ []
topic_rules user _ = []

abbrev pub pattern_rules : List Bytes → List Rule
pattern_rules (word ∷ permission ∷ f ∷ fs) =
    global_rule Selector.pattern (codes "") permission (f ∷ fs) ∷ []
pattern_rules _ = []

-- The switch on the first of two fields or more: the rules of the line, and `currentUser` behind it.
abbrev pub body_directive : Bytes → List Bytes → List Rule × Bytes
body_directive user (word ∷ second ∷ words) =
    if text_eq (to_lower word) (codes "user")
    then ([], second)
    else if text_eq (to_lower word) (codes "topic")
    then (topic_rules user (word ∷ second ∷ words), user)
    else if text_eq (to_lower word) (codes "pattern")
    then (pattern_rules (word ∷ second ∷ words), user)
    else ([], user)
body_directive user _ = ([], user)

unfoldable pub body_line : Bytes → Bytes → List Rule × Bytes
body_line user raw =
    let line = trim_space raw in
    if is_empty line || has_prefix (codes "#") line
    then ([], user)
    else body_directive user (fields line)

unfoldable pub body_lines : Bytes → List Bytes → List Rule
body_lines user [] = []
body_lines user (raw ∷ raws) =
    let (rules, user') = body_line user raw in rules ++ body_lines user' raws

unfoldable pub parse_acl_file : Bytes → List Rule
parse_acl_file body = body_lines (codes "") (split newline body)
