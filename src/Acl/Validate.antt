-- ===== src/Acl/Validate.antt =====
-- internal/acl/acl.go: the validation of a rule, with one constructor for each message.
pub mod Listener
pub mod Topic
pub mod Exact
pub mod Normal
use mcm.Base.{
  ℕ, ◌<◌, Bool, true, false, not, ◌&&◌, ◌||◌, List, [], ◌∷◌, ◌++◌, Option, none, some, length,
  is_empty, all, any, if◌then◌else◌, ltb, leb, between, ◌==◌,
}
use mcm.Text.{Bytes, codes, text_eq, has_byte, has_any, has_text, runes, is_control, is_blank}
use mcm.Text.Split.{split}
use mcm.Acl.Rule.{Rule, Selector, Scope, Permission, effective_selector, effective_scope}
use mcm.Acl.Levels.{slash, hash, plus, levels}
use mcm.Acl.Version.{mosquitto_version_at_least}

pub data FilterError : Type 0 where
  required nul control hash_whole hash_last plus_whole placeholder_whole : FilterError

pub data ListenerError : Type 0 where
  required too_long control separator dots alphabet : ListenerError

pub data Problem : Type 0 where
  principal_required principal_control : Problem
  principal_of_anonymous principal_of_pattern : Problem
  bad_selector bad_scope listener_of_global : Problem
  bad_listener : ListenerError → Problem
  topic_required : Problem
  bad_topic : FilterError → Problem
  bad_permission deny_version : Problem

unfoldable pub contains_control_character : Bytes → Bool
contains_control_character s = any is_control (runes s)

-- The loop over the levels of a filter; a level is the last one where none is left behind it.
unfoldable pub check_levels : List Bytes → Option FilterError
check_levels [] = none
check_levels (l ∷ ls) =
    if has_byte b'#' l && not (text_eq l hash)
    then some FilterError.hash_whole
    else if has_byte b'#' l && not (is_empty ls)
    then some FilterError.hash_last
    else if has_byte b'+' l && not (text_eq l plus)
    then some FilterError.plus_whole
    else check_levels ls

unfoldable pub validate_topic_filter : Bytes → Option FilterError
validate_topic_filter filter =
    if is_empty filter
    then some FilterError.required
    else if has_byte 0 filter
    then some FilterError.nul
    else if contains_control_character filter
    then some FilterError.control
    else check_levels (levels filter)

abbrev pub user_placeholder : Bytes
user_placeholder = codes "%u"

abbrev pub client_placeholder : Bytes
client_placeholder = codes "%c"

unfoldable pub check_placeholders : List Bytes → Option FilterError
check_placeholders [] = none
check_placeholders (l ∷ ls) =
    let onward = check_placeholders ls in
    if not (has_text user_placeholder l) && not (has_text client_placeholder l)
    then onward
    else if not (text_eq l user_placeholder) && not (text_eq l client_placeholder)
    then some FilterError.placeholder_whole
    else onward

unfoldable pub validate_pattern_placeholders : Bytes → Option FilterError
validate_pattern_placeholders filter = check_placeholders (levels filter)

abbrev pub max_listener_id_length : ℕ
max_listener_id_length = 64

-- The characters of a listener reference.
abbrev pub is_reference_rune : ℕ → Bool
is_reference_rune r =
    between b'a' b'z' r
    || between b'A' b'Z' r
    || between b'0' b'9' r
    || r == b'-'
    || r == b'_'
    || r == b'.'

unfoldable pub validate_listener_id : Bytes → Option ListenerError
validate_listener_id id =
    if is_empty id
    then some ListenerError.required
    else if ltb max_listener_id_length (length id)
    then some ListenerError.too_long
    else if contains_control_character id
    then some ListenerError.control
    else if has_any (codes "/\\") id
    then some ListenerError.separator
    else if text_eq id (codes ".") || text_eq id (codes "..")
    then some ListenerError.dots
    else if all is_reference_rune (runes id)
    then none
    else some ListenerError.alphabet

unfoldable pub principal_problems : Selector → Bytes → List Problem
principal_problems Selector.user principal =
    if is_blank principal
    then Problem.principal_required ∷ []
    else if contains_control_character principal
    then Problem.principal_control ∷ []
    else []
principal_problems Selector.anonymous principal =
    if is_empty principal then [] else Problem.principal_of_anonymous ∷ []
principal_problems Selector.pattern principal =
    if is_empty principal then [] else Problem.principal_of_pattern ∷ []
principal_problems _ principal = Problem.bad_selector ∷ []

abbrev listener_problem : Option ListenerError → List Problem
listener_problem none = []
listener_problem (some e) = Problem.bad_listener e ∷ []

unfoldable pub scope_problems : Scope → Bytes → List Problem
scope_problems Scope.global id = if is_empty id then [] else Problem.listener_of_global ∷ []
scope_problems Scope.listener id = listener_problem (validate_listener_id id)
scope_problems _ id = Problem.bad_scope ∷ []

-- `else if rule.EffectiveSelector() == SelectorPattern`.
abbrev placeholder_problems : Selector → Bytes → List Problem
placeholder_problems Selector.pattern filter = elim (validate_pattern_placeholders filter) [
  | none ↦ []
  | some e ↦ Problem.bad_topic e ∷ []
]
placeholder_problems _ filter = []

abbrev filter_problems : Option FilterError → Selector → Bytes → List Problem
filter_problems none s filter = placeholder_problems s filter
filter_problems (some e) s filter = Problem.bad_topic e ∷ []

unfoldable pub topic_problems : Selector → Bytes → List Problem
topic_problems s filter =
    if is_blank filter
    then Problem.topic_required ∷ []
    else filter_problems (validate_topic_filter filter) s filter

abbrev pub minimum_deny_permission_version : Bytes
minimum_deny_permission_version = codes "2.0"

abbrev pub supported_mosquitto_version : Bytes
supported_mosquitto_version = codes "2.0"

unfoldable pub permission_problems : Permission → Bytes → List Problem
permission_problems Permission.read version = []
permission_problems Permission.write version = []
permission_problems Permission.readwrite version = []
permission_problems Permission.deny version =
    if mosquitto_version_at_least version minimum_deny_permission_version
    then []
    else Problem.deny_version ∷ []
permission_problems _ version = Problem.bad_permission ∷ []

-- The problems of a rule; the error of the source is nil exactly when there is none.
unfoldable pub validate_rule_for_mosquitto_version : Rule → Bytes → List Problem
validate_rule_for_mosquitto_version r version =
    principal_problems (effective_selector r) r.principal
    ++ (scope_problems (effective_scope r) r.listener_id
        ++ (topic_problems (effective_selector r) r.topic_filter
            ++ permission_problems r.permission version))

unfoldable pub validate_rule : Rule → List Problem
validate_rule r = validate_rule_for_mosquitto_version r supported_mosquitto_version
