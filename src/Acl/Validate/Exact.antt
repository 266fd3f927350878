-- ===== src/Acl/Validate/Exact.antt =====
-- The rules that the validation accepts, and what the validation gives to the other parts.
use mcm.Base.{true, false, List, [], ◌∷◌, ◌++◌, none, ◌≡◌, ◌↔◌, ◌⊎◌, refl, arith, is_empty}
use mcm.Base.Members.{All}
use mcm.Text.{Bytes, text_eq_iff, has_text, is_blank}
use mcm.Acl.Rule.{Rule, Selector, Scope, Permission, effective_selector, effective_scope}
use mcm.Acl.Levels.{levels}
use mcm.Acl.Version.{mosquitto_version_at_least}
use mcm.Acl.Validate.{
  user_placeholder, client_placeholder, contains_control_character, check_placeholders,
  validate_pattern_placeholders, principal_problems, scope_problems, topic_problems,
  permission_problems, validate_rule_for_mosquitto_version, minimum_deny_permission_version,
}
use mcm.Acl.Validate.Topic.{IsFilter, validate_topic_filter_iff}
use mcm.Acl.Validate.Listener.{IsReference, validate_listener_id_iff}

-- Only a user rule has a principal; it is not blank and holds no control character.
abbrev pub IsPrincipal : Selector → Bytes → Type 0
IsPrincipal Selector.user p = (is_blank p ≡ false) × (contains_control_character p ≡ false)
IsPrincipal Selector.anonymous p = p ≡ []
IsPrincipal Selector.pattern p = p ≡ []
IsPrincipal _ p = ⊥

-- Only a listener-scoped rule has a listener reference.
abbrev pub IsTarget : Scope → Bytes → Type 0
IsTarget Scope.global id = id ≡ []
IsTarget Scope.listener id = IsReference id
IsTarget _ id = ⊥

-- A level that holds a placeholder is the placeholder.
abbrev pub IsPlaceholderLevel : Bytes → Type 0
IsPlaceholderLevel l =
    (has_text user_placeholder l ≡ true) ⊎ (has_text client_placeholder l ≡ true)
    → (l ≡ user_placeholder) ⊎ (l ≡ client_placeholder)

abbrev pub IsPatternFilter : Selector → Bytes → Type 0
IsPatternFilter Selector.pattern filter = All IsPlaceholderLevel (levels filter)
IsPatternFilter _ filter = Unit

abbrev pub IsPermission : Permission → Bytes → Type 0
IsPermission Permission.read version = Unit
IsPermission Permission.write version = Unit
IsPermission Permission.readwrite version = Unit
IsPermission Permission.deny version =
    mosquitto_version_at_least version minimum_deny_permission_version ≡ true
IsPermission _ version = ⊥

pub record IsRule (r : Rule) (version : Bytes) : Type 0 where
  pub principal_ok : IsPrincipal (effective_selector r) r.principal
  pub target_ok : IsTarget (effective_scope r) r.listener_id
  pub filter_shown : is_blank r.topic_filter ≡ false
  pub filter_ok : IsFilter r.topic_filter
  pub pattern_ok : IsPatternFilter (effective_selector r) r.topic_filter
  pub permission_ok : IsPermission r.permission version

is_empty_iff : (s : Bytes) → (is_empty s ≡ true) ↔ (s ≡ [])
is_empty_iff [] = (λ h. refl, λ h. refl)
is_empty_iff (c ∷ s) = (λ h. cc, λ h. cc)

principal_problems_iff :
    (s : Selector) (p : Bytes) → (principal_problems s p ≡ []) ↔ IsPrincipal s p
unfolding principal_problems
principal_problems_iff Selector.user p = (λ h. (ground arith, ground arith), λ h. ground arith)
principal_problems_iff Selector.anonymous p =
    (λ h. ground (arith, is_empty_iff p), λ h. ground (arith, is_empty_iff p))
principal_problems_iff Selector.pattern p =
    (λ h. ground (arith, is_empty_iff p), λ h. ground (arith, is_empty_iff p))
principal_problems_iff _ p = (λ h. cc, λ h. absurd h)

scope_problems_iff : (s : Scope) (id : Bytes) → (scope_problems s id ≡ []) ↔ IsTarget s id
unfolding scope_problems
scope_problems_iff Scope.global id =
    (λ h. ground (arith, is_empty_iff id), λ h. ground (arith, is_empty_iff id))
scope_problems_iff Scope.listener id = (
  λ h. (validate_listener_id_iff id).0 (ground arith),
  λ v. rw ((validate_listener_id_iff id).1 v),
)
scope_problems_iff _ id = (λ h. cc, λ h. absurd h)

check_placeholders_iff :
    (ls : List Bytes) → (check_placeholders ls ≡ none) ↔ All IsPlaceholderLevel ls
unfolding check_placeholders
check_placeholders_iff [] = (λ h. tt, λ h. refl)
check_placeholders_iff (l ∷ ls) = (
  λ h. (
    λ has. ground (arith, text_eq_iff l user_placeholder, text_eq_iff l client_placeholder),
    (check_placeholders_iff ls).0 (ground arith),
  ),
  λ v.
      let rest = (check_placeholders_iff ls).1 v.1 in
      ground (arith, v.0, text_eq_iff l user_placeholder, text_eq_iff l client_placeholder),
)

abbrev IsTopic : Selector → Bytes → Type 0
IsTopic s filter = (is_blank filter ≡ false) × IsFilter filter × IsPatternFilter s filter

topic_problems_iff : (s : Selector) (f : Bytes) → (topic_problems s f ≡ []) ↔ IsTopic s f
unfolding topic_problems validate_pattern_placeholders
topic_problems_iff Selector.pattern f = (
  λ h. (
    ground arith,
    (validate_topic_filter_iff f).0 (ground arith),
    (check_placeholders_iff (levels f)).0 (ground arith),
  ),
  λ v.
      let shown = v.0 in
      let good = (validate_topic_filter_iff f).1 v.1 in
      let placed = (check_placeholders_iff (levels f)).1 v.2 in ground arith,
)
topic_problems_iff _ f = (
  λ h. (ground arith, (validate_topic_filter_iff f).0 (ground arith), tt),
  λ v. let shown = v.0 in let good = (validate_topic_filter_iff f).1 v.1 in ground arith,
)

permission_problems_iff :
    (p : Permission) (version : Bytes)
    → (permission_problems p version ≡ []) ↔ IsPermission p version
unfolding permission_problems
permission_problems_iff Permission.read v = (λ h. tt, λ h. refl)
permission_problems_iff Permission.write v = (λ h. tt, λ h. refl)
permission_problems_iff Permission.readwrite v = (λ h. tt, λ h. refl)
permission_problems_iff Permission.deny v = (λ h. ground arith, λ h. ground arith)
permission_problems_iff _ v = (λ h. cc, λ h. absurd h)

append-eq-nil {ℓ} : {A : Type ℓ} (xs ys : List A) → xs ++ ys ≡ [] → (xs ≡ []) × (ys ≡ [])
append-eq-nil [] ys h = (refl, h)
append-eq-nil (x ∷ xs) ys h = cc

-- A rule has no problem exactly when its principal fits its selector, its listener reference fits its
-- scope, its filter is not blank and is a filter of MQTT with its placeholders on levels of their own,
-- and the version knows its permission.
pub validate_rule_iff :
    (r : Rule) (version : Bytes)
    → (validate_rule_for_mosquitto_version r version ≡ []) ↔ IsRule r version
unfolding validate_rule_for_mosquitto_version
validate_rule_iff r version = (
  λ h.
      let (p, h') = append-eq-nil _ _ h in
      let (s, h'') = append-eq-nil _ _ h' in
      let (t, m) = append-eq-nil _ _ h'' in
      let topic = (topic_problems_iff (effective_selector r) r.topic_filter).0 t in
      record {
        principal_ok = (principal_problems_iff (effective_selector r) r.principal).0 p;
        target_ok = (scope_problems_iff (effective_scope r) r.listener_id).0 s;
        filter_shown = topic.0;
        filter_ok = topic.1;
        pattern_ok = topic.2;
        permission_ok = (permission_problems_iff r.permission version).0 m;
      },
  λ v. rw (
    (principal_problems_iff (effective_selector r) r.principal).1 v.principal_ok,
    (scope_problems_iff (effective_scope r) r.listener_id).1 v.target_ok,
    (topic_problems_iff (effective_selector r) r.topic_filter).1
        (v.filter_shown, v.filter_ok, v.pattern_ok),
    (permission_problems_iff r.permission version).1 v.permission_ok,
  ),
)
