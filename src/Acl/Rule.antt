-- ===== src/Acl/Rule.antt =====
-- internal/acl/acl.go: the types of a rule, its effective selector and scope, and `Normalize`.
use mcm.Base.{Bool, true, false, [], ◌≡◌, ◌≢◌, refl, arith, if◌then◌else◌, ◌++◌}
use mcm.Text.{Bytes, codes}

-- `Selector` is a string type. `unknown` stands for a text that no constant names.
pub data Selector : Type 0 where
  unset user anonymous pattern : Selector
  unknown : Bytes → Selector

pub data Scope : Type 0 where
  unset global listener : Scope
  unknown : Bytes → Scope

pub data Permission : Type 0 where
  unset read write readwrite deny : Permission
  unknown : Bytes → Permission

pub record Rule : Type 0 where
  pub id : Bytes
  pub selector : Selector
  pub scope : Scope
  pub listener_id : Bytes
  pub principal : Bytes
  pub topic_filter : Bytes
  pub permission : Permission
  pub description : Bytes

-- The text of a selector, which `sort` compares.
unfoldable pub selector_text : Selector → Bytes
selector_text Selector.unset = codes ""
selector_text Selector.user = codes "user"
selector_text Selector.anonymous = codes "anonymous"
selector_text Selector.pattern = codes "pattern"
selector_text (Selector.unknown t) = t

-- The text of a permission, as a rendered line writes it.
unfoldable pub permission_text : Permission → Bytes
permission_text Permission.unset = codes ""
permission_text Permission.read = codes "read"
permission_text Permission.write = codes "write"
permission_text Permission.readwrite = codes "readwrite"
permission_text Permission.deny = codes "deny"
permission_text (Permission.unknown t) = t

abbrev or_user : Selector → Selector
or_user Selector.unset = Selector.user
or_user s = s

abbrev or_global : Scope → Scope
or_global Scope.unset = Scope.global
or_global s = s

-- Abbreviations, since every other part of the model branches on them.
abbrev pub effective_selector : Rule → Selector
effective_selector r = or_user r.selector

abbrev pub effective_scope : Rule → Scope
effective_scope r = or_global r.scope

abbrev pub is_listener : Scope → Bool
is_listener Scope.listener = true
is_listener _ = false

abbrev is_user : Selector → Bool
is_user Selector.user = true
is_user _ = false

abbrev pub is_listener_scoped : Rule → Bool
is_listener_scoped r = is_listener (effective_scope r)

abbrev pub is_user_scoped : Rule → Bool
is_user_scoped r = is_user (effective_selector r)

unfoldable pub normalize : Rule → Rule
normalize r = record r {
  selector = effective_selector r;
  scope = effective_scope r;
  listener_id = if is_listener_scoped r then r.listener_id else codes "";
}

-- `MosquittoACL`: the line of a user or an anonymous rule.
unfoldable pub mosquitto_acl : Rule → Bytes
unfolding permission_text
mosquitto_acl r = codes "topic " ++ (permission_text r.permission ++ (codes " " ++ r.topic_filter))

-- `MosquittoPatternACL`: the line of a pattern rule.
unfoldable pub mosquitto_pattern_acl : Rule → Bytes
unfolding permission_text
mosquitto_pattern_acl r =
    codes "pattern " ++ (permission_text r.permission ++ (codes " " ++ r.topic_filter))

resolved_selector : (s : Selector) → or_user s ≢ Selector.unset
resolved_selector Selector.unset = λ e. cc
resolved_selector Selector.user = λ e. cc
resolved_selector Selector.pattern = λ e. cc
resolved_selector Selector.anonymous = λ e. cc
resolved_selector (Selector.unknown t) = λ e. cc

resolved_scope : (s : Scope) → or_global s ≢ Scope.unset
resolved_scope Scope.unset = λ e. cc
resolved_scope Scope.global = λ e. cc
resolved_scope Scope.listener = λ e. cc
resolved_scope (Scope.unknown t) = λ e. cc

-- A normalised rule has a selector and a scope, which are the effective ones of the rule. It keeps all
-- else, but for the listener reference of a rule whose effective scope is not the one of a listener:
-- that is empty. Normalising it again changes nothing.
pub normalize_idempotent :
    (r : Rule)
    → (normalize (normalize r) ≡ normalize r)
      × (effective_selector (normalize r) ≡ effective_selector r)
      × (effective_scope (normalize r) ≡ effective_scope r)
      × ((normalize r).selector ≢ Selector.unset)
      × ((normalize r).scope ≢ Scope.unset)
      × (effective_scope r ≡ Scope.listener → (normalize r).listener_id ≡ r.listener_id)
      × (effective_scope r ≢ Scope.listener → (normalize r).listener_id ≡ [])
      × ((normalize r).id ≡ r.id)
      × ((normalize r).principal ≡ r.principal)
      × ((normalize r).topic_filter ≡ r.topic_filter)
      × ((normalize r).permission ≡ r.permission)
      × ((normalize r).description ≡ r.description)
unfolding normalize
normalize_idempotent r =
    let (again, selector, scope) = resolved r in
    (
      again,
      selector,
      scope,
      resolved_selector r.selector,
      resolved_scope r.scope,
      λ e. rw e refl,
      λ n. elsewhere (effective_scope r) n,
      refl,
      refl,
      refl,
      refl,
      refl,
    )
  where
    resolved :
        (q : Rule)
        → (normalize (normalize q) ≡ normalize q)
          × (effective_selector (normalize q) ≡ effective_selector q)
          × (effective_scope (normalize q) ≡ effective_scope q)
    resolved q = unfold normalize in ground arith

    elsewhere :
        (s : Scope) → s ≢ Scope.listener → (if is_listener s then r.listener_id else codes "") ≡ []
    elsewhere Scope.unset n = refl
    elsewhere Scope.global n = refl
    elsewhere Scope.listener n = absurd (n refl)
    elsewhere (Scope.unknown t) n = refl
