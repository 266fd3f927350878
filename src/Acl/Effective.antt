-- ===== src/Acl/Effective.antt =====
-- internal/acl/effective.go: the access that the rules give to a client.
pub mod Spec
pub mod Verdict
pub mod Sorting
pub mod Grants
use mcm.Base.{
  Bool, true, false, not, ◌&&◌, ◌||◌, ℕ, List, [], ◌∷◌, ◌++◌, is_empty, if◌then◌else◌, keep, ◌==◌,
}
use mcm.Text.{Bytes, codes, text_eq, text_lt, has_text, replace_byte}
use mcm.Text.Split.{join}
use mcm.Acl.Rule.{Rule, Selector, Permission, effective_selector, selector_text}
use mcm.Acl.Levels.{slash, levels}
use mcm.Acl.Validate.{user_placeholder, client_placeholder}
use mcm.Acl.Filter.{topic_matches_filter, filter_covers}

-- `Access` is a string type. `unknown` stands for a text that no constant names.
pub data Access : Type 0 where
  read write : Access
  unknown : Bytes → Access

unfoldable pub is_valid_access : Access → Bool
is_valid_access (Access.unknown t) = false
is_valid_access _ = true

pub record Identity : Type 0 where
  pub username : Bytes
  pub client_id : Bytes

abbrev pub is_anonymous : Identity → Bool
is_anonymous i = is_empty i.username

-- The sentences of `Decision.Reason`.
pub data Reason : Type 0 where
  deny_covers : Reason
  rule_grants no_rule_grants : Access → Reason

pub record Decision : Type 0 where
  pub allowed : Bool
  pub reason : Reason
  pub matching_rules : List Rule

pub record EffectiveGrant : Type 0 where
  pub topic_filter : Bytes
  pub permission : Permission
  pub selector : Selector
  pub principal : Bytes
  pub denied : Bool
  pub denied_by : List Bytes

unfoldable pub permission_grants : Permission → Access → Bool
permission_grants Permission.read Access.read = true
permission_grants Permission.write Access.write = true
permission_grants Permission.readwrite Access.read = true
permission_grants Permission.readwrite Access.write = true
permission_grants _ _ = false

substitute_level : Identity → Bytes → Bytes
substitute_level i l =
    if text_eq l user_placeholder
    then replace_byte slash b'_' i.username
    else if text_eq l client_placeholder
    then replace_byte slash b'_' i.client_id
    else l

substitute_levels : Identity → List Bytes → List Bytes
substitute_levels i [] = []
substitute_levels i (l ∷ ls) = substitute_level i l ∷ substitute_levels i ls

unfoldable pub substitute_placeholders : Bytes → Identity → Bytes
unfolding substitute_levels substitute_level
substitute_placeholders filter i =
    if not (has_text user_placeholder filter) && not (has_text client_placeholder filter)
    then filter
    else join slash (substitute_levels i (levels filter))

abbrev is_pattern : Selector → Bool
is_pattern Selector.pattern = true
is_pattern _ = false

unfoldable pub rule_filter : Rule → Identity → Bytes
rule_filter r i =
    if not (is_pattern (effective_selector r))
    then r.topic_filter
    else substitute_placeholders r.topic_filter i

-- The switch in the loop of `applicableRules`.
abbrev applies_under : Selector → Rule → Identity → Bool
applies_under Selector.pattern r i = true
applies_under Selector.anonymous r i = is_anonymous i
applies_under Selector.user r i = not (is_anonymous i) && text_eq r.principal i.username
applies_under _ r i = false

abbrev pub applies : Identity → Rule → Bool
applies i r = applies_under (effective_selector r) r i

unfoldable pub applicable_rules : List Rule → Identity → List Rule
applicable_rules rules i = keep (applies i) rules

abbrev pub is_deny : Permission → Bool
is_deny Permission.deny = true
is_deny _ = false

-- The variables of the loop of `EffectivePermission`.
pub record Tally : Type 0 where
  pub matched : List Rule
  pub denied : Bool
  pub granted : Bool

tally : Identity → Bytes → Access → Tally → Rule → Tally
tally i topic access s r =
    let s' = record s { matched = s.matched ++ (r ∷ []) } in
    if not (topic_matches_filter (rule_filter r i) topic)
    then s
    else if is_deny r.permission
    then record s' { denied = true }
    else if permission_grants r.permission access
    then record s' { granted = true }
    else s'

scan : Identity → Bytes → Access → Tally → List Rule → Tally
scan i topic access s [] = s
scan i topic access s (r ∷ rs) = scan i topic access (tally i topic access s r) rs

abbrev decide_tally : Access → Tally → Decision
decide_tally access s =
    if s.denied
    then record { allowed = false; reason = deny_covers; matching_rules = s.matched }
    else if s.granted
    then record { allowed = true; reason = rule_grants access; matching_rules = s.matched }
    else record { allowed = false; reason = no_rule_grants access; matching_rules = s.matched }

unfoldable pub effective_permission : List Rule → Identity → Bytes → Access → Decision
unfolding scan tally
effective_permission rules i topic access = decide_tally access (
    scan i topic access (record { matched = []; denied = false; granted = false })
      (applicable_rules rules i))

-- The loop over the deny rules: the filters of those that cover a grant.
covering : Identity → Bytes → List Rule → List Bytes
covering i filter [] = []
covering i filter (d ∷ ds) =
    let rest = covering i filter ds in
    if filter_covers (rule_filter d i) filter then rule_filter d i ∷ rest else rest

unfoldable pub grant_of : Identity → List Rule → Rule → EffectiveGrant
unfolding covering
grant_of i denies r =
    let by = covering i (rule_filter r i) denies in
    record {
      topic_filter = rule_filter r i;
      permission = r.permission;
      selector = effective_selector r;
      principal = r.principal;
      denied = not (is_empty by);
      denied_by = by;
    }

grants_of : Identity → List Rule → List Rule → List EffectiveGrant
grants_of i denies [] = []
grants_of i denies (r ∷ rs) =
    let rest = grants_of i denies rs in
    if is_deny r.permission then rest else grant_of i denies r ∷ rest

-- The order of the result: by selector, by principal, by filter.
unfoldable pub grant_less : EffectiveGrant → EffectiveGrant → Bool
grant_less g h =
    if not (text_eq (selector_text g.selector) (selector_text h.selector))
    then text_lt (selector_text g.selector) (selector_text h.selector)
    else if not (text_eq g.principal h.principal)
    then text_lt g.principal h.principal
    else text_lt g.topic_filter h.topic_filter

-- `sort.SliceStable`: an element goes behind those that are less than it, and so before its equals.
unfoldable pub insert_grant : EffectiveGrant → List EffectiveGrant → List EffectiveGrant
insert_grant g [] = g ∷ []
insert_grant g (h ∷ hs) = if grant_less h g then h ∷ insert_grant g hs else g ∷ h ∷ hs

unfoldable pub sort_grants : List EffectiveGrant → List EffectiveGrant
unfolding insert_grant
sort_grants [] = []
sort_grants (g ∷ gs) = insert_grant g (sort_grants gs)

unfoldable pub effective_grants : List Rule → Identity → List EffectiveGrant
unfolding grants_of
effective_grants rules i =
    let applicable = applicable_rules rules i in
    sort_grants (grants_of i (keep (λ (r : Rule). is_deny r.permission) applicable) applicable)
