-- ===== src/Samples/Acl.antt =====
-- Rules of two clients: what they grant, and which texts the validation accepts.
use mcm.Base.{true, false, List, [], ◌∷◌, none, ◌≡◌, ◌≢◌, ◌↔◌, refl}
use mcm.Base.Members.{Memᴰ}
use mcm.Text.{Bytes, codes, text_eq, has_any, runes}
use mcm.Text.Split.{split}
use mcm.Acl.Levels.{levels}
use mcm.Acl.Rule.{
  Rule, Selector, Scope, Permission, effective_selector, effective_scope, normalize,
  normalize_idempotent,
}
use mcm.Acl.Validate.{
  validate_rule_for_mosquitto_version, validate_topic_filter, validate_listener_id,
  contains_control_character,
}
use mcm.Acl.Validate.Exact.{IsRule, validate_rule_iff}
use mcm.Acl.Validate.Topic.{IsFilter, validate_topic_filter_iff}
use mcm.Acl.Validate.Listener.{IsReference, validate_listener_id_iff}
use mcm.Acl.Filter.{
  topic_matches_filter, match_levels, filter_covers, cover_levels, ends_in_hash, without_last,
  levels_cover, level_covers,
}
use mcm.Acl.Filter.Matching.{Matches, topic_matches_filter_iff}
use mcm.Acl.Filter.Covering.{filter_covers_sound}
use mcm.Acl.Effective.{
  Access, Identity, EffectiveGrant, effective_permission, effective_grants, grant_of, sort_grants,
  rule_filter, applicable_rules, permission_grants,
}
use mcm.Acl.Effective.Spec.{AppliesTo, by_user}
use mcm.Acl.Effective.Verdict.{IsGranted, IsNotDenied, effective_permission_iff}
use mcm.Acl.Effective.Grants.{
  effective_grants_complete, effective_grants-denied_iff, denied_grant_refused,
}

abbrev sensors : Rule
sensors = record {
  id = codes "1";
  selector = Selector.user;
  scope = Scope.unset;
  listener_id = [];
  principal = codes "ada";
  topic_filter = codes "sensors/+/temp";
  permission = Permission.read;
  description = [];
}

abbrev no_sensors : Rule
no_sensors = record sensors {
  id = codes "2";
  topic_filter = codes "sensors/#";
  permission = Permission.deny;
}

abbrev rules : List Rule
rules = sensors ∷ no_sensors ∷ []

abbrev ada : Identity
ada = record { username = codes "ada"; client_id = codes "c1" }

abbrev topic : Bytes
topic = codes "sensors/7/temp"

abbrev blocked : EffectiveGrant
blocked = record {
  topic_filter = codes "sensors/+/temp";
  permission = Permission.read;
  selector = Selector.user;
  principal = codes "ada";
  denied = true;
  denied_by = codes "sensors/#" ∷ [];
}

ada_reads : (effective_permission (sensors ∷ []) ada topic Access.read).allowed ≡ true
unfolding effective_permission applicable_rules rule_filter topic_matches_filter match_levels split
    text_eq permission_grants
ada_reads = refl

blocked_listed : effective_grants rules ada ≡ blocked ∷ []
unfolding effective_grants applicable_rules sort_grants grant_of rule_filter filter_covers
    cover_levels ends_in_hash without_last levels_cover level_covers split text_eq
blocked_listed = refl

Memᴰ-blocked : Memᴰ blocked (effective_grants rules ada)
Memᴰ-blocked = rw blocked_listed (Memᴰ.head refl)

effective_permission_iff_example :
    ((effective_permission rules ada topic Access.read).allowed ≡ true)
    ↔ (IsGranted rules ada topic Access.read × IsNotDenied rules ada topic)
effective_permission_iff_example = effective_permission_iff rules ada topic Access.read

ada_applies : AppliesTo ada sensors
ada_applies = by_user refl (λ e. cc) refl

effective_grants_complete_example :
    (g : EffectiveGrant) × Memᴰ g (effective_grants rules ada)
    × (g.topic_filter ≡ rule_filter sensors ada)
    × (g.permission ≡ Permission.read)
    × (g.selector ≡ Selector.user)
    × (g.principal ≡ codes "ada")
effective_grants_complete_example =
    effective_grants_complete rules ada sensors (Memᴰ.head refl) ada_applies (λ e. cc)

effective_grants-denied_iff_example : (blocked.denied ≡ true) ↔ (
    (d : Rule) × Memᴰ d rules
    × AppliesTo ada d
    × (d.permission ≡ Permission.deny)
    × (filter_covers (rule_filter d ada) blocked.topic_filter ≡ true))
effective_grants-denied_iff_example = effective_grants-denied_iff rules ada blocked Memᴰ-blocked

topic_in_grant : topic_matches_filter blocked.topic_filter topic ≡ true
unfolding topic_matches_filter match_levels split text_eq
topic_in_grant = refl

denied_grant_refused_example : (effective_permission rules ada topic Access.read).allowed ≡ false
denied_grant_refused_example =
    denied_grant_refused rules ada blocked topic Access.read Memᴰ-blocked refl topic_in_grant

topic_matches_filter_iff_example :
    (topic_matches_filter (codes "a/#") (codes "a") ≡ true)
    ↔ ((codes "a/#" ≢ []) × (codes "a" ≢ []) × Matches (levels (codes "a/#")) (levels (codes "a")))
topic_matches_filter_iff_example = topic_matches_filter_iff (codes "a/#") (codes "a")

covered : filter_covers (codes "sensors/#") blocked.topic_filter ≡ true
unfolding filter_covers cover_levels ends_in_hash without_last levels_cover level_covers split
    text_eq
covered = refl

filter_covers_sound_example : topic_matches_filter (codes "sensors/#") topic ≡ true
filter_covers_sound_example =
    filter_covers_sound (codes "sensors/#") blocked.topic_filter topic covered topic_in_grant

validate_rule_iff_example :
    (validate_rule_for_mosquitto_version sensors (codes "2.0") ≡ []) ↔ IsRule sensors (codes "2.0")
validate_rule_iff_example = validate_rule_iff sensors (codes "2.0")

validate_topic_filter_iff_example :
    (validate_topic_filter (codes "a/+/#") ≡ none) ↔ IsFilter (codes "a/+/#")
validate_topic_filter_iff_example = validate_topic_filter_iff (codes "a/+/#")

validate_listener_id_iff_example :
    (validate_listener_id (codes "tls-8883") ≡ none) ↔ IsReference (codes "tls-8883")
validate_listener_id_iff_example = validate_listener_id_iff (codes "tls-8883")

tls_accepted : validate_listener_id (codes "tls-8883") ≡ none
unfolding validate_listener_id contains_control_character runes has_any text_eq
tls_accepted = refl

normalize_idempotent_example :
    (normalize (normalize sensors) ≡ normalize sensors)
    × (effective_selector (normalize sensors) ≡ effective_selector sensors)
    × (effective_scope (normalize sensors) ≡ effective_scope sensors)
    × ((normalize sensors).selector ≢ Selector.unset)
    × ((normalize sensors).scope ≢ Scope.unset)
    × (effective_scope sensors ≡ Scope.listener
        → (normalize sensors).listener_id ≡ sensors.listener_id)
    × (effective_scope sensors ≢ Scope.listener → (normalize sensors).listener_id ≡ [])
    × ((normalize sensors).id ≡ sensors.id)
    × ((normalize sensors).principal ≡ sensors.principal)
    × ((normalize sensors).topic_filter ≡ sensors.topic_filter)
    × ((normalize sensors).permission ≡ sensors.permission)
    × ((normalize sensors).description ≡ sensors.description)
normalize_idempotent_example = normalize_idempotent sensors

-- A topic of the broker itself is matched by a filter that is all wildcard.
system_topic_matched :
    (topic_matches_filter (codes "#") (codes "$SYS/broker/uptime") ≡ true)
    × (topic_matches_filter (codes "+/broker/uptime") (codes "$SYS/broker/uptime") ≡ true)
unfolding topic_matches_filter match_levels split text_eq
system_topic_matched = (refl, refl)
