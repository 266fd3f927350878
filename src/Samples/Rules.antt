-- ===== src/Samples/Rules.antt =====
-- A rule without a problem, and one without a principal.
use mcm.Base.{[], ◌≡◌, ◌≢◌, refl}
use mcm.Text.{codes, text_eq, has_byte, runes, is_blank}
use mcm.Text.Split.{split}
use mcm.Acl.Rule.{Rule, Selector, Scope, Permission}
use mcm.Acl.Validate.{
  validate_rule, validate_rule_for_mosquitto_version, validate_topic_filter, check_levels,
  contains_control_character, principal_problems, scope_problems, topic_problems,
  permission_problems,
}

abbrev pub sensors : Rule
sensors = record {
  id = codes "";
  selector = Selector.user;
  scope = Scope.unset;
  listener_id = [];
  principal = codes "ada";
  topic_filter = codes "sensors/+/temp";
  permission = Permission.read;
  description = [];
}

abbrev pub nameless : Rule
nameless = record sensors { principal = codes " " }

pub sensors_valid : validate_rule sensors ≡ []
unfolding validate_rule validate_rule_for_mosquitto_version principal_problems scope_problems
    topic_problems permission_problems validate_topic_filter check_levels contains_control_character
    is_blank runes has_byte split text_eq
sensors_valid = refl

pub nameless_invalid : validate_rule nameless ≢ []
unfolding validate_rule validate_rule_for_mosquitto_version principal_problems is_blank runes
nameless_invalid h = cc
