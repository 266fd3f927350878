-- ===== src/Acl/Validate/Normal.antt =====
-- Normalising a rule keeps it valid, and is done once.
use mcm.Base.{[], ◌≡◌, refl, arith}
use mcm.Text.{Bytes}
use mcm.Acl.Rule.{Rule, Scope, normalize, normalize_idempotent, effective_scope}
use mcm.Acl.Validate.{validate_rule, supported_mosquitto_version}
use mcm.Acl.Validate.Exact.{IsRule, IsTarget, validate_rule_iff}

IsTarget-normalized :
    (sc : Scope) (r : Rule)
    → r.scope ≡ sc
    → IsTarget (effective_scope r) r.listener_id
    → IsTarget (effective_scope (normalize r)) (normalize r).listener_id
unfolding normalize
IsTarget-normalized Scope.unset r e h = rw e (refl)
IsTarget-normalized Scope.global r e h = rw e (refl)
IsTarget-normalized Scope.listener r e h = rw e (rw e at h)
IsTarget-normalized (Scope.unknown t) r e h = absurd (rw e at h)

-- Normalising and numbering keep a rule valid.
normalize-IsRule :
    (r : Rule) (id version : Bytes)
    → IsRule r version
    → IsRule (record (normalize r) { id = id }) version
unfolding normalize
normalize-IsRule r id version v =
    let same = (normalize_idempotent r).1 in
    record {
      principal_ok = rw same v.principal_ok;
      target_ok = IsTarget-normalized r.scope r refl v.target_ok;
      filter_shown = v.filter_shown;
      filter_ok = v.filter_ok;
      pattern_ok = rw same v.pattern_ok;
      permission_ok = v.permission_ok;
    }

pub normalize-valid :
    (r : Rule) (id : Bytes)
    → validate_rule r ≡ []
    → validate_rule (record (normalize r) { id = id }) ≡ []
unfolding validate_rule
normalize-valid r id h =
    (validate_rule_iff _ supported_mosquitto_version).1
      (normalize-IsRule r id supported_mosquitto_version ((validate_rule_iff r _).0 h))

pub normalize-normal :
    (r : Rule) (id : Bytes)
    → normalize (record (normalize r) { id = id }) ≡ record (normalize r) { id = id }
unfolding normalize
normalize-normal r id = ground arith
