-- ===== src/Acl/Effective/Spec.antt =====
-- Which rules speak about a client and a topic, said without the loops.
use mcm.Base.{true, [], ◌≡◌, ◌≢◌, refl, arith}
use mcm.Text.{Bytes, text_eq_iff}
use mcm.Acl.Rule.{Rule, Selector, effective_selector}
use mcm.Acl.Filter.{topic_matches_filter}
use mcm.Acl.Effective.{Identity, applies, applies_under, rule_filter}

-- Pattern rules apply to every client, anonymous rules to a client without a username, user rules
-- to the client with the rule's principal for a username.
pub data AppliesTo (i : Identity) (r : Rule) : Type 0 where
  by_pattern : effective_selector r ≡ Selector.pattern → AppliesTo i r
  by_anonymous : effective_selector r ≡ Selector.anonymous → i.username ≡ [] → AppliesTo i r
  by_user :
      effective_selector r ≡ Selector.user
      → i.username ≢ []
      → r.principal ≡ i.username
      → AppliesTo i r

-- A rule decides about a topic if it applies and its filter, with the placeholders replaced, matches.
pub record SpeaksOf (i : Identity) (topic : Bytes) (r : Rule) : Type 0 where
  pub applies_to : AppliesTo i r
  pub matches : topic_matches_filter (rule_filter r i) topic ≡ true

applies→AppliesTo_under :
    (s : Selector) (i : Identity) (r : Rule)
    → effective_selector r ≡ s
    → applies_under s r i ≡ true
    → AppliesTo i r
applies→AppliesTo_under Selector.pattern i r e h = by_pattern e
applies→AppliesTo_under Selector.anonymous i r e h = by_anonymous e (ground arith)
applies→AppliesTo_under Selector.user i r e h =
    by_user e (λ q. ground arith) (ground (arith, text_eq_iff r.principal i.username))
applies→AppliesTo_under Selector.unset i r e h = cc
applies→AppliesTo_under (Selector.unknown t) i r e h = cc

pub applies→AppliesTo : (i : Identity) (r : Rule) → applies i r ≡ true → AppliesTo i r
applies→AppliesTo i r h = applies→AppliesTo_under (effective_selector r) i r refl h

pub AppliesTo→applies : (i : Identity) (r : Rule) → AppliesTo i r → applies i r ≡ true
AppliesTo→applies i r (by_pattern e) = rw e
AppliesTo→applies i r (by_anonymous e n) = rw (e, n)
AppliesTo→applies i r (by_user e n p) = rw e (ground (arith, text_eq_iff r.principal i.username))
