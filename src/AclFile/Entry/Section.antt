-- ===== src/AclFile/Entry/Section.antt =====
-- The section that a line stands in, and the rules that a read line carries.
use mcm.Base.{List, [], ◌∷◌, none, some, ◌≡◌, ◌≢◌, refl, arith, is_empty, inl, inr, Bool-cases, ap}
use mcm.Text.{Bytes, codes, trim_space, has_prefix, fields, text_eq, to_lower}
use mcm.Text.Split.{join}
use mcm.Acl.Rule.{Rule, Selector}
use mcm.Acl.Validate.{Problem, validate_rule}
use mcm.AclFile.Entry.{
  Entry, Kind, parse_acl_entry, directive_entry, user_entry, topic_entry, pattern_entry,
  build_acl_rule, checked_rule, mosquitto_perm_to_acl_perm, is_unset,
}

-- A user line opens the section of its principal; every other line leaves the section open.
abbrev pub scope_after : Kind → Bytes → Bytes → Bytes
scope_after Kind.user principal scope = principal
scope_after _ principal scope = scope

-- What a line in a section says of it: a topic line has the section's principal, and so has the rule
-- that it carries.
pub record InScope (scope : Bytes) (e : Entry) : Type 0 where
  pub principal_scoped : e.kind ≡ Kind.topic → e.principal ≡ scope
  pub rule_scoped : e.kind ≡ Kind.topic → (r : Rule) → e.rule ≡ some r → r.principal ≡ scope

checked_rule_lem :
    (ps : List Problem) (r q : Rule)
    → validate_rule r ≡ ps
    → (checked_rule ps r).0 ≡ some q
    → (q ≡ r) × (validate_rule q ≡ [])
checked_rule_lem [] r q v e = let same : q ≡ r = cc in (same, rw same v)
checked_rule_lem (p ∷ ps) r q v e = cc

-- A rule that is read from a line has the line's principal and passes the validation.
pub build_acl_rule_lem :
    (s : Selector) (principal permission filter : Bytes) {r : Rule}
    → (build_acl_rule s principal permission filter).0 ≡ some r
    → (r.principal ≡ principal) × (validate_rule r ≡ [])
unfolding build_acl_rule
build_acl_rule_lem s principal permission filter {r} e =
    elim (Bool-cases (is_unset (mosquitto_perm_to_acl_perm (to_lower permission)))) [
      | inl u ↦ let none_is_some : none ≡ some r = rw u at e in cc
      | inr u ↦
          let (same, ok) = checked_rule_lem _ _ r refl (rw u at e) in
          (ap (λ (q : Rule). q.principal) same, ok)
    ]

-- What is shown of each line read under `scope`.
record Read (scope : Bytes) (t : Entry × Bytes) : Type 0 where
  in_scope : InScope scope t.0
  onward : t.1 ≡ scope_after t.0.kind t.0.principal scope
  valid : (r : Rule) → t.0.rule ≡ some r → validate_rule r ≡ []

plain_Read :
    (scope : Bytes) (e : Entry)
    → e.rule ≡ none
    → e.kind ≢ Kind.topic
    → e.kind ≢ Kind.user
    → Read scope (e, scope)
plain_Read scope e no_rule t u = record {
  in_scope = record { principal_scoped = λ k. absurd (t k); rule_scoped = λ k. absurd (t k) };
  onward = ground arith;
  valid = λ r h. cc;
}

user_Read : (raw scope : Bytes) (ws : List Bytes) → Read scope (user_entry raw scope ws)
unfolding user_entry
user_Read raw scope (w ∷ p ∷ []) = record {
  in_scope = record { principal_scoped = λ k. cc; rule_scoped = λ k r h. cc };
  onward = refl;
  valid = λ r h. cc;
}
user_Read raw scope [] = plain_Read scope _ refl (λ k. cc) (λ k. cc)
user_Read raw scope (w ∷ []) = plain_Read scope _ refl (λ k. cc) (λ k. cc)
user_Read raw scope (w ∷ p ∷ q ∷ ws) = plain_Read scope _ refl (λ k. cc) (λ k. cc)

topic_Read : (raw scope : Bytes) (ws : List Bytes) → Read scope (topic_entry raw scope ws, scope)
unfolding topic_entry
topic_Read raw scope [] = plain_Read scope _ refl (λ k. cc) (λ k. cc)
topic_Read raw scope (w ∷ []) = plain_Read scope _ refl (λ k. cc) (λ k. cc)
topic_Read raw scope (w ∷ p ∷ []) = plain_Read scope _ refl (λ k. cc) (λ k. cc)
topic_Read raw scope (w ∷ p ∷ f ∷ fs) = record {
  in_scope = record {
    principal_scoped = λ k. refl;
    rule_scoped = λ k r h. (build_acl_rule_lem _ scope p (join b' ' (f ∷ fs)) h).0;
  };
  onward = refl;
  valid = λ r h. (build_acl_rule_lem _ scope p (join b' ' (f ∷ fs)) h).1;
}

pattern_Read : (raw scope : Bytes) (ws : List Bytes) → Read scope (pattern_entry raw ws, scope)
unfolding pattern_entry
pattern_Read raw scope [] = plain_Read scope _ refl (λ k. cc) (λ k. cc)
pattern_Read raw scope (w ∷ []) = plain_Read scope _ refl (λ k. cc) (λ k. cc)
pattern_Read raw scope (w ∷ p ∷ []) = plain_Read scope _ refl (λ k. cc) (λ k. cc)
pattern_Read raw scope (w ∷ p ∷ f ∷ fs) = record {
  in_scope = record { principal_scoped = λ k. cc; rule_scoped = λ k r h. cc };
  onward = refl;
  valid = λ r h. (build_acl_rule_lem Selector.pattern (codes "") p (join b' ' (f ∷ fs)) h).1;
}

module _ (raw scope : Bytes) where
  directive_Read : (ws : List Bytes) → Read scope (directive_entry raw scope ws)
  unfolding directive_entry
  directive_Read [] = plain_Read scope _ refl (λ k. cc) (λ k. cc)
  directive_Read (w ∷ ws) = elim (Bool-cases (text_eq (to_lower w) (codes "user"))) [
    | inl u ↦ rw u (user_Read raw scope (w ∷ ws))
    | inr u ↦ elim (Bool-cases (text_eq (to_lower w) (codes "topic"))) [
      | inl t ↦ rw (u, t) (topic_Read raw scope (w ∷ ws))
      | inr t ↦ elim (Bool-cases (text_eq (to_lower w) (codes "pattern"))) [
        | inl p ↦ rw (u, t, p) (pattern_Read raw scope (w ∷ ws))
        | inr p ↦ rw (u, t, p) (plain_Read scope _ refl (λ k. cc) (λ k. cc))
      ]
    ]
  ]

  parse_Read : Read scope (parse_acl_entry raw scope)
  unfolding parse_acl_entry
  parse_Read = elim (Bool-cases (is_empty (trim_space raw))) [
    | inl b ↦ rw b (plain_Read scope _ refl (λ k. cc) (λ k. cc))
    | inr b ↦ elim (Bool-cases (has_prefix (codes "#") (trim_space raw))) [
      | inl c ↦ rw (b, c) (plain_Read scope _ refl (λ k. cc) (λ k. cc))
      | inr c ↦ rw (b, c) (directive_Read (fields (trim_space raw)))
    ]
  ]

  -- A read line fits the section that it is read in.
  pub parse_acl_entry-InScope : InScope scope (parse_acl_entry raw scope).0
  parse_acl_entry-InScope = parse_Read.in_scope

  -- The section behind a read line.
  pub parse_acl_entry-scope :
      (parse_acl_entry raw scope).1
      ≡ scope_after (parse_acl_entry raw scope).0.kind (parse_acl_entry raw scope).0.principal scope
  parse_acl_entry-scope = parse_Read.onward

  -- The rule of a read line passes the validation.
  pub parse_acl_entry-valid :
      (r : Rule) → (parse_acl_entry raw scope).0.rule ≡ some r → validate_rule r ≡ []
  parse_acl_entry-valid = parse_Read.valid
