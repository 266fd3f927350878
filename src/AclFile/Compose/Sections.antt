-- ===== src/AclFile/Compose/Sections.antt =====
-- Composing keeps every topic line in the section of its principal.
use mcm.Base.{List, [], ◌∷◌, ◌≡◌, refl, Bool-cases, inl, inr}
use mcm.Base.Members.{All}
use mcm.Text.{Bytes}
use mcm.Acl.Rule.{
  Rule, Selector, normalize, effective_selector, normalize_idempotent, mosquitto_acl,
}
use mcm.Acl.Validate.{validate_rule, supported_mosquitto_version}
use mcm.Acl.Validate.Exact.{IsPrincipal, validate_rule_iff}
use mcm.AclFile.Entry.{Entry, Kind}
use mcm.AclFile.Entry.Section.{InScope}
use mcm.AclFile.Document.{Document, contains}
use mcm.AclFile.Document.Scopes.{WellScoped}
use mcm.AclFile.Compose.{
  Progress, managed_rule_key, compose_user_insert_index, first_user_index, anonymous_index,
  managed_entry, header_entry, insert_user_rule, insert_managed_under, insert_managed, compose_rule,
  compose_rules, compose_acl_document,
}
use mcm.AclFile.Compose.Insertion.{
  insert-WellScoped, insert_header-WellScoped, anonymous_scope, user_scope, header_index,
}

managed-InScope :
    (k : Kind) (p raw : Bytes) (r : Rule) → r.principal ≡ p → InScope p (managed_entry k p r raw)
managed-InScope k p raw r e = record {
  principal_scoped = λ t. refl;
  rule_scoped = λ t q f. let same : q ≡ r = cc in rw same e;
}

insert_user_rule-WellScoped :
    (r : Rule) (scope : Bytes) (es : List Entry)
    → WellScoped scope es
    → WellScoped scope (insert_user_rule r es)
unfolding insert_user_rule
insert_user_rule-WellScoped r scope es w =
    let e = managed_entry Kind.topic r.principal r (mosquitto_acl r) in
    let fits = managed-InScope Kind.topic r.principal (mosquitto_acl r) r refl in
    elim (Bool-cases (compose_user_insert_index r.principal es).1) [
      | inl header ↦
          rw (header, header_index r.principal es header)
            (insert_header-WellScoped (header_entry r) e scope es refl fits w)
      | inr section ↦ rw section (
          insert-WellScoped (compose_user_insert_index r.principal es).0 e scope es refl
            (rw (user_scope r.principal scope es section) fits) w)
    ]

-- The principal of an anonymous rule without a problem is empty.
insert_under-WellScoped :
    (s : Selector) (r : Rule) (es : List Entry)
    → IsPrincipal s r.principal
    → WellScoped [] es
    → WellScoped [] (insert_managed_under s r es)
unfolding insert_managed_under
insert_under-WellScoped Selector.pattern r es p w =
    insert-WellScoped (first_user_index es) _ [] es refl
      (record { principal_scoped = λ k. cc; rule_scoped = λ k q f. cc }) w
insert_under-WellScoped Selector.anonymous r es p w =
    insert-WellScoped (anonymous_index es) _ [] es refl
      (rw (anonymous_scope [] es) (managed-InScope Kind.topic [] (mosquitto_acl r) r p)) w
insert_under-WellScoped _ r es p w = insert_user_rule-WellScoped r [] es w

insert_managed-WellScoped :
    (r : Rule) (es : List Entry)
    → validate_rule r ≡ []
    → WellScoped [] es
    → WellScoped [] (insert_managed r es)
unfolding insert_managed validate_rule
insert_managed-WellScoped r es v w =
    let ok = ((validate_rule_iff r supported_mosquitto_version).0 v).principal_ok in
    insert_under-WellScoped (effective_selector (normalize r)) (normalize r) es
      (rw (normalize_idempotent r).1 (unfold normalize in ok)) w

compose_rule-WellScoped :
    (p : Progress) (r : Rule)
    → validate_rule r ≡ []
    → WellScoped [] p.entries
    → WellScoped [] (compose_rule p r).entries
unfolding compose_rule
compose_rule-WellScoped p r v w = elim (Bool-cases (contains (managed_rule_key r) p.existing)) [
  | inl e ↦ rw e w
  | inr e ↦ rw e (insert_managed-WellScoped r p.entries v w)
]

compose_rules-WellScoped :
    (p : Progress) (rs : List Rule)
    → All (λ r. validate_rule r ≡ []) rs
    → WellScoped [] p.entries
    → WellScoped [] (compose_rules p rs).entries
unfolding compose_rules
compose_rules-WellScoped p [] v w = w
compose_rules-WellScoped p (r ∷ rs) v w =
    compose_rules-WellScoped (compose_rule p r) rs v.1 (compose_rule-WellScoped p r v.0 w)

-- Composing rules without a problem into a document whose topic lines stand in the sections of their
-- principals gives such a document: an anonymous rule comes before every user line, and a user rule
-- into the section of its principal.
pub compose-WellScoped :
    (d : Document) (managed : List Rule)
    → All (λ r. validate_rule r ≡ []) managed
    → WellScoped [] d.entries
    → WellScoped [] (compose_acl_document d managed).0.entries
unfolding compose_acl_document
compose-WellScoped d managed v w = compose_rules-WellScoped _ managed v w
