-- ===== src/AclFile/Document/Scopes.antt =====
-- The sections of a document: every topic line belongs to the user line in front of it.
use mcm.Base.{List, [], ◌∷◌, ◌≡◌, is_empty, inl, inr, Bool-cases, Option-cases}
use mcm.Base.Members.{All}
use mcm.Text.{Bytes}
use mcm.Text.Split.{split}
use mcm.Acl.Validate.{validate_rule}
use mcm.AclFile.Entry.{Entry, parse_acl_entry}
use mcm.AclFile.Entry.Section.{
  InScope, scope_after, parse_acl_entry-InScope, parse_acl_entry-scope, parse_acl_entry-valid,
}
use mcm.AclFile.Document.{
  newline, parse_entries, parse_acl_document, ends_in_newline, drop_last, rules_of, typed_rules,
}

-- Every entry fits the section that the entries in front of it leave open.
abbrev pub WellScoped : Bytes → List Entry → Type 0
WellScoped scope [] = Unit
WellScoped scope (e ∷ es) = InScope scope e × WellScoped (scope_after e.kind e.principal scope) es

parse_entries-WellScoped :
    (scope : Bytes) (raws : List Bytes) → WellScoped scope (parse_entries scope raws)
unfolding parse_entries
parse_entries-WellScoped scope [] = tt
parse_entries-WellScoped scope (r ∷ rs) = (
  parse_acl_entry-InScope r scope,
  rw (← parse_acl_entry-scope r scope) (parse_entries-WellScoped (parse_acl_entry r scope).1 rs),
)

rules_of-valid :
    (scope : Bytes) (raws : List Bytes)
    → All (λ r. validate_rule r ≡ []) (rules_of (parse_entries scope raws))
unfolding parse_entries rules_of
rules_of-valid scope [] = tt
rules_of-valid scope (raw ∷ raws) =
    let rest = rules_of-valid (parse_acl_entry raw scope).1 raws in
    elim (Option-cases (parse_acl_entry raw scope).0.rule) [
      | inl e ↦ rw e rest
      | inr (r, e) ↦ rw e (parse_acl_entry-valid raw scope r e, rest)
    ]

-- In a document that is read from a body, every topic line and its rule have the principal of the
-- last user line in front of it, or none where there is no such line, and every rule that the
-- document gives passes the validation.
pub parse_acl_document_lem :
    (body : Bytes)
    → WellScoped [] (parse_acl_document body).entries
      × All (λ r. validate_rule r ≡ []) (typed_rules (parse_acl_document body))
unfolding parse_acl_document typed_rules
parse_acl_document_lem body = elim (Bool-cases (is_empty body)) [
  | inl e ↦ rw e (tt, tt)
  | inr e ↦ elim (Bool-cases (ends_in_newline body)) [
    | inl n ↦
        rw (e, n)
          (
            parse_entries-WellScoped [] (drop_last (split newline body)),
            rules_of-valid [] (drop_last (split newline body)),
          )
    | inr n ↦
        rw (e, n)
          (parse_entries-WellScoped [] (split newline body), rules_of-valid [] (split newline body))
  ]
]
