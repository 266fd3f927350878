-- ===== src/AclFile/Compose/Keeps.antt =====
-- Composing keeps every entry of the document, in order.
use mcm.Base.{zero, suc, ℕ, List, [], ◌∷◌, ◌≡◌, refl, Bool-cases, inl, inr}
use mcm.Acl.Rule.{Rule, Selector, normalize, effective_selector}
use mcm.AclFile.Entry.{Entry}
use mcm.AclFile.Document.{Document, contains}
use mcm.AclFile.Compose.{
  Progress, managed_rule_key, insert_acl_entry, compose_user_insert_index, insert_user_rule,
  insert_managed_under, insert_managed, compose_rule, compose_rules, compose_acl_document,
  header_entry,
}

-- The entries of the first list stand in the second, in order, with others between them.
pub data Keeps : List Entry → List Entry → Type 0 where
  done : Keeps [] []
  same : {e : Entry} {xs ys : List Entry} → Keeps xs ys → Keeps (e ∷ xs) (e ∷ ys)
  more : {e : Entry} {xs ys : List Entry} → Keeps xs ys → Keeps xs (e ∷ ys)

pub Keeps-refl : (xs : List Entry) → Keeps xs xs
Keeps-refl [] = done
Keeps-refl (x ∷ xs) = same (Keeps-refl xs)

Keeps-trans : {xs ys zs : List Entry} → Keeps xs ys → Keeps ys zs → Keeps xs zs
Keeps-trans h done = h
Keeps-trans h (more k) = more (Keeps-trans h k)
Keeps-trans (same h) (same k) = same (Keeps-trans h k)
Keeps-trans (more h) (same k) = more (Keeps-trans h k)

pub insert-Keeps : (n : ℕ) (e : Entry) (es : List Entry) → Keeps es (insert_acl_entry n e es)
unfolding insert_acl_entry
insert-Keeps zero e es = more (Keeps-refl es)
insert-Keeps (suc n) e [] = more done
insert-Keeps (suc n) e (x ∷ xs) = same (insert-Keeps n e xs)

insert_user_rule-Keeps : (r : Rule) (es : List Entry) → Keeps es (insert_user_rule r es)
unfolding insert_user_rule
insert_user_rule-Keeps r es =
    let n = (compose_user_insert_index r.principal es).0 in
    elim (Bool-cases (compose_user_insert_index r.principal es).1) [
      | inl h ↦ rw h (Keeps-trans (insert-Keeps n (header_entry r) es) (insert-Keeps (suc n) _ _))
      | inr h ↦ rw h (insert-Keeps n _ es)
    ]

insert_under-Keeps :
    (s : Selector) (r : Rule) (es : List Entry) → Keeps es (insert_managed_under s r es)
unfolding insert_managed_under
insert_under-Keeps Selector.pattern r es = insert-Keeps _ _ es
insert_under-Keeps Selector.anonymous r es = insert-Keeps _ _ es
insert_under-Keeps _ r es = insert_user_rule-Keeps r es

pub insert_managed-Keeps : (r : Rule) (es : List Entry) → Keeps es (insert_managed r es)
unfolding insert_managed
insert_managed-Keeps r es = insert_under-Keeps (effective_selector (normalize r)) (normalize r) es

pub compose_rule-Keeps : (p : Progress) (r : Rule) → Keeps p.entries (compose_rule p r).entries
unfolding compose_rule
compose_rule-Keeps p r = elim (Bool-cases (contains (managed_rule_key r) p.existing)) [
  | inl e ↦ rw e (Keeps-refl p.entries)
  | inr e ↦ rw e (insert_managed-Keeps r p.entries)
]

pub compose_rules-Keeps :
    (p : Progress) (rs : List Rule) → Keeps p.entries (compose_rules p rs).entries
unfolding compose_rules
compose_rules-Keeps p [] = Keeps-refl p.entries
compose_rules-Keeps p (r ∷ rs) =
    Keeps-trans (compose_rule-Keeps p r) (compose_rules-Keeps (compose_rule p r) rs)

-- A composed document holds every entry of the source document, unchanged and in order, and ends in
-- a newline exactly if the source does.
pub compose-Keeps :
    (d : Document) (managed : List Rule)
    → Keeps d.entries (compose_acl_document d managed).0.entries
      × ((compose_acl_document d managed).0.ends_with_newline ≡ d.ends_with_newline)
unfolding compose_acl_document
compose-Keeps d managed = (compose_rules-Keeps _ managed, refl)
