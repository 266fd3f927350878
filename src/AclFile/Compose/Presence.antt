-- ===== src/AclFile/Compose/Presence.antt =====
-- After composing, the document says what the managed rules say, and composing again adds nothing.
use mcm.Base.{
  zero, suc, ℕ, true, false, List, [], ◌∷◌, ◌++◌, ◌≡◌, refl, arith, Bool-cases, inl, inr, ap,
  is_empty, sym, ◌∙◌, append_assoc, append-nil, subst,
}
use mcm.Base.Members.{All, Memᴰ}
use mcm.Text.{Bytes, text_eq, text_eq_iff, is_blank, runes}
use mcm.Acl.Rule.{
  Rule, Selector, normalize, effective_selector, normalize_idempotent, mosquitto_acl,
}
use mcm.Acl.Validate.{validate_rule, supported_mosquitto_version}
use mcm.Acl.Validate.Exact.{IsPrincipal, validate_rule_iff}
use mcm.AclFile.Entry.{Entry, Kind, semantic_key}
use mcm.AclFile.Document.{Document, contains}
use mcm.AclFile.Compose.{
  Progress, Warning, skipped, managed_rule_key, managed_key_under, insert_acl_entry,
  compose_user_insert_index, insert_user_rule, insert_managed_under, insert_managed, compose_rule,
  compose_rules, compose_acl_document, existing_keys, managed_entry, first_user_index,
  anonymous_index,
}
use mcm.AclFile.Compose.Keeps.{Keeps, done, same, more, compose_rule-Keeps, compose_rules-Keeps}

-- Some entry has the key.
abbrev pub HasKey : Bytes → List Entry → Type 0
HasKey k es = (e : Entry) × Memᴰ e es × (semantic_key e ≡ k)

Keeps-mem : {e : Entry} {xs ys : List Entry} → Keeps xs ys → Memᴰ e xs → Memᴰ e ys
Keeps-mem done m = m
Keeps-mem (same k) (Memᴰ.head h) = Memᴰ.head h
Keeps-mem (same k) (Memᴰ.tail m) = Memᴰ.tail (Keeps-mem k m)
Keeps-mem (more k) m = Memᴰ.tail (Keeps-mem k m)

Keeps-HasKey : {k : Bytes} {xs ys : List Entry} → Keeps xs ys → HasKey k xs → HasKey k ys
Keeps-HasKey h (e, m, s) = (e, Keeps-mem h m, s)

mem-insert : (n : ℕ) (e : Entry) (es : List Entry) → Memᴰ e (insert_acl_entry n e es)
unfolding insert_acl_entry
mem-insert zero e es = Memᴰ.head refl
mem-insert (suc n) e [] = Memᴰ.head refl
mem-insert (suc n) e (x ∷ xs) = Memᴰ.tail (mem-insert n e xs)

-- A user rule without a problem has a principal.
principal_shown : (p : Bytes) → is_blank p ≡ false → is_empty p ≡ false
unfolding is_blank runes
principal_shown [] h = cc
principal_shown (c ∷ s) h = refl

user_rule-HasKey :
    (r : Rule) (es : List Entry)
    → is_empty r.principal ≡ false
    → HasKey (managed_key_under Selector.user r) (insert_user_rule r es)
unfolding insert_user_rule semantic_key
user_rule-HasKey r es shown =
    let n = (compose_user_insert_index r.principal es).0 in
    let e = managed_entry Kind.topic r.principal r (mosquitto_acl r) in
    let key : semantic_key e ≡ managed_key_under Selector.user r = rw shown in
    elim (Bool-cases (compose_user_insert_index r.principal es).1) [
      | inl h ↦ rw h (e, mem-insert (suc n) e _, key)
      | inr h ↦ rw h (e, mem-insert n e es, key)
    ]

under-HasKey :
    (s : Selector) (r : Rule) (es : List Entry)
    → IsPrincipal s r.principal
    → HasKey (managed_key_under s r) (insert_managed_under s r es)
unfolding insert_managed_under semantic_key
under-HasKey Selector.pattern r es p = (_, mem-insert (first_user_index es) _ es, refl)
under-HasKey Selector.anonymous r es p = (_, mem-insert (anonymous_index es) _ es, refl)
under-HasKey Selector.user r es p = user_rule-HasKey r es (principal_shown r.principal p.0)
under-HasKey Selector.unset r es p = absurd p
under-HasKey (Selector.unknown t) r es p = absurd p

managed_rule_key-normalize : (r : Rule) → managed_rule_key (normalize r) ≡ managed_rule_key r
unfolding managed_rule_key normalize
managed_rule_key-normalize r = ground arith

insert_managed-HasKey :
    (r : Rule) (es : List Entry)
    → validate_rule r ≡ []
    → HasKey (managed_rule_key r) (insert_managed r es)
unfolding insert_managed validate_rule
insert_managed-HasKey r es v =
    let ok = ((validate_rule_iff r supported_mosquitto_version).0 v).principal_ok in
    subst (λ k. HasKey k (insert_managed r es)) (managed_rule_key-normalize r)
      (unfold managed_rule_key in
        under-HasKey (effective_selector (normalize r)) (normalize r) es
          (rw (normalize_idempotent r).1 (unfold normalize in ok)))

existing_keys-HasKey :
    (k : Bytes) (es : List Entry) → contains k (existing_keys es) ≡ true → HasKey k es
unfolding existing_keys contains
existing_keys-HasKey k [] h = cc
existing_keys-HasKey k (e ∷ es) h = elim (Bool-cases (is_empty (semantic_key e))) [
  | inl n ↦ let (x, m, s) = existing_keys-HasKey k es (rw n at h) in (x, Memᴰ.tail m, s)
  | inr n ↦ elim (Bool-cases (text_eq (semantic_key e) k)) [
    | inl q ↦ (e, Memᴰ.head refl, (text_eq_iff (semantic_key e) k).0 q)
    | inr q ↦ let (x, m, s) = existing_keys-HasKey k es (rw (n, q) at h) in (x, Memᴰ.tail m, s)
  ]
]

HasKey-existing_keys :
    (k : Bytes) (es : List Entry)
    → is_empty k ≡ false
    → HasKey k es
    → contains k (existing_keys es) ≡ true
unfolding existing_keys contains
HasKey-existing_keys k [] n (e, m, s) = elim m [ ]
HasKey-existing_keys k (x ∷ xs) n (e, Memᴰ.head h, s) =
    let key : semantic_key x ≡ k = ap semantic_key (sym h) ∙ s in
    let shown : is_empty (semantic_key x) ≡ false = rw key n in
    ground (arith, text_eq_iff (semantic_key x) k)
HasKey-existing_keys k (x ∷ xs) n (e, Memᴰ.tail m, s) =
    ground (arith, HasKey-existing_keys k xs n (e, m, s))

-- The set of keys that the loop keeps is right about the entries.
abbrev IsTracked : Progress → Type 0
IsTracked p = (k : Bytes) → contains k p.existing ≡ true → HasKey k p.entries

module _ (p : Progress) (r : Rule) (valid : validate_rule r ≡ []) (t : IsTracked p) where
  compose_rule-HasKey : HasKey (managed_rule_key r) (compose_rule p r).entries
  unfolding compose_rule
  compose_rule-HasKey = elim (Bool-cases (contains (managed_rule_key r) p.existing)) [
    | inl e ↦ rw e (t (managed_rule_key r) e)
    | inr e ↦ rw e (insert_managed-HasKey r p.entries valid)
  ]

  compose_rule-IsTracked : IsTracked (compose_rule p r)
  compose_rule-IsTracked k h = elim (Bool-cases (text_eq (managed_rule_key r) k)) [
    | inl q ↦
        subst (λ k. HasKey k (compose_rule p r).entries) ((text_eq_iff (managed_rule_key r) k).0 q)
          compose_rule-HasKey
    | inr q ↦ Keeps-HasKey (compose_rule-Keeps p r) (t k (known q h))
  ]
    where
      known :
          text_eq (managed_rule_key r) k ≡ false
          → contains k (compose_rule p r).existing ≡ true
          → contains k p.existing ≡ true
      known q h = unfold compose_rule contains in ground arith

compose_rules-HasKey :
    (p : Progress) (rs : List Rule)
    → All (λ r. validate_rule r ≡ []) rs
    → IsTracked p
    → All (λ r. HasKey (managed_rule_key r) (compose_rules p rs).entries) rs
unfolding compose_rules
compose_rules-HasKey p [] v t = tt
compose_rules-HasKey p (r ∷ rs) v t = (
  Keeps-HasKey (compose_rules-Keeps (compose_rule p r) rs) (compose_rule-HasKey p r v.0 t),
  compose_rules-HasKey (compose_rule p r) rs v.1 (compose_rule-IsTracked p r v.0 t),
)

-- Where no managed rule has a problem, every one of them is in the composed document: some entry has its
-- key.
pub compose-HasKey :
    (d : Document) (managed : List Rule)
    → All (λ r. validate_rule r ≡ []) managed
    → All (λ r. HasKey (managed_rule_key r) (compose_acl_document d managed).0.entries) managed
unfolding compose_acl_document
compose-HasKey d managed v =
    compose_rules-HasKey _ managed v (λ k h. existing_keys-HasKey k d.entries h)

abbrev pub skip_all : List Rule → List Warning
skip_all [] = []
skip_all (r ∷ rs) = skipped (managed_rule_key r) ∷ skip_all rs

compose_rules_skip :
    (p : Progress) (rs : List Rule)
    → All (λ r. contains (managed_rule_key r) p.existing ≡ true) rs
    → compose_rules p rs ≡ record p { warnings = p.warnings ++ skip_all rs }
unfolding compose_rules compose_rule
compose_rules_skip p [] a = ground (arith, append-nil p.warnings)
compose_rules_skip p (r ∷ rs) a =
    let p' = record p { warnings = p.warnings ++ (skipped (managed_rule_key r) ∷ []) } in
    rw a.0 (
      compose_rules_skip p' rs a.1
      ∙ ap (λ (w : List Warning). record p { warnings = w })
          (append_assoc p.warnings (skipped (managed_rule_key r) ∷ []) (skip_all rs)))

managed_rule_key-shown : (r : Rule) → is_empty (managed_rule_key r) ≡ false
unfolding managed_rule_key
managed_rule_key-shown r = ground arith

All-existing :
    (es : List Entry) (rs : List Rule)
    → All (λ r. HasKey (managed_rule_key r) es) rs
    → All (λ r. contains (managed_rule_key r) (existing_keys es) ≡ true) rs
All-existing es [] a = tt
All-existing es (r ∷ rs) a = (
  HasKey-existing_keys (managed_rule_key r) es (managed_rule_key-shown r) a.0,
  All-existing es rs a.1,
)

-- Where no managed rule has a problem, composing the same rules once more changes nothing: every rule is
-- reported as already present.
pub compose_idempotent :
    (d : Document) (managed : List Rule)
    → All (λ r. validate_rule r ≡ []) managed
    → let d' = (compose_acl_document d managed).0 in
      compose_acl_document d' managed ≡ (d', skip_all managed)
compose_idempotent d managed v =
    let d' = (compose_acl_document d managed).0 in
    unfold compose_acl_document in
    ap
      (λ (p : Progress).
        (record { entries = p.entries; ends_with_newline = d'.ends_with_newline }, p.warnings))
      (compose_rules_skip
        (record { entries = d'.entries; existing = existing_keys d'.entries; warnings = [] })
        managed (All-existing d'.entries managed (compose-HasKey d managed v)))
