-- ===== src/Acl/Store/Contents.antt =====
-- What each method does to the rule behind every id.
use mcm.Base.{
  ◌+◌, ◌^◌, List, [], ◌∷◌, none, some, ◌≡◌, ◌≢◌, refl, arith, if◌then◌else◌, ◌⊎◌, inl, inr,
  Option-cases, ◌%◌,
}
use mcm.Base.Result.{ok, err}
use mcm.Text.{Bytes, text_eq, text_eq_iff}
use mcm.Text.Decimal.{format_uint}
use mcm.Acl.Rule.{Rule, normalize}
use mcm.Acl.Validate.{Problem, validate_rule}
use mcm.Acl.Store.{
  Records, find, put, remove, invalid, rule_not_found, MemoryStore, create_rule, update_rule,
  delete_rule, create_checked, update_checked, store_existing, delete_existing,
}

pub find-put :
    (k j : Bytes) (r : Rule) (m : Records)
    → find j (put k r m) ≡ (if text_eq k j then some r else find j m)
unfolding find put
find-put k j r [] = refl
find-put k j r ((i, q) ∷ m) =
    ground (arith, text_eq_iff k j, text_eq_iff i k, text_eq_iff i j, find-put k j r m)

pub find-remove :
    (k j : Bytes) (m : Records) → find j (remove k m) ≡ (if text_eq k j then none else find j m)
unfolding find remove
find-remove k j [] = ground arith
find-remove k j ((i, q) ∷ m) =
    ground (arith, text_eq_iff k j, text_eq_iff i k, text_eq_iff i j, find-remove k j m)

-- A rule with a problem is not created and not updated: the error holds the problems of the
-- validation, and the store stays as it was.
pub invalid_rule_refused :
    (r : Rule) (s : MemoryStore) (id : Bytes)
    → validate_rule r ≢ []
    → (create_rule r s ≡ (err (invalid (validate_rule r)), s))
      × (update_rule id r s ≡ (err (invalid (validate_rule r)), s))
unfolding create_rule update_rule
invalid_rule_refused r s id h = go (validate_rule r) h
  where
    go :
        (ps : List Problem)
        → ps ≢ []
        → (create_checked ps r s ≡ (err (invalid ps), s))
          × (update_checked ps id r s ≡ (err (invalid ps), s))
    go [] h = absurd (h refl)
    go (p ∷ ps) h = (refl, refl)

-- A rule without a problem is created: it is stored normalised, with the next number for its id, and
-- every other id keeps its rule.
pub create_rule_contents :
    (r : Rule) (s : MemoryStore)
    → validate_rule r ≡ []
    → let stored = record (normalize r) { id = format_uint s.next_id } in
      ((create_rule r s).0 ≡ ok stored)
      × ((create_rule r s).1.next_id ≡ (s.next_id + 1) % 2 ^ 64)
      × ((j : Bytes)
          → find j (create_rule r s).1.records
            ≡ (if text_eq (format_uint s.next_id) j then some stored else find j s.records))
unfolding create_rule
create_rule_contents r s h = rw (h, create_checked) (refl, refl, λ j. find-put _ j _ s.records)

-- Updating an id with a rule without a problem: where the id has no rule the answer is "not found"
-- and the store stays, else the id has the normalised rule afterwards and every other id its own.
pub update_rule_contents :
    (id : Bytes) (r : Rule) (s : MemoryStore)
    → validate_rule r ≡ []
    → let stored = record (normalize r) { id = id } in
      ((find id s.records ≡ none) × (update_rule id r s ≡ (err rule_not_found, s)))
      ⊎ ((find id s.records ≢ none)
          × ((update_rule id r s).0 ≡ ok stored)
          × ((update_rule id r s).1.next_id ≡ s.next_id)
          × ((j : Bytes)
              → find j (update_rule id r s).1.records
                ≡ (if text_eq id j then some stored else find j s.records)))
unfolding update_rule
update_rule_contents id r s h = elim (Option-cases (find id s.records)) [
  | inl e ↦ rw (h, update_checked) (rw (e, store_existing) (inl (refl, refl)))
  | inr (old, e) ↦
      rw (h, update_checked)
        (rw (e, store_existing) (inr (λ q. cc, refl, refl, λ j. find-put id j _ s.records)))
]

-- Deleting an id: where it has no rule the answer is "not found" and the store stays, else the id has
-- none afterwards and every other id its own.
pub delete_rule_contents :
    (id : Bytes) (s : MemoryStore)
    → ((find id s.records ≡ none) × (delete_rule id s ≡ (err rule_not_found, s)))
      ⊎ ((find id s.records ≢ none)
          × ((delete_rule id s).0 ≡ ok tt)
          × ((delete_rule id s).1.next_id ≡ s.next_id)
          × ((j : Bytes)
              → find j (delete_rule id s).1.records
                ≡ (if text_eq id j then none else find j s.records)))
unfolding delete_rule
delete_rule_contents id s = elim (Option-cases (find id s.records)) [
  | inl e ↦ rw (e, delete_existing) (inl (refl, refl))
  | inr (old, e) ↦
      rw (e, delete_existing) (inr (λ q. cc, refl, refl, λ j. find-remove id j s.records))
]
