-- ===== src/Acl/Store/Reach.antt =====
-- internal/acl/store.go: the stores that calls of the methods lead to.
use mcm.Base.{
  ℕ, zero, suc, ◌+◌, ◌^◌, ◌<◌, ◌≤◌, ◌≡◌, ◌↔◌, refl, none, some, List, [], ◌∷◌, arith, Option-cases,
  inl, inr,
}
use mcm.Base.Members.{Memᴰ}
use mcm.Text.{Bytes}
use mcm.Text.Decimal.{format_uint}
use mcm.Acl.Rule.{Rule}
use mcm.Acl.Validate.{Problem, validate_rule}
use mcm.Acl.Store.{
  MemoryStore, new_memory_store, create_rule, create_checked, store_new, update_rule,
  update_checked, store_existing, delete_rule, delete_existing, list_rules, find,
}
use mcm.Acl.Store.Invariant.{
  IsStore, new-IsStore, create_rule-fresh, create_rule-IsStore, update_rule-IsStore,
  delete_rule-IsStore,
}
use mcm.Acl.Store.Listing.{IsSorted, list_rules_lem}

-- One call of a method that changes the store.
pub data Step : MemoryStore → MemoryStore → Type 0 where
  create : (r : Rule) (s : MemoryStore) → Step s (create_rule r s).1
  update : (id : Bytes) (r : Rule) (s : MemoryStore) → Step s (update_rule id r s).1
  delete : (id : Bytes) (s : MemoryStore) → Step s (delete_rule id s).1

-- A store after n calls.
pub data Reach : ℕ → MemoryStore → Type 0 where
  start : Reach zero new_memory_store
  next : {n : ℕ} {s t : MemoryStore} → Reach n s → Step s t → Reach (suc n) t

create-next_id-le : (r : Rule) (s : MemoryStore) → (create_rule r s).1.next_id ≤ s.next_id + 1
unfolding create_rule create_checked store_new
create-next_id-le r s = go (validate_rule r)
  where
    go : (ps : List Problem) → (create_checked ps r s).1.next_id ≤ s.next_id + 1
    go [] = omega arith
    go (p ∷ ps) = omega arith

update-next_id :
    (id : Bytes) (r : Rule) (s : MemoryStore) → (update_rule id r s).1.next_id ≡ s.next_id
unfolding update_rule
update-next_id id r s = go (validate_rule r)
  where
    go : (ps : List Problem) → (update_checked ps id r s).1.next_id ≡ s.next_id
    go [] = elim (Option-cases (find id s.records)) [
      | inl e ↦ rw (e, store_existing) refl
      | inr (old, e) ↦ rw (e, store_existing) refl
    ]
    go (p ∷ ps) = refl

delete-next_id : (id : Bytes) (s : MemoryStore) → (delete_rule id s).1.next_id ≡ s.next_id
unfolding delete_rule
delete-next_id id s = elim (Option-cases (find id s.records)) [
  | inl e ↦ rw (e, delete_existing) refl
  | inr (old, e) ↦ rw (e, delete_existing) refl
]

Step-next_id-le : {s t : MemoryStore} → Step s t → t.next_id ≤ s.next_id + 1
Step-next_id-le (create r s) = create-next_id-le r s
Step-next_id-le (update id r s) = omega (arith, update-next_id id r s)
Step-next_id-le (delete id s) = omega (arith, delete-next_id id s)

Step-IsStore : {s t : MemoryStore} → Step s t → s.next_id + 1 < 2 ^ 64 → IsStore s → IsStore t
Step-IsStore (create r s) room v = create_rule-IsStore r s room v
Step-IsStore (update id r s) room v = update_rule-IsStore id r s v
Step-IsStore (delete id s) room v = delete_rule-IsStore id s v

-- Every call takes an id at most.
Reach-next_id-le : {n : ℕ} {s : MemoryStore} → Reach n s → s.next_id ≤ n + 1
unfolding new_memory_store
Reach-next_id-le start = omega arith
Reach-next_id-le (next r st) = omega (arith, Reach-next_id-le r, Step-next_id-le st)

Reach-IsStore : {n : ℕ} {s : MemoryStore} → Reach n s → n + 1 < 2 ^ 64 → IsStore s
Reach-IsStore start h = new-IsStore
Reach-IsStore (next r st) h =
    Step-IsStore st (omega (arith, Reach-next_id-le r, h)) (Reach-IsStore r (omega (arith, h)))

-- After fewer than 2^64 - 1 calls the store is well formed, the next id is free, and the list of rules
-- has exactly the rules that the store holds under their ids, by rising numeric id.
pub reached-IsStore :
    {n : ℕ} {s : MemoryStore}
    → Reach n s
    → n + 1 < 2 ^ 64
    → IsStore s
      × (find (format_uint s.next_id) s.records ≡ none)
      × IsSorted (list_rules s)
      × ((r : Rule) → Memᴰ r (list_rules s) ↔ (find r.id s.records ≡ some r))
reached-IsStore r h =
    let v = Reach-IsStore r h in
    let listing = list_rules_lem _ v in (v, create_rule-fresh _ v, listing.0, listing.1)
