-- ===== src/Acl/Store.antt =====
-- internal/acl/store.go: the in-memory store. Each method takes the lock for all of its work, so a
-- method is one function from the store to its result and the new store.
pub mod Invariant
pub mod Contents
pub mod Listing
pub mod Reach
pub mod Served
use mcm.Base.{
  ℕ, ◌+◌, ◌%◌, ◌^◌, Bool, true, false, List, [], ◌∷◌, Option, none, some, if◌then◌else◌, ltb,
}
use mcm.Base.Result.{Result, ok, err}
use mcm.Text.{Bytes, text_eq}
use mcm.Text.Decimal.{format_uint, parse_uint}
use mcm.Acl.Rule.{Rule, normalize}
use mcm.Acl.Validate.{Problem, validate_rule}

-- The map from ids to rules, as an association list.
abbrev pub Records : Type 0
Records = List (Bytes × Rule)

unfoldable pub find : Bytes → Records → Option Rule
find k [] = none
find k ((j, r) ∷ m) = if text_eq j k then some r else find k m

unfoldable pub put : Bytes → Rule → Records → Records
put k r [] = (k, r) ∷ []
put k r ((j, q) ∷ m) = if text_eq j k then (k, r) ∷ m else (j, q) ∷ put k r m

unfoldable pub remove : Bytes → Records → Records
remove k [] = []
remove k ((j, q) ∷ m) = let rest = remove k m in if text_eq j k then rest else (j, q) ∷ rest

pub data StoreError : Type 0 where
  invalid : List Problem → StoreError
  rule_not_found : StoreError

-- `nextID` is a uint64.
pub record MemoryStore : Type 0 where
  pub next_id : ℕ
  pub records : Records

unfoldable pub new_memory_store : MemoryStore
new_memory_store = record { next_id = 1; records = [] }

store_new : Rule → MemoryStore → Rule × MemoryStore
store_new r s =
    let r' = record r { id = format_uint s.next_id } in
    (r', record { next_id = (s.next_id + 1) % 2 ^ 64; records = put r'.id r' s.records })

create_checked : List Problem → Rule → MemoryStore → Result StoreError Rule × MemoryStore
create_checked [] r s = let (r', s') = store_new (normalize r) s in (ok r', s')
create_checked (p ∷ ps) r s = (err (invalid (p ∷ ps)), s)

unfoldable pub create_rule : Rule → MemoryStore → Result StoreError Rule × MemoryStore
unfolding create_checked store_new
create_rule r s = create_checked (validate_rule r) r s

store_existing : Option Rule → Bytes → Rule → MemoryStore → Result StoreError Rule × MemoryStore
store_existing none id r s = (err rule_not_found, s)
store_existing (some old) id r s =
    let r' = record r { id = id } in (ok r', record s { records = put id r' s.records })

update_checked : List Problem → Bytes → Rule → MemoryStore → Result StoreError Rule × MemoryStore
update_checked [] id r s = store_existing (find id s.records) id (normalize r) s
update_checked (p ∷ ps) id r s = (err (invalid (p ∷ ps)), s)

unfoldable pub update_rule : Bytes → Rule → MemoryStore → Result StoreError Rule × MemoryStore
unfolding update_checked store_existing
update_rule id r s = update_checked (validate_rule r) id r s

delete_existing : Option Rule → Bytes → MemoryStore → Result StoreError (Unit {0}) × MemoryStore
delete_existing none id s = (err rule_not_found, s)
delete_existing (some old) id s = (ok tt, record s { records = remove id s.records })

unfoldable pub delete_rule : Bytes → MemoryStore → Result StoreError (Unit {0}) × MemoryStore
unfolding delete_existing
delete_rule id s = delete_existing (find id s.records) id s

-- `sort.Slice` by the numeric id. The ids of a store differ, so that the result is the only one.
unfoldable pub insert_by_id : Rule → List Rule → List Rule
insert_by_id r [] = r ∷ []
insert_by_id r (q ∷ qs) =
    if ltb (parse_uint q.id) (parse_uint r.id) then q ∷ insert_by_id r qs else r ∷ q ∷ qs

unfoldable pub sort_by_id : Records → List Rule
unfolding insert_by_id
sort_by_id [] = []
sort_by_id ((k, r) ∷ m) = insert_by_id r (sort_by_id m)

unfoldable pub list_rules : MemoryStore → List Rule
unfolding sort_by_id
list_rules s = sort_by_id s.records
