-- ===== src/Acl/Store/Served.antt =====
-- internal/acl/store.go: what a caller of the store may rely on, as a function from ids to rules and a
-- count that has no end, and that the methods implement it.
use mcm.Base.{
  ℕ, ◌+◌, ◌%◌, ◌^◌, ◌<◌, ◌≡◌, refl, ◌∙◌, List, [], ◌∷◌, Option, none, some, arith, if◌then◌else◌,
  Option-cases, inl, inr, length,
}
use mcm.Base.Result.{Result, ok, err}
use mcm.Text.{Bytes, text_eq}
use mcm.Text.Decimal.{format_uint}
use mcm.Acl.Rule.{Rule, normalize}
use mcm.Acl.Validate.{Problem, validate_rule}
use mcm.Acl.Store.{
  MemoryStore, StoreError, invalid, rule_not_found, new_memory_store, create_rule, create_checked,
  store_new, update_rule, update_checked, store_existing, delete_rule, delete_existing, find,
}
use mcm.Acl.Store.Contents.{find-put, find-remove}

pub data Request : Type 0 where
  create : Rule → Request
  update : Bytes → Rule → Request
  delete : Bytes → Request

pub data Answer : Type 0 where
  rule_answer : Result StoreError Rule → Answer
  delete_answer : Result StoreError (Unit {0}) → Answer

-- A call of the method.
unfoldable pub perform : Request → MemoryStore → Answer × MemoryStore
unfolding create_rule update_rule delete_rule
perform (create r) s = let (a, s') = create_rule r s in (rule_answer a, s')
perform (update id r) s = let (a, s') = update_rule id r s in (rule_answer a, s')
perform (delete id) s = let (a, s') = delete_rule id s in (delete_answer a, s')

-- The contract: which rule an id has, and how many ids were given out.
pub record Catalog : Type 0 where
  pub given : ℕ
  pub rule_of : Bytes → Option Rule

abbrev with_rule : Bytes → Option Rule → Catalog → Catalog
with_rule id r c = record c { rule_of = λ j. if text_eq id j then r else c.rule_of j }

abbrev create_promise : List Problem → Rule → Catalog → Answer × Catalog
create_promise (p ∷ ps) r c = (rule_answer (err (invalid (p ∷ ps))), c)
create_promise [] r c =
    let id = format_uint (c.given + 1) in
    let stored = record r { id = id } in
    (rule_answer (ok stored), with_rule id (some stored) (record c { given = c.given + 1 }))

abbrev update_promise : List Problem → Option Rule → Bytes → Rule → Catalog → Answer × Catalog
update_promise (p ∷ ps) old id r c = (rule_answer (err (invalid (p ∷ ps))), c)
update_promise [] none id r c = (rule_answer (err rule_not_found), c)
update_promise [] (some old) id r c =
    let stored = record r { id = id } in (rule_answer (ok stored), with_rule id (some stored) c)

abbrev delete_promise : Option Rule → Bytes → Catalog → Answer × Catalog
delete_promise none id c = (delete_answer (err rule_not_found), c)
delete_promise (some old) id c = (delete_answer (ok tt), with_rule id none c)

unfoldable pub promise : Request → Catalog → Answer × Catalog
promise (create r) c = create_promise (validate_rule r) (normalize r) c
promise (update id r) c = update_promise (validate_rule r) (c.rule_of id) id (normalize r) c
promise (delete id) c = delete_promise (c.rule_of id) id c

module _ {S : Type 0} (step : Request → S → Answer × S) where
  -- The answers to requests one after the other, and the state behind the last.
  unfoldable pub serve : List Request → S → List Answer × S
  serve [] s = ([], s)
  serve (q ∷ qs) s = let (a, s') = step q s in let (answers, t) = serve qs s' in (a ∷ answers, t)

-- The store holds what the catalog says.
pub record Holds (s : MemoryStore) (c : Catalog) : Type 0 where
  pub counted : s.next_id ≡ c.given + 1
  pub found : (id : Bytes) → find id s.records ≡ c.rule_of id

abbrev Matches : MemoryStore → Answer × MemoryStore → Answer × Catalog → Type 0
Matches s p q = (p.0 ≡ q.0) × Holds p.1 q.1 × (p.1.next_id < s.next_id + 2)

create-Matches :
    (ps : List Problem) (r : Rule) (s : MemoryStore) (c : Catalog)
    → s.next_id + 1 < 2 ^ 64
    → Holds s c
    → let made = create_checked ps r s in
      Matches s (rule_answer made.0, made.1) (create_promise ps (normalize r) c)
unfolding create_checked store_new
create-Matches (p ∷ ps) r s c room h = (refl, h, omega arith)
create-Matches [] r s c room h =
    let small : (s.next_id + 1) % 2 ^ 64 ≡ s.next_id + 1 = omega (arith, room) in
    rw (small, h.counted)
      (
        refl,
        record { counted = refl; found = λ j. find-put _ j _ s.records ∙ rw (h.found j) refl },
        omega arith,
      )

update-Matches :
    (ps : List Problem) (id : Bytes) (r : Rule) (s : MemoryStore) (c : Catalog)
    → Holds s c
    → let made = update_checked ps id r s in
      Matches s (rule_answer made.0, made.1) (update_promise ps (c.rule_of id) id (normalize r) c)
unfolding update_checked store_existing
update-Matches (p ∷ ps) id r s c h = (refl, h, omega arith)
update-Matches [] id r s c h = rw (← h.found id) (elim (Option-cases (find id s.records)) [
  | inl e ↦ rw e (refl, h, omega arith)
  | inr (old, e) ↦ rw e (
    refl,
    record { counted = h.counted; found = λ j. find-put id j _ s.records ∙ rw (h.found j) refl },
    omega arith,
  )
])

delete-Matches :
    (id : Bytes) (s : MemoryStore) (c : Catalog)
    → Holds s c
    → let made = delete_rule id s in
      Matches s (delete_answer made.0, made.1) (delete_promise (c.rule_of id) id c)
unfolding delete_rule delete_existing
delete-Matches id s c h = rw (← h.found id) (elim (Option-cases (find id s.records)) [
  | inl e ↦ rw e (refl, h, omega arith)
  | inr (old, e) ↦ rw e (
    refl,
    record { counted = h.counted; found = λ j. find-remove id j s.records ∙ rw (h.found j) refl },
    omega arith,
  )
])

perform-Matches :
    (q : Request) (s : MemoryStore) (c : Catalog)
    → s.next_id + 1 < 2 ^ 64
    → Holds s c
    → Matches s (perform q s) (promise q c)
unfolding perform promise create_rule update_rule
perform-Matches (create r) s c room h = create-Matches (validate_rule r) r s c room h
perform-Matches (update id r) s c room h = update-Matches (validate_rule r) id r s c h
perform-Matches (delete id) s c room h = delete-Matches id s c h

serve-Holds :
    (qs : List Request) (s : MemoryStore) (c : Catalog)
    → s.next_id + length qs < 2 ^ 64
    → Holds s c
    → ((serve perform qs s).0 ≡ (serve promise qs c).0)
      × Holds (serve perform qs s).1 (serve promise qs c).1
unfolding serve
serve-Holds [] s c room h = (refl, h)
serve-Holds (q ∷ qs) s c room h =
    let (same, held, small) = perform-Matches q s c (omega (arith, room)) h in
    let rest = serve-Holds qs (perform q s).1 (promise q c).1 (omega (arith, room, small)) held in
    (λ i. same i ∷ rest.0 i, rest.1)

abbrev pub empty_catalog : Catalog
empty_catalog = record { given = 0; rule_of = λ id. none }

-- A new store answers fewer than 2^64 - 1 requests, to create, update or delete rules, as a plain
-- function from ids to rules promises: a rule with a problem is refused, a created rule gets the
-- next decimal number for its id, an update or a deletion of an id without a rule is answered with
-- "not found", and each change is at its own id only. Afterwards the store has for every id the
-- rule of that function.
pub serve-promise :
    (qs : List Request)
    → length qs + 1 < 2 ^ 64
    → ((serve perform qs new_memory_store).0 ≡ (serve promise qs empty_catalog).0)
      × ((id : Bytes)
          → find id (serve perform qs new_memory_store).1.records
            ≡ (serve promise qs empty_catalog).1.rule_of id)
unfolding new_memory_store
serve-promise qs small =
    let start : Holds new_memory_store empty_catalog = record {
      counted = refl;
      found = λ id. unfold find in refl;
    } in
    let (same, held) = serve-Holds qs new_memory_store empty_catalog (omega (arith, small)) start in
    (same, held.found)
