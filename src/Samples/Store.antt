-- ===== src/Samples/Store.antt =====
-- A store with one rule.
use mcm.Base.{List, [], ◌∷◌, ◌∙◌, none, some, ◌≡◌, ◌↔◌, refl, arith}
use mcm.Base.Members.{Memᴰ}
use mcm.Text.{Bytes, codes}
use mcm.Text.Decimal.{format_uint}
use mcm.Acl.Rule.{Rule}
use mcm.Acl.Store.{MemoryStore, new_memory_store, create_rule, update_rule, list_rules, find}
use mcm.Acl.Store.Contents.{create_rule_contents}
use mcm.Acl.Store.Invariant.{IsStore}
use mcm.Acl.Store.Reach.{Reach, start, next, create, update, reached-IsStore}
use mcm.Acl.Store.Listing.{IsSorted}
use mcm.Acl.Store.Served.{Request, perform, promise, serve, empty_catalog, serve-promise}
use mcm.Samples.Rules.{sensors, sensors_valid, nameless}

abbrev one : MemoryStore
one = (create_rule sensors new_memory_store).1

one-next : one.next_id ≡ 2
one-next =
    (create_rule_contents sensors new_memory_store sensors_valid).1
    ∙ (unfold new_memory_store in refl)

-- A rule is created, replaced, and created a second time.
abbrev three : MemoryStore
three = (create_rule sensors (update_rule (codes "1") sensors one).1).1

three_calls : Reach 3 three
three_calls =
    next (next (next start (create sensors new_memory_store)) (update (codes "1") sensors one))
      (create sensors (update_rule (codes "1") sensors one).1)

reached-IsStore_example :
    IsStore three
    × (find (format_uint three.next_id) three.records ≡ none)
    × IsSorted (list_rules three)
    × ((r : Rule) → Memᴰ r (list_rules three) ↔ (find r.id three.records ≡ some r))
reached-IsStore_example = reached-IsStore three_calls (omega arith)

-- A rule is created and replaced, an id without a rule is deleted, and a bad rule is refused.
abbrev requests : List Request
requests =
    Request.create sensors
    ∷ Request.update (codes "1") sensors
    ∷ Request.delete (codes "7")
    ∷ Request.create nameless
    ∷ []

serve-promise_example :
    ((serve perform requests new_memory_store).0 ≡ (serve promise requests empty_catalog).0)
    × ((id : Bytes)
        → find id (serve perform requests new_memory_store).1.records
          ≡ (serve promise requests empty_catalog).1.rule_of id)
serve-promise_example = serve-promise requests (omega arith)
