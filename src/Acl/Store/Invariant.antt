-- ===== src/Acl/Store/Invariant.antt =====
-- What holds of a store between two calls: the rules in it are valid and normalised, each is stored
-- under its own id, the ids are distinct and are numbers that were handed out.
use mcm.Base.{
  ℕ, ◌+◌, ◌<◌, ◌^◌, ◌%◌, List, [], ◌∷◌, Option, none, some, ◌≡◌, refl, arith, inl, inr,
  Option-cases, Bool-cases, ap, ◌∙◌, sym,
}
use mcm.Text.{Bytes, text_eq, text_eq_iff}
use mcm.Text.Decimal.{format_uint, parse_uint, parse_uint-format_uint}
use mcm.Acl.Rule.{Rule, normalize}
use mcm.Acl.Validate.{Problem, validate_rule}
use mcm.Acl.Validate.Normal.{normalize-valid, normalize-normal}
use mcm.Acl.Store.{
  Records, find, put, remove, MemoryStore, new_memory_store, create_rule, update_rule, delete_rule,
  create_checked, update_checked, store_existing, delete_existing,
}
use mcm.Acl.Store.Contents.{find-put, find-remove}

pub record IsStored (next : ℕ) (k : Bytes) (r : Rule) : Type 0 where
  pub keyed : r.id ≡ k
  pub number : ℕ
  pub positive : 0 < number
  pub handed_out : number < next
  pub shown : k ≡ format_uint number
  pub valid : validate_rule r ≡ []
  pub normal : normalize r ≡ r

abbrev pub AllStored : ℕ → Records → Type 0
AllStored next [] = Unit
AllStored next ((k, r) ∷ m) = IsStored next k r × AllStored next m

abbrev pub IsDistinct : Records → Type 0
IsDistinct [] = Unit
IsDistinct ((k, r) ∷ m) = (find k m ≡ none) × IsDistinct m

pub record IsStore (s : MemoryStore) : Type 0 where
  pub next_positive : 0 < s.next_id
  pub next_in_range : s.next_id < 2 ^ 64
  pub stored : AllStored s.next_id s.records
  pub distinct : IsDistinct s.records

AllStored-later : (n : ℕ) (m : Records) → AllStored n m → AllStored (n + 1) m
AllStored-later n [] h = tt
AllStored-later n ((k, r) ∷ m) h = (
  record {
    keyed = h.0.keyed;
    number = h.0.number;
    positive = h.0.positive;
    handed_out = omega arith;
    shown = h.0.shown;
    valid = h.0.valid;
    normal = h.0.normal;
  },
  AllStored-later n m h.1,
)

AllStored-put :
    (n : ℕ) (k : Bytes) (r : Rule) (m : Records)
    → IsStored n k r
    → AllStored n m
    → AllStored n (put k r m)
unfolding put
AllStored-put n k r [] s h = (s, tt)
AllStored-put n k r ((j, q) ∷ m) s h = elim (Bool-cases (text_eq j k)) [
  | inl e ↦ rw e (s, h.1)
  | inr e ↦ rw e (h.0, AllStored-put n k r m s h.1)
]

AllStored-remove : (n : ℕ) (k : Bytes) (m : Records) → AllStored n m → AllStored n (remove k m)
unfolding remove
AllStored-remove n k [] h = tt
AllStored-remove n k ((j, q) ∷ m) h = elim (Bool-cases (text_eq j k)) [
  | inl e ↦ rw e (AllStored-remove n k m h.1)
  | inr e ↦ rw e (h.0, AllStored-remove n k m h.1)
]

AllStored-find :
    (n : ℕ) (k : Bytes) (m : Records) {r : Rule}
    → AllStored n m
    → find k m ≡ some r
    → (i : ℕ) × (0 < i) × (i < n) × (k ≡ format_uint i)
unfolding find
AllStored-find n k [] h e = cc
AllStored-find n k ((j, q) ∷ m) h e = elim (Bool-cases (text_eq j k)) [
  | inl s ↦ (h.0.number, h.0.positive, h.0.handed_out, sym ((text_eq_iff j k).0 s) ∙ h.0.shown)
  | inr s ↦ AllStored-find n k m h.1 (rw s at e)
]

IsDistinct-put : (k : Bytes) (r : Rule) (m : Records) → IsDistinct m → IsDistinct (put k r m)
unfolding put find
IsDistinct-put k r [] d = (refl, tt)
IsDistinct-put k r ((j, q) ∷ m) d = elim (Bool-cases (text_eq j k)) [
  | inl e ↦ rw e (rw (← (text_eq_iff j k).0 e) d.0, d.1)
  | inr e ↦
      rw e (
        ground (arith, find-put k j r m, text_eq_iff k j, text_eq_iff j k),
        IsDistinct-put k r m d.1,
      )
]

IsDistinct-remove : (k : Bytes) (m : Records) → IsDistinct m → IsDistinct (remove k m)
unfolding remove find
IsDistinct-remove k [] d = tt
IsDistinct-remove k ((j, q) ∷ m) d = elim (Bool-cases (text_eq j k)) [
  | inl e ↦ rw e (IsDistinct-remove k m d.1)
  | inr e ↦ rw e (ground (arith, find-remove k j m), IsDistinct-remove k m d.1)
]

-- The empty store is well formed.
pub new-IsStore : IsStore new_memory_store
unfolding new_memory_store
new-IsStore = record {
  next_positive = omega arith;
  next_in_range = omega arith;
  stored = tt;
  distinct = tt;
}

-- A new rule never takes the place of another: its id has no rule before.
pub create_rule-fresh :
    (s : MemoryStore) → IsStore s → find (format_uint s.next_id) s.records ≡ none
create_rule-fresh s v = elim (Option-cases (find (format_uint s.next_id) s.records)) [
  | inl e ↦ e
  | inr (r, e) ↦
      let (i, _, less, shown) =
        AllStored-find s.next_id (format_uint s.next_id) s.records v.stored e in
      let same : s.next_id ≡ i =
        sym (parse_uint-format_uint s.next_id v.next_in_range)
        ∙ ap parse_uint shown
        ∙ parse_uint-format_uint i (omega (arith, v.next_in_range)) in
      absurd (omega arith)
]

-- Creating a rule keeps the store well formed, as long as an id is left.
pub create_rule-IsStore :
    (r : Rule) (s : MemoryStore) → s.next_id + 1 < 2 ^ 64 → IsStore s → IsStore (create_rule r s).1
unfolding create_rule
create_rule-IsStore r s room v = go (validate_rule r) refl
  where
    go : (ps : List Problem) → validate_rule r ≡ ps → IsStore (create_checked ps r s).1
    go [] e =
        let next : (s.next_id + 1) % 2 ^ 64 ≡ s.next_id + 1 = omega arith in
        rw next (record {
          next_positive = omega arith;
          next_in_range = room;
          stored =
              AllStored-put (s.next_id + 1) (format_uint s.next_id) _ s.records
                (record {
                  keyed = refl;
                  number = s.next_id;
                  positive = v.next_positive;
                  handed_out = omega arith;
                  shown = refl;
                  valid = normalize-valid r (format_uint s.next_id) e;
                  normal = normalize-normal r (format_uint s.next_id);
                })
                (AllStored-later s.next_id s.records v.stored);
          distinct = IsDistinct-put (format_uint s.next_id) _ s.records v.distinct;
        })
    go (p ∷ ps) e = v

-- Updating a rule keeps the store well formed.
pub update_rule-IsStore :
    (id : Bytes) (r : Rule) (s : MemoryStore) → IsStore s → IsStore (update_rule id r s).1
unfolding update_rule
update_rule-IsStore id r s v = go (validate_rule r) refl (find id s.records) refl
  where
    go :
        (ps : List Problem)
        → validate_rule r ≡ ps
        → (o : Option Rule) → find id s.records ≡ o
        → IsStore (update_checked ps id r s).1
    go (p ∷ ps) e o f = v
    go [] e none f = rw (f, store_existing) v
    go [] e (some old) f =
        let (i, pos, less, shown) = AllStored-find s.next_id id s.records v.stored f in
        rw (f, store_existing)
          (record {
            next_positive = v.next_positive;
            next_in_range = v.next_in_range;
            stored =
                AllStored-put s.next_id id _ s.records
                  (record {
                    keyed = refl;
                    number = i;
                    positive = pos;
                    handed_out = less;
                    shown = shown;
                    valid = normalize-valid r id e;
                    normal = normalize-normal r id;
                  })
                  v.stored;
            distinct = IsDistinct-put id _ s.records v.distinct;
          })

-- Deleting a rule keeps the store well formed.
pub delete_rule-IsStore : (id : Bytes) (s : MemoryStore) → IsStore s → IsStore (delete_rule id s).1
unfolding delete_rule
delete_rule-IsStore id s v = elim (Option-cases (find id s.records)) [
  | inl e ↦ rw (e, delete_existing) v
  | inr (old, e) ↦
      rw (e, delete_existing)
        (record {
          next_positive = v.next_positive;
          next_in_range = v.next_in_range;
          stored = AllStored-remove s.next_id id s.records v.stored;
          distinct = IsDistinct-remove id s.records v.distinct;
        })
]
