-- ===== src/Acl/Store/Listing.antt =====
-- What `ListRules` answers.
use mcm.Base.{
  ◌≤◌, ℕ, ◌⊎◌, Bool, true, false, List, [], ◌∷◌, some, ◌≡◌, ◌↔◌, arith, if◌then◌else◌, inl, inr,
  Bool-cases, ltb,
}
use mcm.Base.Members.{Memᴰ}
use mcm.Text.{Bytes, text_eq, text_eq_iff}
use mcm.Text.Decimal.{parse_uint}
use mcm.Acl.Rule.{Rule}
use mcm.Acl.Store.{Records, find, MemoryStore, insert_by_id, sort_by_id, list_rules}
use mcm.Acl.Store.Invariant.{AllStored, IsDistinct, IsStore}

-- The numeric ids do not fall.
abbrev pub IsSorted : List Rule → Type 0
IsSorted [] = Unit
IsSorted (r ∷ []) = Unit
IsSorted (r ∷ q ∷ qs) = (parse_uint r.id ≤ parse_uint q.id) × IsSorted (q ∷ qs)

insert-IsSorted : (r : Rule) (qs : List Rule) → IsSorted qs → IsSorted (insert_by_id r qs)
unfolding insert_by_id
insert-IsSorted r [] s = tt
insert-IsSorted r (q ∷ []) s = ground arith
insert-IsSorted r (q ∷ p ∷ ps) s =
    let ih = insert-IsSorted r (p ∷ ps) s.1 in
    elim (Bool-cases (ltb (parse_uint q.id) (parse_uint r.id))) [
      | inl e ↦ elim (Bool-cases (ltb (parse_uint p.id) (parse_uint r.id))) [
        | inl f ↦ rw (e, f) (s.0, rw f at ih)
        | inr f ↦ rw (e, f) (ground arith, rw f at ih)
      ]
      | inr e ↦ rw e (ground arith, s)
    ]

sort-IsSorted : (m : Records) → IsSorted (sort_by_id m)
unfolding sort_by_id
sort-IsSorted [] = tt
sort-IsSorted ((k, r) ∷ m) = insert-IsSorted r (sort_by_id m) (sort-IsSorted m)

mem-insert→ :
    {x : Rule} (r : Rule) (qs : List Rule) → Memᴰ x (insert_by_id r qs) → (x ≡ r) ⊎ Memᴰ x qs
unfolding insert_by_id
mem-insert→ r [] (Memᴰ.head e) = inl e
mem-insert→ r [] (Memᴰ.tail m) = inr m
mem-insert→ {x} r (q ∷ qs) m =
    go (ltb (parse_uint q.id) (parse_uint r.id)) m (λ m'. mem-insert→ r qs m')
  where
    go :
        (b : Bool)
        → Memᴰ x (if b then q ∷ insert_by_id r qs else r ∷ q ∷ qs)
        → (Memᴰ x (insert_by_id r qs) → (x ≡ r) ⊎ Memᴰ x qs)
        → (x ≡ r) ⊎ Memᴰ x (q ∷ qs)
    go true (Memᴰ.head e) ih = inr (Memᴰ.head e)
    go true (Memᴰ.tail m) ih = elim (ih m) [ inl e ↦ inl e | inr m' ↦ inr (Memᴰ.tail m') ]
    go false (Memᴰ.head e) ih = inl e
    go false (Memᴰ.tail m) ih = inr m

→mem-insert :
    {x : Rule} (r : Rule) (qs : List Rule) → (x ≡ r) ⊎ Memᴰ x qs → Memᴰ x (insert_by_id r qs)
unfolding insert_by_id
→mem-insert r [] (inl e) = Memᴰ.head e
→mem-insert r [] (inr m) = elim m [ ]
→mem-insert {x} r (q ∷ qs) h = elim (Bool-cases (ltb (parse_uint q.id) (parse_uint r.id))) [
  | inl e ↦ rw e (go h (λ h'. →mem-insert r qs h'))
  | inr e ↦ rw e (elim h [ inl p ↦ Memᴰ.head p | inr m ↦ Memᴰ.tail m ])
]
  where
    go :
        (x ≡ r) ⊎ Memᴰ x (q ∷ qs)
        → ((x ≡ r) ⊎ Memᴰ x qs → Memᴰ x (insert_by_id r qs))
        → Memᴰ x (q ∷ insert_by_id r qs)
    go (inl e) ih = Memᴰ.tail (ih (inl e))
    go (inr (Memᴰ.head e)) ih = Memᴰ.head e
    go (inr (Memᴰ.tail m)) ih = Memᴰ.tail (ih (inr m))

listed→found :
    (n : ℕ) (m : Records) {r : Rule}
    → AllStored n m
    → IsDistinct m
    → Memᴰ r (sort_by_id m)
    → find r.id m ≡ some r
unfolding sort_by_id find
listed→found n [] s d h = elim h [ ]
listed→found n ((k, q) ∷ m) {r} s d h = elim (mem-insert→ q (sort_by_id m) h) [
  | inl e ↦ rw e (ground (arith, s.0.keyed, text_eq_iff k q.id))
  | inr h' ↦ let ih = listed→found n m s.1 d.1 h' in ground (arith, text_eq_iff k r.id)
]

found→listed : (k : Bytes) (m : Records) {r : Rule} → find k m ≡ some r → Memᴰ r (sort_by_id m)
unfolding sort_by_id find
found→listed k [] e = cc
found→listed k ((j, q) ∷ m) {r} e = elim (Bool-cases (text_eq j k)) [
  | inl s ↦ →mem-insert q (sort_by_id m) (inl (ground arith))
  | inr s ↦ →mem-insert q (sort_by_id m) (inr (found→listed k m (rw s at e)))
]

-- A well-formed store lists exactly the rules that it holds under their ids, by rising numeric id.
pub list_rules_lem :
    (s : MemoryStore)
    → IsStore s
    → IsSorted (list_rules s)
      × ((r : Rule) → Memᴰ r (list_rules s) ↔ (find r.id s.records ≡ some r))
unfolding list_rules
list_rules_lem s v = (
  sort-IsSorted s.records,
  λ r. (
    λ m. listed→found s.next_id s.records v.stored v.distinct m,
    λ e. found→listed r.id s.records e,
  ),
)
