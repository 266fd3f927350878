-- ===== src/Dynsec/Table/Laws.antt =====
-- internal/dynsec/service.go: what the loops over the maps find.
use mcm.Base.{
  Bool, true, false, List, [], ◌∷◌, Option, none, some, ◌≡◌, ◌↔◌, refl, sym, ap, ◌∙◌, if◌then◌else◌,
  Bool-cases, Option-cases, inl, inr, is_empty, map,
}
use mcm.Text.{Bytes, text_eq, text_eq_iff, text_eq_refl}
use mcm.Dynsec.Model.{find_by}
use mcm.Dynsec.Table.{erase, fill, compare, takes_all}
use mcm.Dynsec.Issue.{append-nil_both}
use mcm.Dynsec.Run.{IsDistinct}

abbrev pub or_else {ℓ} : {A : Type ℓ} → Option A → Option A → Option A
or_else none b = b
or_else (some a) b = some a

-- The last element of that name.
abbrev pub find_last {ℓ} : {A : Type ℓ} → (A → Bytes) → Bytes → List A → Option A
find_last name k [] = none
find_last name k (x ∷ xs) =
    or_else (find_last name k xs) (if text_eq (name x) k then some x else none)

-- Both are there and related, or neither is there.
abbrev pub Both {ℓ} : {A : Type ℓ} → (A → A → Type 0) → Option A → Option A → Type 0
Both R none none = Unit
Both R (some x) (some y) = R x y
Both R _ _ = ⊥

Both-none {ℓ} : {A : Type ℓ} (R : A → A → Type 0) (o : Option A) → Both R o none → o ≡ none
Both-none R none h = refl
Both-none R (some x) h = absurd h

module _ {ℓ} {A : Type ℓ} (name : A → Bytes) where
  pub find-erase_same : (k : Bytes) (t : List A) → find_by name k (erase name k t) ≡ none
  unfolding erase
  find-erase_same k [] = refl
  find-erase_same k (x ∷ xs) = elim (Bool-cases (text_eq (name x) k)) [
    | inl e ↦ rw e (find-erase_same k xs)
    | inr e ↦ rw (e, e) (find-erase_same k xs)
  ]

  pub find-erase_other :
      (n k : Bytes) (t : List A)
      → text_eq n k ≡ false
      → find_by name k (erase name n t) ≡ find_by name k t
  unfolding erase
  find-erase_other n k [] h = refl
  find-erase_other n k (x ∷ xs) h = elim (Bool-cases (text_eq (name x) n)) [
    | inl e ↦
        let other : text_eq (name x) k ≡ false = rw ((text_eq_iff (name x) n).0 e) h in
        rw (e, other) (find-erase_other n k xs h)
    | inr e ↦ rw e (
        ap (λ (o : Option A). if text_eq (name x) k then some x else o) (find-erase_other n k xs h))
  ]

  -- The map has the last element of a name, or what it had.
  pub find-fill :
      (k : Bytes) (t xs : List A)
      → find_by name k (fill name t xs) ≡ or_else (find_last name k xs) (find_by name k t)
  unfolding fill
  find-fill k t [] = refl
  find-fill k t (x ∷ xs) =
      find-fill k (x ∷ erase name (name x) t) xs ∙ elim (Bool-cases (text_eq (name x) k)) [
        | inl e ↦ rw e (last (find_last name k xs))
        | inr e ↦ rw (e, find-erase_other (name x) k t e) (other (find_last name k xs))
      ]
    where
      last : (o : Option A) → or_else o (some x) ≡ or_else (or_else o (some x)) (find_by name k t)
      last none = refl
      last (some y) = refl

      other :
          (o : Option A)
          → or_else o (find_by name k t) ≡ or_else (or_else o none) (find_by name k t)
      other none = refl
      other (some y) = refl

module _ {A B : Type 0} (name : A → Bytes) (check : A → A → List B)
    (missing extra : Bytes → B) where
  -- The list has no name twice, and each name is in both or in neither, without a complaint.
  abbrev pub Agreed : List A → List A → Type 0
  Agreed t ds =
      IsDistinct name ds
      × ((k : Bytes) → Both (λ x found. check found x ≡ []) (find_by name k ds) (find_by name k t))

  nothing_left : (t : List A) → map (λ x. extra (name x)) t ≡ [] → Agreed t []
  nothing_left [] h = (tt, λ k. tt)
  nothing_left (y ∷ ys) h = cc

  compare-Agreed : (t ds : List A) → compare name check missing extra t ds ≡ [] → Agreed t ds
  unfolding compare
  compare-Agreed t [] h = nothing_left t h
  compare-Agreed t (x ∷ xs) h = elim (Option-cases (find_by name (name x) t)) [
    | inl e ↦ let g = rw (e, compare) at h in cc
    | inr (y, e) ↦
        let two =
          append-nil_both (check y x) (compare name check missing extra (erase name (name x) t) xs)
            (rw (e, compare) at h) in
        let ih = compare-Agreed (erase name (name x) t) xs two.1 in
        let last = ih.1 (name x) in
        let gone =
          Both-none (λ x found. check found x ≡ []) (find_by name (name x) xs)
            (rw (find-erase_same name (name x) t) at last) in
        (
          (gone, ih.0),
          λ k. elim (Bool-cases (text_eq (name x) k)) [
            | inl s ↦ let found = rw ((text_eq_iff (name x) k).0 s) at e in rw (s, found) two.0
            | inr s ↦ rw (s, ← find-erase_other name (name x) k t s) (ih.1 k)
          ],
        )
  ]

  Agreed-compare : (t ds : List A) → Agreed t ds → compare name check missing extra t ds ≡ []
  unfolding compare
  Agreed-compare [] [] h = refl
  Agreed-compare (y ∷ ys) [] h = absurd (let k = h.1 (name y) in rw (text_eq_refl (name y)) at k)
  Agreed-compare t (x ∷ xs) h =
      let there = h.1 (name x) in
      let here = rw (text_eq_refl (name x)) at there in
      elim (Option-cases (find_by name (name x) t)) [
        | inl e ↦ absurd (rw e at here)
        | inr (y, e) ↦
            let fine : check y x ≡ [] = rw e at here in
            rw (e, compare, fine)
              (Agreed-compare (erase name (name x) t) xs (
                h.0.1,
                λ k. elim (Bool-cases (text_eq (name x) k)) [
                  | inl s ↦
                      let gone = rw ((text_eq_iff (name x) k).0 s) at h.0.0 in
                      rw (gone, ← (text_eq_iff (name x) k).0 s, find-erase_same name (name x) t) tt
                  | inr s ↦
                      let there = h.1 k in rw (find-erase_other name (name x) k t s) (rw s at there)
                ],
              ))
      ]

  pub compare_iff : (t ds : List A) → (compare name check missing extra t ds ≡ []) ↔ Agreed t ds
  compare_iff t ds = (compare-Agreed t ds, Agreed-compare t ds)

module _ {A : Type 0} (name : A → Bytes) (agree : A → A → Bool) where
  -- What `compare` complains of when it complains of nothing but a difference.
  takes_all-compare :
      (t xs : List A)
      → takes_all name agree t xs
        ≡ is_empty (
            compare name
              (λ found x. if agree found x then [] else true ∷ [])
              (λ n. true)
              (λ n. true)
              t
              xs)
  unfolding takes_all compare
  takes_all-compare [] [] = refl
  takes_all-compare (y ∷ ys) [] = refl
  takes_all-compare t (x ∷ xs) = elim (Option-cases (find_by name (name x) t)) [
    | inl e ↦ rw (e, takes_all, compare) refl
    | inr (y, e) ↦ elim (Bool-cases (agree y x)) [
      | inl a ↦ rw (e, takes_all, compare, a) (takes_all-compare (erase name (name x) t) xs)
      | inr a ↦ rw (e, takes_all, compare, a) refl
    ]
  ]

  is_empty_nil : {A : Type 0} (xs : List A) → (is_empty xs ≡ true) ↔ (xs ≡ [])
  is_empty_nil [] = (λ h. refl, λ h. refl)
  is_empty_nil (x ∷ xs) = (λ h. cc, λ h. cc)

  -- The list has no name twice, and each name is in both or in neither, with elements that agree.
  abbrev pub Taken : List A → List A → Type 0
  Taken t xs =
      IsDistinct name xs
      × ((k : Bytes)
          → Both (λ x found. agree found x ≡ true) (find_by name k xs) (find_by name k t))

  told : (b : Bool) → (b ≡ true) ↔ ((if b then [] else true ∷ []) ≡ [])
  told true = (λ h. refl, λ h. refl)
  told false = (λ h. cc, λ h. cc)

  Both-map :
      (P Q : A → A → Type 0) (o p : Option A)
      → ((x y : A) → P x y → Q x y)
      → Both P o p
      → Both Q o p
  Both-map P Q none none f h = h
  Both-map P Q (some x) (some y) f h = f x y h
  Both-map P Q none (some y) f h = h
  Both-map P Q (some x) none f h = h

  pub takes_all_iff : (t xs : List A) → (takes_all name agree t xs ≡ true) ↔ Taken t xs
  takes_all_iff t xs =
      let law =
        compare_iff name (λ found x. if agree found x then [] else true ∷ []) (λ n. true)
          (λ n. true) t xs in
      (
        λ h.
            let g = law.0 ((is_empty_nil _).0 (sym (takes_all-compare t xs) ∙ h)) in
            (g.0, λ k. Both-map _ _ _ _ (λ x y. (told (agree y x)).1) (g.1 k)),
        λ h.
            takes_all-compare t xs
            ∙ (is_empty_nil _).1
                (law.1 (h.0, λ k. Both-map _ _ _ _ (λ x y. (told (agree y x)).0) (h.1 k))),
      )
