-- ===== src/Dynsec/Table/Distinct.antt =====
-- internal/dynsec/service.go: lists and maps in which no name comes twice.
use mcm.Base.{List, [], ◌∷◌, Option, none, some, ◌≡◌, refl, ◌∙◌, Bool-cases, inl, inr}
use mcm.Text.{Bytes, text_eq, text_eq_iff, text_eq-false}
use mcm.Dynsec.Model.{find_by}
use mcm.Dynsec.Run.{IsDistinct}
use mcm.Dynsec.Table.{erase, fill}
use mcm.Dynsec.Table.Laws.{find_last, or_else, find-fill, find-erase_same, find-erase_other}

or_else-none {ℓ} : {A : Type ℓ} (o : Option A) → or_else o none ≡ o
or_else-none none = refl
or_else-none (some x) = refl

-- The map that a loop over a list makes of nothing has the last element of each name.
pub filled :
    {A : Type 0} (name : A → Bytes) (k : Bytes) (xs : List A)
    → find_by name k (fill name [] xs) ≡ find_last name k xs
filled name k xs = find-fill name k [] xs ∙ or_else-none (find_last name k xs)

module _ {ℓ} {A : Type ℓ} (name : A → Bytes) where
  -- Where no name comes twice the first element of a name is the last one.
  pub find_last-IsDistinct :
      (k : Bytes) (xs : List A) → IsDistinct name xs → find_last name k xs ≡ find_by name k xs
  find_last-IsDistinct k [] d = refl
  find_last-IsDistinct k (x ∷ xs) d =
      let ih = find_last-IsDistinct k xs d.1 in
      elim (Bool-cases (text_eq (name x) k)) [
        | inl e ↦
            let gone : find_by name k xs ≡ none = rw ((text_eq_iff (name x) k).0 e) at d.0 in
            rw (e, ih, gone) refl
        | inr e ↦ rw (e, ih) (or_else-none (find_by name k xs))
      ]

  pub erase-IsDistinct :
      (k : Bytes) (t : List A) → IsDistinct name t → IsDistinct name (erase name k t)
  unfolding erase
  erase-IsDistinct k [] d = tt
  erase-IsDistinct k (x ∷ xs) d =
      let ih = erase-IsDistinct k xs d.1 in
      elim (Bool-cases (text_eq (name x) k)) [
        | inl e ↦ rw e ih
        | inr e ↦ rw e (find-erase_other name k (name x) xs (text_eq-false (name x) k e) ∙ d.0, ih)
      ]

  pub fill-IsDistinct : (t xs : List A) → IsDistinct name t → IsDistinct name (fill name t xs)
  unfolding fill
  fill-IsDistinct t [] d = d
  fill-IsDistinct t (x ∷ xs) d =
      fill-IsDistinct (x ∷ erase name (name x) t) xs
        (find-erase_same name (name x) t, erase-IsDistinct (name x) t d)
