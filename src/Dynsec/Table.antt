-- ===== src/Dynsec/Table.antt =====
-- internal/dynsec/service.go: the maps from a name to an object that the loops fill and empty. The order
-- of the entries, which Go leaves open, is the last one filled first.
pub mod Laws
pub mod Distinct
use mcm.Base.{
  Bool, true, false, List, [], ◌∷◌, ◌++◌, Option, none, some, if◌then◌else◌, is_empty, map, keep,
  not,
}
use mcm.Text.{Bytes, text_eq}
use mcm.Dynsec.Model.{find_by}

module _ {ℓ} {A : Type ℓ} (name : A → Bytes) where
  unfoldable pub erase : Bytes → List A → List A
  erase k [] = []
  erase k (x ∷ xs) = let rest = erase k xs in if text_eq (name x) k then rest else x ∷ rest

  -- The map that a loop over the list makes of a map.
  unfoldable pub fill : List A → List A → List A
  fill t [] = t
  fill t (x ∷ xs) = fill (x ∷ erase (name x) t) xs

  module _ {κ} {B : Type κ} (check : A → A → List B) (missing extra : Bytes → B) where
    -- A loop over the wanted objects that takes each from the map, then a loop over what is left.
    unfoldable pub compare : List A → List A → List B
    compare t [] = map (λ x. extra (name x)) t
    compare t (x ∷ xs) = elim (find_by name (name x) t) [
      | none ↦ missing (name x) ∷ compare t xs
      | some found ↦ check found x ++ compare (erase (name x) t) xs
    ]

  -- A loop that stops at the first difference.
  unfoldable pub takes_all : (A → A → Bool) → List A → List A → Bool
  takes_all agree t [] = is_empty t
  takes_all agree t (x ∷ xs) = elim (find_by name (name x) t) [
    | none ↦ false
    | some found ↦ if agree found x then takes_all agree (erase (name x) t) xs else false
  ]
