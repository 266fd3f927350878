-- ===== src/Dynsec/Validate/Loops.antt =====
-- internal/dynsec/model.go: what the loops of `Validate` find.
use mcm.Base.{
  Bool, true, false, not, List, [], ◌∷◌, ◌++◌, none, ◌≡◌, ◌↔◌, ◌⊎◌, inl, inr, refl, sym, ap, ◌∙◌,
  arith, if◌then◌else◌, Bool-cases,
}
use mcm.Base.Members.{All}
use mcm.Text.{Bytes, text_eq, text_eq_iff, text_eq_refl, has_any, is_blank}
use mcm.Dynsec.Model.{find_by, is_found}
use mcm.Dynsec.Issue.{
  Issue, issue, issue_unless, issue_unless_iff, append-nil_iff, flat_map-nil_iff, All-iff,
}
use mcm.Dynsec.Run.{IsDistinct}
use mcm.Dynsec.Validate.{
  valid_object_name, has_name, name_issues, object_issues, names_seen, reference_issues,
  issue_kind_reference, issue_kind_name,
}

-- A name that is not blank and has no `#`, `+`, NUL, line feed or carriage return.
abbrev pub IsName : Bytes → Type 0
IsName n = (is_blank n ≡ false) × (has_any (35 ∷ 43 ∷ 0 ∷ 10 ∷ 13 ∷ []) n ≡ false)

-- Valid names, none of them twice.
abbrev pub Named : {A : Type 0} → (A → Bytes) → List A → Type 0
Named name xs = All (λ x. IsName (name x)) xs × IsDistinct name xs

-- The references are to names in the list.
abbrev pub Known : {A B : Type 0} → (A → Bytes) → (B → Bytes) → List B → List A → Type 0
Known name target objects refs = All (λ x. is_found (find_by target (name x) objects) ≡ true) refs

valid_object_name_iff : (n : Bytes) → (valid_object_name n ≡ true) ↔ IsName n
unfolding valid_object_name
valid_object_name_iff n = (λ h. (ground arith, ground arith), λ h. rw (h.0, h.1) refl)

not_iff : (b : Bool) → (not b ≡ true) ↔ (b ≡ false)
not_iff true = (λ h. cc, λ h. cc)
not_iff false = (λ h. refl, λ h. refl)

name_issues_iff :
    (field : Bytes) (seen : List Bytes) (n : Bytes)
    → (name_issues field seen n ≡ []) ↔ (IsName n × (has_name seen n ≡ false))
unfolding name_issues
name_issues_iff field seen n = (
  λ h.
      let both = (append-nil_iff _ _).0 h in
      (
        (valid_object_name_iff n).0 ((issue_unless_iff _ _ _ _).0 both.0),
        (not_iff _).0 ((issue_unless_iff _ _ _ _).0 both.1),
      ),
  λ h. (append-nil_iff _ _).1 (
    (issue_unless_iff _ _ _ _).1 ((valid_object_name_iff n).1 h.0),
    (issue_unless_iff _ _ _ _).1 ((not_iff _).1 h.1),
  ),
)

module _ {A : Type 0} (name : A → Bytes) where
  -- No name seen before is in the list.
  abbrev Fresh : List Bytes → List A → Type 0
  Fresh seen xs = (s : Bytes) → has_name seen s ≡ true → find_by name s xs ≡ none

  Fresh-head :
      (seen : List Bytes) (x : A) (xs : List A)
      → (Fresh seen (x ∷ xs) × (find_by name (name x) xs ≡ none))
        ↔ ((has_name seen (name x) ≡ false) × Fresh (name x ∷ seen) xs)
  Fresh-head seen x xs = (
    λ h. (unseen h.0, λ s k. older h s k),
    λ h. (λ s k. newer h s k, h.1 (name x) (rw (text_eq_refl (name x)) refl)),
  )
    where
      unseen : Fresh seen (x ∷ xs) → has_name seen (name x) ≡ false
      unseen f = elim (Bool-cases (has_name seen (name x))) [
        | inl e ↦ let g = f (name x) e in let k = rw (text_eq_refl (name x)) at g in cc
        | inr e ↦ e
      ]

      older :
          Fresh seen (x ∷ xs) × (find_by name (name x) xs ≡ none)
          → (s : Bytes) → has_name (name x ∷ seen) s ≡ true
          → find_by name s xs ≡ none
      older h s k = elim (Bool-cases (text_eq (name x) s)) [
        | inl e ↦ rw (← (text_eq_iff (name x) s).0 e) h.1
        | inr e ↦ let g = h.0 s (rw e at k) in rw e at g
      ]

      newer :
          (has_name seen (name x) ≡ false) × Fresh (name x ∷ seen) xs
          → (s : Bytes) → has_name seen s ≡ true
          → find_by name s (x ∷ xs) ≡ none
      newer h s k = elim (Bool-cases (text_eq (name x) s)) [
        | inl e ↦ let g = rw ((text_eq_iff (name x) s).0 e) at h.0 in cc
        | inr e ↦ rw e (h.1 s (rw (e, k) refl))
      ]

  module _ (field : Bytes) (more : A → List Issue) where
    -- The loop finds nothing exactly when all is well and no name comes twice.
    object_issues_iff :
        (seen : List Bytes) (xs : List A)
        → (object_issues name field more seen xs ≡ []) ↔ (
            All (λ x. IsName (name x)) xs
            × All (λ x. more x ≡ []) xs
            × Fresh seen xs
            × IsDistinct name xs)
    unfolding object_issues
    object_issues_iff seen [] = (λ h. (tt, tt, λ s k. refl, tt), λ h. refl)
    object_issues_iff seen (x ∷ xs) = elim (Bool-cases (is_blank (name x))) [
      | inl e ↦ (λ h. let g = rw e at h in cc, λ h. let g = h.0.0.0 in cc)
      | inr e ↦
          let rest = more x ++ object_issues name field more (name x ∷ seen) xs in
          let open_up : object_issues name field more seen (x ∷ xs)
              ≡ name_issues field seen (name x) ++ rest =
            ap
              (λ (t : Bool).
                if t
                then issue issue_kind_name (name x) field ∷ object_issues name field more seen xs
                else name_issues field seen (name x) ++ rest)
              e in
          (
            λ h.
                let one =
                  (append-nil_iff (name_issues field seen (name x)) rest).0 (sym open_up ∙ h) in
                let two = (append-nil_iff (more x) _).0 one.1 in
                let this = (name_issues_iff field seen (name x)).0 one.0 in
                let ih = (object_issues_iff (name x ∷ seen) xs).0 two.1 in
                let f = (Fresh-head seen x xs).1 (this.1, ih.2) in
                ((this.0, ih.0), (two.0, ih.1), f.0, (f.1, ih.3)),
            λ h.
                let f = (Fresh-head seen x xs).0 (h.2, h.3.0) in
                open_up
                ∙ (append-nil_iff (name_issues field seen (name x)) rest).1 (
                  (name_issues_iff field seen (name x)).1 (h.0.0, f.0),
                  (append-nil_iff (more x) _).1
                      (h.1.0, (object_issues_iff (name x ∷ seen) xs).1 (h.0.1, h.1.1, f.1, h.3.1)),
                ),
          )
    ]

    pub loop_iff :
        (xs : List A)
        → (object_issues name field more [] xs ≡ []) ↔ (Named name xs × All (λ x. more x ≡ []) xs)
    loop_iff xs =
        let law = object_issues_iff [] xs in
        (λ h. let g = law.0 h in ((g.0, g.3), g.1), λ h. law.1 (h.0.0, h.1, λ s k. cc, h.0.1))

  -- The set has the names of the list.
  pub names_seen-has :
      (s : Bytes) (seen : List Bytes) (xs : List A)
      → All (λ x. IsName (name x)) xs
      → has_name (names_seen name seen xs) s
        ≡ (if is_found (find_by name s xs) then true else has_name seen s)
  unfolding names_seen
  names_seen-has s seen [] h = refl
  names_seen-has s seen (x ∷ xs) h =
      let known = h.0.0 in
      rw known (names_seen-has s (name x ∷ seen) xs h.1 ∙ here (Bool-cases (text_eq (name x) s)))
    where
      settle : (t : Bool) → (if t then true else true) ≡ true
      settle true = refl
      settle false = refl

      here :
          (text_eq (name x) s ≡ true) ⊎ (text_eq (name x) s ≡ false)
          → (if is_found (find_by name s xs) then true else has_name (name x ∷ seen) s)
            ≡ (if is_found (find_by name s (x ∷ xs)) then true else has_name seen s)
      here (inl e) = rw e (settle (is_found (find_by name s xs)))
      here (inr e) = rw e refl

-- A list of references is complained of exactly when one of them is to no object.
pub reference_issues_iff :
    {A B : Type 0} (name : A → Bytes) (target : B → Bytes) (objects : List B) (object field : Bytes)
    (refs : List A)
    → All (λ x. IsName (target x)) objects
    → (reference_issues name (names_seen target [] objects) object field refs ≡ [])
      ↔ Known name target objects refs
reference_issues_iff name target objects object field refs h =
    let law =
      flat_map-nil_iff
        (λ x.
          issue_unless (has_name (names_seen target [] objects) (name x)) issue_kind_reference
            object field)
        refs in
    let view =
      All-iff _ (λ x. is_found (find_by target (name x) objects) ≡ true) refs
        (λ x. known (name x)) in
    (λ k. view.0 (law.0 k), λ k. law.1 (view.1 k))
  where
    flat : (t : Bool) → (if t then true else false) ≡ t
    flat true = refl
    flat false = refl

    known :
        (s : Bytes)
        → (issue_unless
              (has_name (names_seen target [] objects) s)
              issue_kind_reference
              object
              field
            ≡ [])
          ↔ (is_found (find_by target s objects) ≡ true)
    known s =
        let same =
          names_seen-has target s [] objects h ∙ flat (is_found (find_by target s objects)) in
        (
          λ k. sym same ∙ (issue_unless_iff _ _ _ _).0 k,
          λ k. (issue_unless_iff _ _ _ _).1 (same ∙ k),
        )
