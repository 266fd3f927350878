-- ===== src/Dynsec/Issue.antt =====
-- internal/dynsec/model.go: `Issue`, without its message.
use mcm.Base.{Bool, true, false, List, [], ◌∷◌, ◌++◌, ◌≡◌, ◌↔◌, refl, if◌then◌else◌, flat_map}
use mcm.Base.Members.{All}
use mcm.Text.{Bytes}

pub record Issue : Type 0 where
  pub kind : Bytes
  pub object : Bytes
  pub field : Bytes

abbrev pub issue : Bytes → Bytes → Bytes → Issue
issue k n f = record { kind = k; object = n; field = f }

abbrev pub issue_unless : Bool → Bytes → Bytes → Bytes → List Issue
issue_unless fine k n f = if fine then [] else issue k n f ∷ []

pub append-nil_both {ℓ} : {A : Type ℓ} (xs ys : List A) → xs ++ ys ≡ [] → (xs ≡ []) × (ys ≡ [])
append-nil_both [] ys h = (refl, h)
append-nil_both (x ∷ xs) ys h = cc

pub issue_unless_iff :
    (fine : Bool) (k n f : Bytes) → (issue_unless fine k n f ≡ []) ↔ (fine ≡ true)
issue_unless_iff true k n f = (λ h. refl, λ h. refl)
issue_unless_iff false k n f = (λ h. cc, λ h. cc)

pub append-nil_iff : {A : Type 0} (xs ys : List A) → (xs ++ ys ≡ []) ↔ ((xs ≡ []) × (ys ≡ []))
append-nil_iff xs ys = (append-nil_both xs ys, λ h. rw (h.0, h.1) refl)

-- A loop appends nothing exactly when no element does.
pub flat_map-nil_iff :
    {A B : Type 0} (f : A → List B) (xs : List A) → (flat_map f xs ≡ []) ↔ All (λ x. f x ≡ []) xs
flat_map-nil_iff f [] = (λ h. tt, λ h. refl)
flat_map-nil_iff f (x ∷ xs) =
    let ih = flat_map-nil_iff f xs in
    (
      λ h. let both = append-nil_both (f x) (flat_map f xs) h in (both.0, ih.0 both.1),
      λ h. (append-nil_iff (f x) (flat_map f xs)).1 (h.0, ih.1 h.1),
    )

pub All-iff :
    {A : Type 0} (P Q : A → Type 0) (xs : List A) → ((x : A) → P x ↔ Q x) → All P xs ↔ All Q xs
All-iff P Q [] f = (λ h. h, λ h. h)
All-iff P Q (x ∷ xs) f =
    let ih = All-iff P Q xs f in (λ h. ((f x).0 h.0, ih.0 h.1), λ h. ((f x).1 h.0, ih.1 h.1))
