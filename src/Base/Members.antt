-- ===== src/Base/Members.antt =====
-- Membership with its position kept, and what holds of every member.
use mathlib.Core.Path.{◌≡◌, refl}
use mathlib.Core.Logic.{inl, inr}
use mathlib.Core.Bool.{Bool, true, false}
use mathlib.Core.List.{List, [], ◌∷◌, ◌++◌}
use native.Mathlib.Omega.{arith}
use mcm.Base.Tests.{if◌then◌else◌, Bool-cases}
use mcm.Base.Lists.{keep, all, any, flat_map}
pub use mathlib.Core.List.{Memᴰ}

module _ {ℓ κ} {A : Type ℓ} where
  abbrev pub All : (A → Type κ) → List A → Type κ
  All P [] = Unit
  All P (x ∷ xs) = P x × All P xs

module _ {ℓ κ} {A : Type ℓ} (P : A → Type κ) where
  pub All-append : (xs ys : List A) → All P xs → All P ys → All P (xs ++ ys)
  All-append [] ys hx hy = hy
  All-append (x ∷ xs) ys hx hy = (hx.0, All-append xs ys hx.1 hy)

  pub All-mem : {a : A} (xs : List A) → All P xs → Memᴰ a xs → P a
  All-mem [] h m = elim m [ ]
  All-mem (x ∷ xs) h (Memᴰ.head e) = rw e h.0
  All-mem (x ∷ xs) h (Memᴰ.tail m) = All-mem xs h.1 m

  pub All-of_mem : (xs : List A) → ((a : A) → Memᴰ a xs → P a) → All P xs
  All-of_mem [] f = tt
  All-of_mem (x ∷ xs) f = (f x (Memᴰ.head refl), All-of_mem xs (λ a m. f a (Memᴰ.tail m)))

  pub All-keep : (p : A → Bool) (xs : List A) → All P xs → All P (keep p xs)
  All-keep p [] h = tt
  All-keep p (x ∷ xs) h = elim (Bool-cases (p x)) [
    | inl e ↦ rw e (h.0, All-keep p xs h.1)
    | inr e ↦ rw e (All-keep p xs h.1)
  ]

module _ {ℓ} {A : Type ℓ} (p : A → Bool) where
  mem-keep_step :
      {a x : A} {xs : List A} (b : Bool)
      → p x ≡ b
      → Memᴰ a (if b then x ∷ keep p xs else keep p xs)
      → (Memᴰ a (keep p xs) → Memᴰ a xs × (p a ≡ true))
      → Memᴰ a (x ∷ xs) × (p a ≡ true)
  mem-keep_step true e (Memᴰ.head h) ih = (Memᴰ.head h, rw h e)
  mem-keep_step true e (Memᴰ.tail m) ih = (Memᴰ.tail (ih m).0, (ih m).1)
  mem-keep_step false e m ih = (Memᴰ.tail (ih m).0, (ih m).1)

  pub mem-keep : {a : A} (xs : List A) → Memᴰ a (keep p xs) → Memᴰ a xs × (p a ≡ true)
  mem-keep [] m = elim m [ ]
  mem-keep (x ∷ xs) m = mem-keep_step (p x) refl m (λ m'. mem-keep xs m')

  pub keep-mem : {a : A} (xs : List A) → Memᴰ a xs → p a ≡ true → Memᴰ a (keep p xs)
  keep-mem [] m h = elim m [ ]
  keep-mem (x ∷ xs) (Memᴰ.head e) h = let px : p x ≡ true = rw (← e) h in rw px (Memᴰ.head e)
  keep-mem (x ∷ xs) (Memᴰ.tail m) h = elim (Bool-cases (p x)) [
    | inl e ↦ rw e (Memᴰ.tail (keep-mem xs m h))
    | inr e ↦ rw e (keep-mem xs m h)
  ]

  pub any_witness : (xs : List A) → any p xs ≡ true → (a : A) × Memᴰ a xs × (p a ≡ true)
  any_witness [] h = cc
  any_witness (x ∷ xs) h = elim (Bool-cases (p x)) [
    | inl e ↦ (x, Memᴰ.head refl, e)
    | inr e ↦ let r = any_witness xs (rw e at h) in (r.0, Memᴰ.tail r.1, r.2)
  ]

  pub any_of_mem : {a : A} (xs : List A) → Memᴰ a xs → p a ≡ true → any p xs ≡ true
  any_of_mem [] m h = elim m [ ]
  any_of_mem (x ∷ xs) (Memᴰ.head e) h = let px : p x ≡ true = rw (← e) h in rw px
  any_of_mem (x ∷ xs) (Memᴰ.tail m) h = ground (arith, any_of_mem xs m h)

  pub all_mem : {a : A} (xs : List A) → all p xs ≡ true → Memᴰ a xs → p a ≡ true
  all_mem [] h m = elim m [ ]
  all_mem (x ∷ xs) h (Memᴰ.head e) = rw e (ground arith)
  all_mem (x ∷ xs) h (Memᴰ.tail m) = all_mem xs (ground arith) m

  pub all_of_mem : (xs : List A) → ((a : A) → Memᴰ a xs → p a ≡ true) → all p xs ≡ true
  all_of_mem [] f = refl
  all_of_mem (x ∷ xs) f =
      ground (arith, f x (Memᴰ.head refl), all_of_mem xs (λ a m. f a (Memᴰ.tail m)))

module _ {ℓ κ ν} {A : Type ℓ} {B : Type κ} (P : B → Type ν) where
  pub All-flat_map :
      (f : A → List B) (xs : List A) → ((x : A) → All P (f x)) → All P (flat_map f xs)
  All-flat_map f [] h = tt
  All-flat_map f (x ∷ xs) h = All-append P (f x) (flat_map f xs) (h x) (All-flat_map f xs h)
