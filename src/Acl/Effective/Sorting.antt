-- ===== src/Acl/Effective/Sorting.antt =====
-- The order of the grants: sorting keeps the members and sorts.
use mcm.Base.{true, false, List, [], ◌∷◌, ◌≡◌, ◌↔◌, arith, Bool-cases, inl, inr}
use mcm.Base.Members.{Memᴰ}
use mcm.Text.{text_eq_iff, text_lt_asymm}
use mcm.Acl.Rule.{selector_text}
use mcm.Acl.Effective.{EffectiveGrant, grant_less, insert_grant, sort_grants}

-- Sorting keeps the members.
mem-insert :
    {x : EffectiveGrant} (g : EffectiveGrant) (gs : List EffectiveGrant)
    → Memᴰ x (insert_grant g gs) ↔ Memᴰ x (g ∷ gs)
unfolding insert_grant
mem-insert g [] = (λ m. m, λ m. m)
mem-insert {x} g (h ∷ hs) = elim (Bool-cases (grant_less h g)) [
  | inl e ↦ rw e (to (mem-insert g hs), from (mem-insert g hs))
  | inr e ↦ rw e (λ m. m, λ m. m)
]
  where
    to :
        Memᴰ x (insert_grant g hs) ↔ Memᴰ x (g ∷ hs)
        → Memᴰ x (h ∷ insert_grant g hs)
        → Memᴰ x (g ∷ h ∷ hs)
    to ih (Memᴰ.head e) = Memᴰ.tail (Memᴰ.head e)
    to ih (Memᴰ.tail m) = back (ih.0 m)
      where
        back : Memᴰ x (g ∷ hs) → Memᴰ x (g ∷ h ∷ hs)
        back (Memᴰ.head e) = Memᴰ.head e
        back (Memᴰ.tail m') = Memᴰ.tail (Memᴰ.tail m')

    from :
        Memᴰ x (insert_grant g hs) ↔ Memᴰ x (g ∷ hs)
        → Memᴰ x (g ∷ h ∷ hs)
        → Memᴰ x (h ∷ insert_grant g hs)
    from ih (Memᴰ.head e) = Memᴰ.tail (ih.1 (Memᴰ.head e))
    from ih (Memᴰ.tail (Memᴰ.head e)) = Memᴰ.head e
    from ih (Memᴰ.tail (Memᴰ.tail m)) = Memᴰ.tail (ih.1 (Memᴰ.tail m))

pub mem-sort : {x : EffectiveGrant} (gs : List EffectiveGrant) → Memᴰ x (sort_grants gs) ↔ Memᴰ x gs
unfolding sort_grants
mem-sort [] = (λ m. m, λ m. m)
mem-sort {x} (g ∷ gs) =
    let ih = mem-sort {x = x} gs in
    let step = mem-insert {x = x} g (sort_grants gs) in
    (λ m. under ih.0 (step.0 m), λ m. step.1 (under ih.1 m))
  where
    under :
        {us bs : List EffectiveGrant} → (Memᴰ x us → Memᴰ x bs) → Memᴰ x (g ∷ us) → Memᴰ x (g ∷ bs)
    under f (Memᴰ.head e) = Memᴰ.head e
    under f (Memᴰ.tail m) = Memᴰ.tail (f m)

-- No grant is less than the one in front of it.
abbrev pub IsSorted : List EffectiveGrant → Type 0
IsSorted [] = Unit
IsSorted (g ∷ []) = Unit
IsSorted (g ∷ h ∷ hs) = (grant_less h g ≡ false) × IsSorted (h ∷ hs)

grant_less_asymm : (g h : EffectiveGrant) → grant_less g h ≡ true → grant_less h g ≡ false
unfolding grant_less
grant_less_asymm g h l = ground (
  arith,
  text_eq_iff (selector_text g.selector) (selector_text h.selector),
  text_eq_iff (selector_text h.selector) (selector_text g.selector),
  text_eq_iff g.principal h.principal,
  text_eq_iff h.principal g.principal,
  text_lt_asymm (selector_text g.selector) (selector_text h.selector),
  text_lt_asymm g.principal h.principal,
  text_lt_asymm g.topic_filter h.topic_filter,
)

insert-IsSorted :
    (g : EffectiveGrant) (gs : List EffectiveGrant) → IsSorted gs → IsSorted (insert_grant g gs)
unfolding insert_grant
insert-IsSorted g [] s = tt
insert-IsSorted g (h ∷ []) s = elim (Bool-cases (grant_less h g)) [
  | inl e ↦ rw e (grant_less_asymm h g e, tt)
  | inr e ↦ rw e (e, tt)
]
insert-IsSorted g (h ∷ k ∷ ks) s =
    let ih = insert-IsSorted g (k ∷ ks) s.1 in
    elim (Bool-cases (grant_less h g)) [
      | inl e ↦ elim (Bool-cases (grant_less k g)) [
        | inl f ↦ rw (e, f) (s.0, rw f at ih)
        | inr f ↦ rw (e, f) (grant_less_asymm h g e, rw f at ih)
      ]
      | inr e ↦ rw e (e, s)
    ]

pub sort-IsSorted : (gs : List EffectiveGrant) → IsSorted (sort_grants gs)
unfolding sort_grants
sort-IsSorted [] = tt
sort-IsSorted (g ∷ gs) = insert-IsSorted g (sort_grants gs) (sort-IsSorted gs)
