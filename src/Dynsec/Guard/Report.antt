-- ===== src/Dynsec/Guard/Report.antt =====
-- internal/dynsec/plan.go: what it means that the report of `CheckControlChannel` is good.
use mcm.Base.{
  Bool, true, false, not, List, [], ◌∷◌, ◌++◌, ◌≡◌, ◌↔◌, ◌≢◌, inl, inr, refl, sym, ◌∙◌, arith, ◌&&◌,
  if◌then◌else◌, Bool-cases, is_empty,
}
use mcm.Base.Members.{All, All-mem, All-of_mem, Memᴰ}
use mcm.Text.{Bytes, codes, text_eq_iff}
use mcm.Dynsec.Model.{Client, Document, find_group}
use mcm.Dynsec.Guard.{
  group_reaches, granted, anonymous_reaches, open_defaults, is_management, insert_text, sort_texts,
  violating_clients, check_control_channel,
}
use mcm.Base.Bools.{and_iff, not_iff}
use mcm.Dynsec.Guard.Reach.{HasEntry, GroupOpens, group_reaches_iff, HasNamed, granted_iff}

-- A client that is granted the channel is the management account.
abbrev Settles : Document → Bytes → Client → Type 0
Settles d m c = granted d c.username ≡ true → is_management m c.username ≡ true

violating_clients-nil_iff :
    (d : Document) (m : Bytes) (cs : List Client)
    → (violating_clients d m cs ≡ []) ↔ All (Settles d m) cs
unfolding violating_clients
violating_clients-nil_iff d m [] = (λ h. tt, λ h. refl)
violating_clients-nil_iff d m (c ∷ cs) =
    let ih = violating_clients-nil_iff d m cs in
    elim (Bool-cases (granted d c.username)) [
      | inr e ↦ rw e ((λ h. (λ k. cc, ih.0 h), λ h. ih.1 h.1))
      | inl e ↦ elim (Bool-cases (is_management m c.username)) [
        | inl k ↦ rw (e, k) ((λ h. (λ _. refl, ih.0 h), λ h. ih.1 h.1))
        | inr k ↦ rw (e, k) ((λ h. cc, λ h. let g = h.0 refl in cc))
      ]
    ]

-- A sorted list is empty only if the list is.
sort_texts-nil_iff : (xs : List Bytes) → (is_empty (sort_texts xs) ≡ true) ↔ (xs ≡ [])
sort_texts-nil_iff [] = (λ h. refl, λ h. refl)
sort_texts-nil_iff (x ∷ xs) = (λ h. let g = sym (filled x (sort_texts xs)) ∙ h in cc, λ h. cc)
  where
    filled : (y : Bytes) (ys : List Bytes) → is_empty (insert_text y ys) ≡ false
    filled y [] = refl
    filled y (z ∷ zs) = ground arith

is_empty-nil : (xs : Bytes) → is_empty xs ≡ true → xs ≡ []
is_empty-nil [] h = refl
is_empty-nil (x ∷ xs) h = cc

is_empty_iff : (xs : Bytes) → (is_empty xs ≡ false) ↔ (xs ≢ [])
is_empty_iff [] = (λ h. cc, λ h. absurd (h refl))
is_empty_iff (x ∷ xs) = (λ h e. cc, λ h. refl)

-- The last line of the check, over its parts.
ok_iff :
    (opened anonymous locked : Bool) (w : Bytes) (clients : List Bytes)
    → ((is_empty (sort_texts ((if opened && anonymous then w ∷ [] else []) ++ clients))
          && not anonymous
          && not opened
          && not locked)
        ≡ true)
      ↔ ((clients ≡ []) × (anonymous ≡ false) × (opened ≡ false) × (locked ≡ false))
ok_iff true true locked w clients = (λ h. ground arith, λ h. ground arith)
ok_iff true false locked w clients = (λ h. ground arith, λ h. ground arith)
ok_iff false true locked w clients = (λ h. ground arith, λ h. ground arith)
ok_iff false false locked w clients =
    let law = sort_texts-nil_iff clients in
    (
      λ h. (law.0 (ground arith), refl, refl, ground arith),
      λ h. let fine = law.1 h.0 in ground arith,
    )

-- Nobody but the management account has an entry that names the control channel, and the management
-- account, where there is one, has one.
abbrev pub IsGuarded : Document → Bytes → Type 0
IsGuarded d m =
    (d.default_access.send ≡ false)
    × (d.default_access.subscribe ≡ false)
    × (d.anonymous_group ≢ [] → ¬ GroupOpens d d.anonymous_group)
    × ((c : Client) → Memᴰ c d.clients → HasEntry d c → (m ≢ []) × (c.username ≡ m))
    × (m ≢ [] → HasNamed d m)

module _ (d : Document) (m : Bytes) where
  anonymous_iff :
      (anonymous_reaches d ≡ false) ↔ (d.anonymous_group ≢ [] → ¬ GroupOpens d d.anonymous_group)
  unfolding anonymous_reaches
  anonymous_iff =
      let law = group_reaches_iff d d.anonymous_group in
      elim (Bool-cases (is_empty d.anonymous_group)) [
        | inl e ↦ rw e ((λ h k. absurd (k (is_empty-nil d.anonymous_group e)), λ h. refl))
        | inr e ↦ rw e (
          λ h k o. let g = sym h ∙ law.1 o in cc,
          λ h. elim (Bool-cases (group_reaches d (find_group d d.anonymous_group))) [
            | inl y ↦ absurd (h ((is_empty_iff d.anonymous_group).0 e) (law.0 y))
            | inr y ↦ y
          ],
        )
      ]

  -- The loop over the clients finds no violation.
  clients_iff :
      All (Settles d m) d.clients
      ↔ ((c : Client) → Memᴰ c d.clients → HasEntry d c → (m ≢ []) × (c.username ≡ m))
  clients_iff = (
    λ h c i reach.
        let both = (and_iff (not (is_empty m)) _).0 (
          All-mem (Settles d m) d.clients h i ((granted_iff d c.username).1 (c, i, reach, refl))) in
        ((is_empty_iff m).0 ((not_iff (is_empty m)).0 both.0), (text_eq_iff c.username m).0 both.1),
    λ h. All-of_mem (Settles d m) d.clients (λ c i g.
        let (c', i', reach, same) = (granted_iff d c.username).0 g in
        let both = h c' i' reach in
        (and_iff (not (is_empty m)) _).1 (
          (not_iff (is_empty m)).1 ((is_empty_iff m).1 both.0),
          (text_eq_iff c.username m).1 (sym same ∙ both.1),
        )),
  )

  -- An existing management account is granted the channel.
  locked_iff : (not (is_empty m) && not (granted d m) ≡ false) ↔ (m ≢ [] → HasNamed d m)
  locked_iff = elim (Bool-cases (is_empty m)) [
    | inl e ↦ rw e ((λ h k. absurd (k (is_empty-nil m e)), λ h. refl))
    | inr e ↦
        let law = granted_iff d m in
        rw e (λ h k. law.0 (kept (granted d m) h), λ h. rw (law.1 (h ((is_empty_iff m).0 e))) refl)
  ]
    where
      kept : (b : Bool) → not b ≡ false → b ≡ true
      kept true h = refl
      kept false h = cc

  closed_iff :
      (open_defaults d ≡ false)
      ↔ ((d.default_access.send ≡ false) × (d.default_access.subscribe ≡ false))
  closed_iff = (λ h. (ground arith, ground arith), λ h. rw (h.0, h.1) refl)

  -- The report on the control channel is good exactly when publishing and subscribing are not open by
  -- default, and of all roles with an entry that allows one of the four types of access on a topic
  -- which, trimmed, is "$CONTROL", "$CONTROL/#" or a text that begins with
  -- "$CONTROL/dynamic-security/": the group of the anonymous clients has none, every client that has
  -- one, itself or by one of its groups, is the management account, and the management account, where
  -- one is named, has one. A topic that matches the channel by another wildcard is not looked at.
  pub check_control_channel_iff : ((check_control_channel d m).ok ≡ true) ↔ IsGuarded d m
  unfolding check_control_channel
  check_control_channel_iff =
      let law =
        ok_iff (open_defaults d) (anonymous_reaches d) (not (is_empty m) && not (granted d m))
          (codes "anonymous clients") (violating_clients d m d.clients) in
      let loop = violating_clients-nil_iff d m d.clients in
      (
        λ h.
            let (none_left, hidden, shut, kept) = law.0 h in
            let defaults = closed_iff.0 shut in
            (
              defaults.0,
              defaults.1,
              anonymous_iff.0 hidden,
              clients_iff.0 (loop.0 none_left),
              locked_iff.0 kept,
            ),
        λ h. law.1 (
          loop.1 (clients_iff.1 h.3),
          anonymous_iff.1 h.2,
          closed_iff.1 (h.0, h.1),
          locked_iff.1 h.4,
        ),
      )
