-- ===== src/Dynsec/Guard/Reach.antt =====
-- internal/dynsec/plan.go: who has an entry that names the control channel. What counts is the text of
-- the topic: a filter with a wildcard in front of the plugin's levels names nothing, even where the broker
-- would let it match.
use mcm.Base.{
  Bool, true, false, not, List, some, ◌≡◌, ◌↔◌, ◌⊎◌, inl, inr, sym, ◌∙◌, arith, ◌&&◌, if◌then◌else◌,
  Option-cases, any,
}
use mcm.Base.Members.{Memᴰ, any_witness, any_of_mem}
use mcm.Text.{Bytes, text_eq, text_eq_iff, text_eq_refl, trim_space}
use mcm.Dynsec.Model.{Acl, RoleRef, GroupRef, Role, Client, Group, Document, find_group}
use mcm.Dynsec.Guard.Topics.{NamesChannel, topic_reaches_control_channel_iff}
use mcm.Dynsec.Guard.{
  reaching_types, opens_channel, role_grants_control_channel, role_reaches, any_role_reaches,
  group_reaches, client_reaches, granted,
}
use mcm.Base.Bools.{and_iff, or_iff}

-- A list of references has one to a role with an entry that allows one of the four types of access
-- that matter on a topic whose text names the channel.
abbrev pub Opens : Document → List RoleRef → Type 0
Opens d refs =
    (x : RoleRef) × (r : Role) × (e : Acl) × Memᴰ x refs
    × Memᴰ r d.roles
    × Memᴰ e r.acls
    × (r.role_name ≡ x.role_name)
    × (e.allow ≡ true)
    × Memᴰ e.acl_type reaching_types
    × NamesChannel (trim_space e.topic)

-- A client has such a role of its own, or by one of its groups.
abbrev pub HasEntry : Document → Client → Type 0
HasEntry d c =
    Opens d c.roles
    ⊎ ((x : GroupRef) × (g : Group) × Memᴰ x c.groups
        × (find_group d x.group_name ≡ some g)
        × Opens d g.roles)

opens_channel_iff :
    (e : Acl)
    → (opens_channel e ≡ true)
      ↔ ((e.allow ≡ true) × Memᴰ e.acl_type reaching_types × NamesChannel (trim_space e.topic))
opens_channel_iff e = (
  λ h.
      let parts = guards e.allow (any (text_eq e.acl_type) reaching_types) _ h in
      let w = any_witness (text_eq e.acl_type) reaching_types parts.1 in
      (
        parts.0,
        rw ((text_eq_iff e.acl_type w.0).0 w.2) w.1,
        (topic_reaches_control_channel_iff e.topic).0 parts.2,
      ),
  λ h.
      let typed : any (text_eq e.acl_type) reaching_types ≡ true =
        any_of_mem (text_eq e.acl_type) reaching_types h.1 (text_eq_refl e.acl_type) in
      passes e.allow (any (text_eq e.acl_type) reaching_types) _ h.0 typed
        ((topic_reaches_control_channel_iff e.topic).1 h.2),
)
  where
    guards :
        (a b c : Bool)
        → (if not a then false else if not b then false else c) ≡ true
        → (a ≡ true) × (b ≡ true) × (c ≡ true)
    guards a b c h = (ground arith, ground arith, ground arith)

    passes :
        (a b c : Bool)
        → a ≡ true
        → b ≡ true
        → c ≡ true
        → (if not a then false else if not b then false else c) ≡ true
    passes a b c p q r = rw (p, q) r

-- The references open the channel exactly when the loops over them find it.
pub any_role_reaches_iff :
    (d : Document) (refs : List RoleRef) → (any_role_reaches d refs ≡ true) ↔ Opens d refs
unfolding role_reaches role_grants_control_channel
any_role_reaches_iff d refs = (
  λ h.
      let one = any_witness (λ (x : RoleRef). role_reaches d x.role_name) refs h in
      let two =
        any_witness
          (λ (r : Role). role_grants_control_channel r && text_eq r.role_name one.0.role_name)
          d.roles one.2 in
      let both = (and_iff _ _).0 two.2 in
      let three = any_witness opens_channel two.0.acls both.0 in
      let entry = (opens_channel_iff three.0).0 three.2 in
      (
        one.0,
        two.0,
        three.0,
        one.1,
        two.1,
        three.1,
        (text_eq_iff two.0.role_name one.0.role_name).0 both.1,
        entry.0,
        entry.1,
        entry.2,
      ),
  λ (x, r, e, mx, mr, me, same, allow, typed, reaches).
      any_of_mem (λ (x : RoleRef). role_reaches d x.role_name) refs mx
        (any_of_mem (λ (r : Role). role_grants_control_channel r && text_eq r.role_name x.role_name)
          d.roles mr
          ((and_iff _ _).1 (
            any_of_mem opens_channel r.acls me ((opens_channel_iff e).1 (allow, typed, reaches)),
            (text_eq_iff r.role_name x.role_name).1 same,
          ))),
)

-- The group of that name opens the channel.
abbrev pub GroupOpens : Document → Bytes → Type 0
GroupOpens d n = (g : Group) × (find_group d n ≡ some g) × Opens d g.roles

pub group_reaches_iff :
    (d : Document) (n : Bytes) → (group_reaches d (find_group d n) ≡ true) ↔ GroupOpens d n
group_reaches_iff d n = elim (Option-cases (find_group d n)) [
  | inl e ↦ (λ h. let g = rw e at h in cc, λ h. let g = h.1 in let f = e in cc)
  | inr (g, e) ↦
      let law = any_role_reaches_iff d g.roles in
      (
        λ h. (g, e, law.0 (rw e at h)),
        λ (g', e', opens).
            let same : some g' ≡ some g = sym e' ∙ e in
            let one : g' ≡ g = (cc) in rw e (law.1 (rw one at opens)),
      )
]

client_reaches_iff : (d : Document) (c : Client) → (client_reaches d c ≡ true) ↔ HasEntry d c
unfolding client_reaches
client_reaches_iff d c =
    let own = any_role_reaches_iff d c.roles in
    let test = λ (x : GroupRef). group_reaches d (find_group d x.group_name) in
    let split = or_iff (any_role_reaches d c.roles) (any test c.groups) in
    (
      λ h. elim (split.0 h) [
        | inl e ↦ inl (own.0 e)
        | inr e ↦
            let w = any_witness test c.groups e in
            let (g, found, opens) = (group_reaches_iff d w.0.group_name).0 w.2 in
            inr (w.0, g, w.1, found, opens)
      ],
      λ h. split.1 (elim h [
        | inl e ↦ inl (own.1 e)
        | inr (x, g, m, found, opens) ↦
            inr
              (any_of_mem test c.groups m ((group_reaches_iff d x.group_name).1 (g, found, opens)))
      ]),
    )

-- Some client of that name has such an entry.
abbrev pub HasNamed : Document → Bytes → Type 0
HasNamed d u = (c : Client) × Memᴰ c d.clients × HasEntry d c × (c.username ≡ u)

pub granted_iff : (d : Document) (u : Bytes) → (granted d u ≡ true) ↔ HasNamed d u
unfolding granted
granted_iff d u =
    let test = λ (c : Client). client_reaches d c && text_eq c.username u in
    (
      λ h.
          let w = any_witness test d.clients h in
          let both = (and_iff _ _).0 w.2 in
          (w.0, w.1, (client_reaches_iff d w.0).0 both.0, (text_eq_iff w.0.username u).0 both.1),
      λ (c, m, reach, same).
          any_of_mem test d.clients m
            ((and_iff _ _).1 ((client_reaches_iff d c).1 reach, (text_eq_iff c.username u).1 same)),
    )
