-- ===== src/Dynsec/Validate/Documents.antt =====
-- internal/dynsec/model.go: the documents in which `Validate` finds nothing.
use mcm.Base.{
  Bool, true, false, List, [], ◌∷◌, Option, none, some, ◌≡◌, ◌↔◌, ◌⊎◌, inl, inr, refl, sym, ◌∙◌,
  ◌||◌, if◌then◌else◌, Bool-cases, is_empty, flat_map,
}
use mcm.Base.Members.{All, Memᴰ, any_witness, any_of_mem}
use mcm.Text.{Bytes, codes, text_eq, text_eq_iff, text_eq_refl, is_blank}
use mcm.Acl.Validate.{FilterError, validate_topic_filter}
use mcm.Acl.Validate.Topic.{IsFilter, validate_topic_filter_iff}
use mcm.Dynsec.Model.{
  Acl, RoleRef, GroupRef, ClientRef, Role, Client, Group, Document, is_valid_acl_type, acl_types,
  find_group, is_found,
}
use mcm.Dynsec.Issue.{
  Issue, issue_unless, issue_unless_iff, append-nil_iff, flat_map-nil_iff, All-iff,
}
use mcm.Dynsec.Validate.Loops.{IsName, Named, Known, loop_iff, reference_issues_iff, names_seen-has}
use mcm.Dynsec.Validate.{
  has_name, names_seen, acl_issues, filter_issues, client_reference_issues, group_reference_issues,
  validate, issue_kind_reference,
}

abbrev pub IsEntry : Acl → Type 0
IsEntry e = Memᴰ e.acl_type acl_types × (is_blank e.topic ≡ false) × IsFilter e.topic

-- No name is invalid or comes twice, the entries are valid, and every reference is to an object.
abbrev pub IsDocument : Document → Type 0
IsDocument d =
    Named (λ c. c.username) d.clients
    × Named (λ g. g.group_name) d.groups
    × Named (λ r. r.role_name) d.roles
    × All (λ r. All IsEntry r.acls) d.roles
    × All
        (λ c.
          Known (λ x. x.role_name) (λ r. r.role_name) d.roles c.roles
          × Known (λ x. x.group_name) (λ g. g.group_name) d.groups c.groups)
        d.clients
    × All
        (λ g.
          Known (λ x. x.role_name) (λ r. r.role_name) d.roles g.roles
          × Known (λ x. x.username) (λ c. c.username) d.clients g.clients)
        d.groups
    × ((d.anonymous_group ≡ []) ⊎ (is_found (find_group d d.anonymous_group) ≡ true))

filter_issues_iff : (o : Option FilterError) (r : Bytes) → (filter_issues o r ≡ []) ↔ (o ≡ none)
filter_issues_iff none r = (λ h. refl, λ h. refl)
filter_issues_iff (some e) r = (λ h. cc, λ h. cc)

valid_type_iff : (t : Bytes) → (is_valid_acl_type t ≡ true) ↔ Memᴰ t acl_types
unfolding is_valid_acl_type
valid_type_iff t = (
  λ h. let w = any_witness (text_eq t) acl_types h in rw ((text_eq_iff t w.0).0 w.2) w.1,
  λ m. any_of_mem (text_eq t) acl_types m (text_eq_refl t),
)

acl_issues_iff : (r : Bytes) (e : Acl) → (acl_issues r e ≡ []) ↔ IsEntry e
unfolding acl_issues
acl_issues_iff r e = elim (Bool-cases (is_valid_acl_type e.acl_type)) [
  | inr t ↦ (λ h. let g = rw t at h in cc, λ h. let g = (valid_type_iff e.acl_type).1 h.0 in cc)
  | inl t ↦ elim (Bool-cases (is_blank e.topic)) [
    | inl b ↦ (λ h. let g = rw (t, b) at h in cc, λ h. let g = h.1 in cc)
    | inr b ↦ (
      λ h.
          let g : filter_issues (validate_topic_filter e.topic) r ≡ [] = rw (t, b) at h in
          (
            (valid_type_iff e.acl_type).0 t,
            b,
            (validate_topic_filter_iff e.topic).0
                ((filter_issues_iff (validate_topic_filter e.topic) r).0 g),
          ),
      λ h.
          let g : filter_issues (validate_topic_filter e.topic) r ≡ [] =
            (filter_issues_iff (validate_topic_filter e.topic) r).1
              ((validate_topic_filter_iff e.topic).1 h.2) in
          rw (t, b) g,
    )
  ]
]

-- The group of the anonymous clients is none, or known.
anonymous_iff :
    (d : Document)
    → All (λ x. IsName x.group_name) d.groups
    → (issue_unless
          (is_empty d.anonymous_group
            || has_name (names_seen (λ g. g.group_name) [] d.groups) d.anonymous_group)
          issue_kind_reference
          d.anonymous_group
          (codes "anonymous_group")
        ≡ [])
      ↔ ((d.anonymous_group ≡ []) ⊎ (is_found (find_group d d.anonymous_group) ≡ true))
anonymous_iff d named = (
  λ h. split d.anonymous_group ((issue_unless_iff _ _ _ _).0 h),
  λ h. (issue_unless_iff _ _ _ _).1 (join d.anonymous_group h),
)
  where
    flat : (t : Bool) → (if t then true else false) ≡ t
    flat true = refl
    flat false = refl

    same :
        (s : Bytes)
        → has_name (names_seen (λ (g : Group). g.group_name) [] d.groups) s
          ≡ is_found (find_group d s)
    same s =
        names_seen-has (λ (g : Group). g.group_name) s [] d.groups named
        ∙ flat (is_found (find_group d s))

    split :
        (s : Bytes)
        → (is_empty s || has_name (names_seen (λ (g : Group). g.group_name) [] d.groups) s) ≡ true
        → (s ≡ []) ⊎ (is_found (find_group d s) ≡ true)
    split [] h = inl refl
    split (c ∷ s) h = inr (sym (same (c ∷ s)) ∙ h)

    join :
        (s : Bytes)
        → (s ≡ []) ⊎ (is_found (find_group d s) ≡ true)
        → (is_empty s || has_name (names_seen (λ (g : Group). g.group_name) [] d.groups) s) ≡ true
    join s (inl e) = rw e refl
    join [] (inr e) = refl
    join (c ∷ s) (inr e) = same (c ∷ s) ∙ e

module _ (d : Document) (r : All (λ x. IsName x.role_name) d.roles) where
  client_refs_iff :
      All (λ x. IsName x.group_name) d.groups
      → (flat_map
            (client_reference_issues
              (names_seen (λ x. x.role_name) [] d.roles)
              (names_seen (λ x. x.group_name) [] d.groups))
            d.clients
          ≡ [])
        ↔ All
            (λ c.
              Known (λ x. x.role_name) (λ r. r.role_name) d.roles c.roles
              × Known (λ x. x.group_name) (λ g. g.group_name) d.groups c.groups)
            d.clients
  client_refs_iff g =
      let law = flat_map-nil_iff _ d.clients in
      let view = All-iff _ _ d.clients (λ c. one c) in
      (λ h. view.0 (law.0 h), λ h. law.1 (view.1 h))
    where
      one :
          (c : Client)
          → (client_reference_issues
                (names_seen (λ x. x.role_name) [] d.roles)
                (names_seen (λ x. x.group_name) [] d.groups)
                c
              ≡ [])
            ↔ (Known (λ x. x.role_name) (λ r. r.role_name) d.roles c.roles
                × Known (λ x. x.group_name) (λ g. g.group_name) d.groups c.groups)
      one c =
          let roles =
            reference_issues_iff (λ (x : RoleRef). x.role_name) (λ x. x.role_name) d.roles
              c.username (codes "roles") c.roles r in
          let groups =
            reference_issues_iff (λ (x : GroupRef). x.group_name) (λ x. x.group_name) d.groups
              c.username (codes "groups") c.groups g in
          (
            λ h. let both = (append-nil_iff _ _).0 h in (roles.0 both.0, groups.0 both.1),
            λ h. (append-nil_iff _ _).1 (roles.1 h.0, groups.1 h.1),
          )

  group_refs_iff :
      All (λ x. IsName x.username) d.clients
      → (flat_map
            (group_reference_issues
              (names_seen (λ x. x.role_name) [] d.roles)
              (names_seen (λ x. x.username) [] d.clients))
            d.groups
          ≡ [])
        ↔ All
            (λ g.
              Known (λ x. x.role_name) (λ r. r.role_name) d.roles g.roles
              × Known (λ x. x.username) (λ c. c.username) d.clients g.clients)
            d.groups
  group_refs_iff c =
      let law = flat_map-nil_iff _ d.groups in
      let view = All-iff _ _ d.groups (λ g. one g) in (λ h. view.0 (law.0 h), λ h. law.1 (view.1 h))
    where
      one :
          (g : Group)
          → (group_reference_issues
                (names_seen (λ x. x.role_name) [] d.roles)
                (names_seen (λ x. x.username) [] d.clients)
                g
              ≡ [])
            ↔ (Known (λ x. x.role_name) (λ r. r.role_name) d.roles g.roles
                × Known (λ x. x.username) (λ c. c.username) d.clients g.clients)
      one g =
          let roles =
            reference_issues_iff (λ (x : RoleRef). x.role_name) (λ x. x.role_name) d.roles
              g.group_name (codes "roles") g.roles r in
          let clients =
            reference_issues_iff (λ (x : ClientRef). x.username) (λ x. x.username) d.clients
              g.group_name (codes "clients") g.clients c in
          (
            λ h. let both = (append-nil_iff _ _).0 h in (roles.0 both.0, clients.0 both.1),
            λ h. (append-nil_iff _ _).1 (roles.1 h.0, clients.1 h.1),
          )

abbrev no_issues : List Issue
no_issues = []

-- The validation of a document finds nothing exactly when no name is invalid or comes twice, every
-- access entry has a known type and a topic filter of MQTT, every reference is to an object of the
-- document, and the anonymous group is none or one of its groups.
pub validate_iff : (d : Document) → (validate d ≡ []) ↔ IsDocument d
unfolding validate
validate_iff d =
    let clients = loop_iff (λ (c : Client). c.username) (codes "username") (λ c. []) d.clients in
    let groups = loop_iff (λ (g : Group). g.group_name) (codes "group_name") (λ g. []) d.groups in
    let roles =
      loop_iff (λ (r : Role). r.role_name) (codes "role_name")
        (λ r. flat_map (acl_issues r.role_name) r.acls) d.roles in
    let entries = All-iff _ (λ r. All IsEntry r.acls) d.roles (λ r. entries_iff r) in
    (
      λ h.
          let one = (append-nil_iff _ _).0 h in
          let two = (append-nil_iff _ _).0 one.1 in
          let three = (append-nil_iff _ _).0 two.1 in
          let four = (append-nil_iff _ _).0 three.1 in
          let five = (append-nil_iff _ _).0 four.1 in
          let c = (clients.0 one.0).0 in
          let g = (groups.0 two.0).0 in
          let r = roles.0 three.0 in
          (
            c,
            g,
            r.0,
            entries.0 r.1,
            (client_refs_iff d r.0.0 g.0).0 four.0,
            (group_refs_iff d r.0.0 c.0).0 five.0,
            (anonymous_iff d g.0).0 five.1,
          ),
      λ h. (append-nil_iff _ _).1 (
        clients.1 (h.0, nothing d.clients),
        (append-nil_iff _ _).1 (
          groups.1 (h.1, nothing d.groups),
          (append-nil_iff _ _).1 (
            roles.1 (h.2, entries.1 h.3),
            (append-nil_iff _ _).1 (
              (client_refs_iff d h.2.0 h.1.0).1 h.4,
              (append-nil_iff _ _).1
                  ((group_refs_iff d h.2.0 h.0.0).1 h.5, (anonymous_iff d h.1.0).1 h.6),
            ),
          ),
        ),
      ),
    )
  where
    nothing : {A : Type 0} (xs : List A) → All (λ (x : A). no_issues ≡ []) xs
    nothing [] = tt
    nothing (x ∷ xs) = (refl, nothing xs)

    entries_iff : (r : Role) → (flat_map (acl_issues r.role_name) r.acls ≡ []) ↔ All IsEntry r.acls
    entries_iff r =
        let law = flat_map-nil_iff (acl_issues r.role_name) r.acls in
        let view = All-iff _ IsEntry r.acls (acl_issues_iff r.role_name) in
        (λ h. view.0 (law.0 h), λ h. law.1 (view.1 h))
