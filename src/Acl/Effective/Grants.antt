-- ===== src/Acl/Effective/Grants.antt =====
-- The grants of a client: which there are, in which order, and what a denied one is worth.
use mcm.Base.{
  Bool, true, false, List, [], ◌∷◌, ◌≡◌, ◌≢◌, ◌↔◌, refl, arith, if◌then◌else◌, keep, Bool-cases,
  inl, inr, not_true→false, is_empty, ap,
}
use mcm.Base.Members.{Memᴰ, mem-keep, keep-mem}
use mcm.Text.{Bytes}
use mcm.Acl.Rule.{Rule, Permission, effective_selector}
use mcm.Acl.Filter.{topic_matches_filter, filter_covers}
use mcm.Acl.Filter.Covering.{filter_covers_sound}
use mcm.Acl.Effective.{
  Access, Identity, EffectiveGrant, rule_filter, applies, applicable_rules, is_deny, covering,
  grant_of, grants_of, effective_grants, effective_permission,
}
use mcm.Acl.Effective.Sorting.{IsSorted, mem-sort, sort-IsSorted}
use mcm.Acl.Effective.Spec.{AppliesTo, applies→AppliesTo, AppliesTo→applies}
use mcm.Acl.Effective.Verdict.{effective_permission_iff}

mem-covering :
    (i : Identity) (filter : Bytes) (ds : List Rule) {d : Rule}
    → Memᴰ d ds
    → filter_covers (rule_filter d i) filter ≡ true
    → is_empty (covering i filter ds) ≡ false
unfolding covering
mem-covering i filter [] m h = elim m [ ]
mem-covering i filter (d ∷ ds) (Memᴰ.head e) h =
    let h' : filter_covers (rule_filter d i) filter ≡ true = rw (← e) h in rw h'
mem-covering i filter (d ∷ ds) (Memᴰ.tail m) h = ground (arith, mem-covering i filter ds m h)

covering_witness :
    (i : Identity) (filter : Bytes) (ds : List Rule)
    → is_empty (covering i filter ds) ≡ false
    → (d : Rule) × Memᴰ d ds × (filter_covers (rule_filter d i) filter ≡ true)
unfolding covering
covering_witness i filter [] h = cc
covering_witness i filter (d ∷ ds) h = elim (Bool-cases (filter_covers (rule_filter d i) filter)) [
  | inl e ↦ (d, Memᴰ.head refl, e)
  | inr e ↦ let (d', m, c) = covering_witness i filter ds (rw e at h) in (d', Memᴰ.tail m, c)
]

grants_of_step :
    (i : Identity) (ds : List Rule) {rs : List Rule} {g : EffectiveGrant} (r : Rule) (b : Bool)
    → is_deny r.permission ≡ b
    → Memᴰ g (if b then grants_of i ds rs else grant_of i ds r ∷ grants_of i ds rs)
    → (Memᴰ g (grants_of i ds rs)
        → (r : Rule) × Memᴰ r rs × (is_deny r.permission ≡ false) × (g ≡ grant_of i ds r))
    → (q : Rule) × Memᴰ q (r ∷ rs) × (is_deny q.permission ≡ false) × (g ≡ grant_of i ds q)
grants_of_step i ds r true e m ih = let (q, m', d, g) = ih m in (q, Memᴰ.tail m', d, g)
grants_of_step i ds r false e (Memᴰ.head h) ih = (r, Memᴰ.head refl, e, h)
grants_of_step i ds r false e (Memᴰ.tail m) ih = let (q, m', d, g) = ih m in (q, Memᴰ.tail m', d, g)

grants_of_witness :
    (i : Identity) (ds rs : List Rule) {g : EffectiveGrant}
    → Memᴰ g (grants_of i ds rs)
    → (r : Rule) × Memᴰ r rs × (is_deny r.permission ≡ false) × (g ≡ grant_of i ds r)
unfolding grants_of
grants_of_witness i ds [] m = elim m [ ]
grants_of_witness i ds (r ∷ rs) m =
    grants_of_step i ds r (is_deny r.permission) refl m (λ m'. grants_of_witness i ds rs m')

mem-grants_of :
    (i : Identity) (ds rs : List Rule) {r : Rule}
    → Memᴰ r rs
    → is_deny r.permission ≡ false
    → Memᴰ (grant_of i ds r) (grants_of i ds rs)
unfolding grants_of
mem-grants_of i ds [] m d = elim m [ ]
mem-grants_of i ds (q ∷ rs) (Memᴰ.head e) d =
    let d' : is_deny q.permission ≡ false = rw (← e) d in rw d' (Memᴰ.head (ap (grant_of i ds) e))
mem-grants_of i ds (q ∷ rs) (Memᴰ.tail m) d = elim (Bool-cases (is_deny q.permission)) [
  | inl e ↦ rw e (mem-grants_of i ds rs m d)
  | inr e ↦ rw e (Memᴰ.tail (mem-grants_of i ds rs m d))
]

module _ (rules : List Rule) (i : Identity) where
  abbrev denying : List Rule
  denying = keep (λ (r : Rule). is_deny r.permission) (applicable_rules rules i)

  applicable_iff : {r : Rule} → Memᴰ r (applicable_rules rules i) ↔ (Memᴰ r rules × AppliesTo i r)
  unfolding applicable_rules
  applicable_iff {r} = (
    λ m. let (m', a) = mem-keep (applies i) rules m in (m', applies→AppliesTo i r a),
    λ (m, a). keep-mem (applies i) rules m (AppliesTo→applies i r a),
  )

  grant_witness :
      {g : EffectiveGrant}
      → Memᴰ g (effective_grants rules i)
      → (r : Rule) × Memᴰ r rules
        × AppliesTo i r
        × (is_deny r.permission ≡ false)
        × (g ≡ grant_of i denying r)
  unfolding effective_grants
  grant_witness m =
      let (r, m', d, e) =
        grants_of_witness i denying (applicable_rules rules i) ((mem-sort _).0 m) in
      let (m'', a) = applicable_iff.0 m' in (r, m'', a, d, e)

  -- The grants are in the order of their selectors, principals and filters.
  pub effective_grants-IsSorted : IsSorted (effective_grants rules i)
  unfolding effective_grants
  effective_grants-IsSorted = sort-IsSorted _

  -- Every rule that applies to the client and is no deny rule is listed: with its filter for the
  -- client, its permission, its selector and its principal.
  pub effective_grants_complete :
      (r : Rule)
      → Memᴰ r rules
      → AppliesTo i r
      → r.permission ≢ Permission.deny
      → (g : EffectiveGrant) × Memᴰ g (effective_grants rules i)
        × (g.topic_filter ≡ rule_filter r i)
        × (g.permission ≡ r.permission)
        × (g.selector ≡ effective_selector r)
        × (g.principal ≡ r.principal)
  unfolding effective_grants grant_of
  effective_grants_complete r m a n = (
    grant_of i denying r,
    (mem-sort _).1 (
        mem-grants_of i denying (applicable_rules rules i) (applicable_iff.1 (m, a))
          (ground arith)),
    refl,
    refl,
    refl,
    refl,
  )

  -- A listed grant is marked as denied exactly when a deny rule of the client covers its filter.
  pub effective_grants-denied_iff :
      (g : EffectiveGrant)
      → Memᴰ g (effective_grants rules i)
      → (g.denied ≡ true) ↔ (
          (d : Rule) × Memᴰ d rules
          × AppliesTo i d
          × (d.permission ≡ Permission.deny)
          × (filter_covers (rule_filter d i) g.topic_filter ≡ true))
  unfolding grant_of
  effective_grants-denied_iff g m =
      let (r, _, _, _, e) = grant_witness m in
      rw e (
        λ h.
            let (d, md, c) = covering_witness i (rule_filter r i) denying (ground arith) in
            let (ma, dd) = mem-keep (λ (r : Rule). is_deny r.permission) _ md in
            let (mr, a) = applicable_iff.0 ma in (d, mr, a, ground arith, c),
        λ (d, md, a, p, c).
            let listed =
              keep-mem (λ (r : Rule). is_deny r.permission) _ (applicable_iff.1 (md, a))
                (rw p refl) in
            let found = mem-covering i (rule_filter r i) denying listed c in ground arith,
      )

  -- A grant that is marked as denied gives nothing: on every topic that its filter matches, every
  -- access of the client is refused.
  pub denied_grant_refused :
      (g : EffectiveGrant) (topic : Bytes) (access : Access)
      → Memᴰ g (effective_grants rules i)
      → g.denied ≡ true
      → topic_matches_filter g.topic_filter topic ≡ true
      → (effective_permission rules i topic access).allowed ≡ false
  denied_grant_refused g topic access m h t =
      let (d, md, a, p, c) = (effective_grants-denied_iff g m).0 h in
      not_true→false _ (λ allowed.
        ((effective_permission_iff rules i topic access).0 allowed).1 d md
          (record {
            applies_to = a;
            matches = filter_covers_sound (rule_filter d i) g.topic_filter topic c t;
          })
          p)
