-- ===== src/Acl/Effective/Verdict.antt =====
-- The verdict of `EffectivePermission`: denies win, and nothing is granted without a rule.
use mcm.Base.{
  Bool, true, false, ◌&&◌, ◌||◌, List, [], ◌∷◌, ◌++◌, ◌≡◌, ◌≢◌, ◌↔◌, refl, arith, keep, any,
  append-nil, append_assoc, not_true→false, ap,
}
use mcm.Base.Members.{Memᴰ, mem-keep, keep-mem, any_witness, any_of_mem}
use mcm.Text.{Bytes}
use mcm.Acl.Rule.{Rule, Permission}
use mcm.Acl.Filter.{topic_matches_filter}
use mcm.Acl.Effective.{
  Access, Identity, Tally, permission_grants, rule_filter, applies, applicable_rules, is_deny,
  tally, scan, decide_tally, effective_permission,
}
use mcm.Acl.Effective.Spec.{SpeaksOf, applies→AppliesTo, AppliesTo→applies}

module _ (i : Identity) (topic : Bytes) (access : Access) where
  abbrev on_topic : Rule → Bool
  on_topic r = topic_matches_filter (rule_filter r i) topic

  abbrev denies : Rule → Bool
  denies r = on_topic r && is_deny r.permission

  abbrev grants : Rule → Bool
  grants r = on_topic r && permission_grants r.permission access

  deny_grants_nothing : (p : Permission) → is_deny p ≡ true → permission_grants p access ≡ false
  unfolding permission_grants
  deny_grants_nothing Permission.deny h = refl
  deny_grants_nothing _ h = cc

  -- What the loop computes, for every state that it starts from.
  scan_lem :
      (s : Tally) (rs : List Rule)
      → scan i topic access s rs ≡ record {
        matched = s.matched ++ keep on_topic rs;
        denied = s.denied || any denies rs;
        granted = s.granted || any grants rs;
      }
  unfolding scan tally
  scan_lem s [] = ground (arith, append-nil s.matched)
  scan_lem s (r ∷ rs) = ground (
    arith,
    scan_lem (tally i topic access s r) rs,
    append_assoc s.matched (r ∷ []) (keep on_topic rs),
    deny_grants_nothing r.permission,
  )

-- Some rule of the client grants the access on the topic.
abbrev pub IsGranted : List Rule → Identity → Bytes → Access → Type 0
IsGranted rules i topic access =
    (r : Rule) × Memᴰ r rules × SpeaksOf i topic r × (permission_grants r.permission access ≡ true)

-- No rule of the client denies the topic.
abbrev pub IsNotDenied : List Rule → Identity → Bytes → Type 0
IsNotDenied rules i topic =
    (r : Rule) → Memᴰ r rules → SpeaksOf i topic r → r.permission ≢ Permission.deny

is_deny_iff : (p : Permission) → (is_deny p ≡ true) ↔ (p ≡ Permission.deny)
is_deny_iff Permission.deny = (λ h. refl, λ h. refl)
is_deny_iff _ = (λ h. cc, λ h. cc)

decide_tally-matching :
    (access : Access) (s : Tally) → (decide_tally access s).matching_rules ≡ s.matched
decide_tally-matching access s = ground arith

module _ (rules : List Rule) (i : Identity) (topic : Bytes) (access : Access) where
  -- What the function answers, with the loop gone.
  effective_permission_lem :
      effective_permission rules i topic access
      ≡ decide_tally access (record {
        matched = keep (on_topic i topic access) (keep (applies i) rules);
        denied = any (denies i topic access) (keep (applies i) rules);
        granted = any (grants i topic access) (keep (applies i) rules);
      })
  unfolding effective_permission applicable_rules
  effective_permission_lem = ap (decide_tally access) (
      scan_lem i topic access (record { matched = []; denied = false; granted = false })
        (keep (applies i) rules))

  SpeaksOf-mem :
      (r : Rule)
      → Memᴰ r (keep (applies i) rules)
      → on_topic i topic access r ≡ true
      → Memᴰ r rules × SpeaksOf i topic r
  SpeaksOf-mem r m t =
      let (m', a) = mem-keep (applies i) rules m in
      (m', record { applies_to = applies→AppliesTo i r a; matches = t })

  mem_of_speaks : (r : Rule) → Memᴰ r rules → SpeaksOf i topic r → Memᴰ r (keep (applies i) rules)
  mem_of_speaks r m s = keep-mem (applies i) rules m (AppliesTo→applies i r s.applies_to)

  IsGranted-iff :
      (any (grants i topic access) (keep (applies i) rules) ≡ true) ↔ IsGranted rules i topic access
  IsGranted-iff = (
    λ h.
        let (r, m, g) = any_witness (grants i topic access) (keep (applies i) rules) h in
        let (m', s) = SpeaksOf-mem r m (ground arith) in (r, m', s, ground arith),
    λ (r, m, s, g).
        let both : grants i topic access r ≡ true = rw (s.matches, g) in
        any_of_mem (grants i topic access) (keep (applies i) rules) (mem_of_speaks r m s) both,
  )

  IsNotDenied-iff :
      (any (denies i topic access) (keep (applies i) rules) ≡ false) ↔ IsNotDenied rules i topic
  IsNotDenied-iff = (
    λ h r m s e.
        let both : denies i topic access r ≡ true = rw (s.matches, e) in
        let found =
          any_of_mem (denies i topic access) (keep (applies i) rules) (mem_of_speaks r m s) both in
        cc,
    λ none_denies. not_true→false (any (denies i topic access) (keep (applies i) rules)) (λ h.
        let (r, m, d) = any_witness (denies i topic access) (keep (applies i) rules) h in
        let (m', s) = SpeaksOf-mem r m (ground arith) in
        none_denies r m' s ((is_deny_iff r.permission).0 (ground arith))),
  )

  -- A client is allowed an access to a topic exactly when some rule that applies to the client and
  -- matches the topic grants the access, and none that applies and matches is a deny rule.
  pub effective_permission_iff :
      ((effective_permission rules i topic access).allowed ≡ true)
      ↔ (IsGranted rules i topic access × IsNotDenied rules i topic)
  effective_permission_iff = rw effective_permission_lem (
    λ h. (IsGranted-iff.0 (ground arith), IsNotDenied-iff.0 (ground arith)),
    λ (g, n). let a = IsGranted-iff.1 g in let b = IsNotDenied-iff.1 n in ground arith,
  )

  -- The reported rules are those of the list that apply to the client and match the topic, on
  -- every verdict.
  pub effective_permission-matching :
      (r : Rule)
      → Memᴰ r (effective_permission rules i topic access).matching_rules
        ↔ (Memᴰ r rules × SpeaksOf i topic r)
  effective_permission-matching r =
      rw (effective_permission_lem, decide_tally-matching)
        (
          λ m.
              let (m', t) = mem-keep (on_topic i topic access) (keep (applies i) rules) m in
              SpeaksOf-mem r m' t,
          λ (m, s).
              keep-mem (on_topic i topic access) (keep (applies i) rules) (mem_of_speaks r m s)
                s.matches,
        )
