-- ===== src/Acl/Filter/Covering.antt =====
-- A filter that covers another matches every topic that the other matches.
use mcm.Base.{
  true, false, List, [], ◌∷◌, ◌≡◌, ◌≢◌, refl, arith, Bool-cases, inl, inr, length, ◌∙◌, sym, ◌⊎◌,
}
use mcm.Text.{Bytes, text_eq, text_eq_iff, codes}
use mcm.Acl.Levels.{slash, hash, plus, levels}
use mcm.Text.Split.{split, split_cons}
use mcm.Acl.Filter.{
  topic_matches_filter, level_covers, levels_cover, ends_in_hash, without_last, cover_levels,
  filter_covers,
}
use mcm.Acl.Filter.Matching.{Matches, rest, single, same, topic_matches_filter_iff}

-- A covered level is no multi-level wildcard.
level_covers-ne-hash : (d g : Bytes) → level_covers d g ≡ true → g ≢ hash
unfolding level_covers
level_covers-ne-hash d g h e = ground (arith, text_eq_iff g hash)

-- What covers a level: a single-level wildcard, or the same level.
level_covers_cases : (d g : Bytes) → level_covers d g ≡ true → (d ≡ plus) ⊎ ((d ≢ hash) × (d ≡ g))
unfolding level_covers
level_covers_cases d g h = elim (Bool-cases (text_eq d plus)) [
  | inl e ↦ inl ((text_eq_iff d plus).0 e)
  | inr e ↦
      let same : d ≡ g = ground (arith, text_eq_iff d g) in
      inr (λ q. level_covers-ne-hash d g h (sym same ∙ q), same)
]

-- A matching topic has a first level where the first level of the filter is covered.
cover_step :
    {d g t : Bytes} {ds ts : List Bytes}
    → level_covers d g ≡ true
    → (g ≡ plus) ⊎ (g ≡ t)
    → Matches ds ts
    → Matches (d ∷ ds) (t ∷ ts)
cover_step {d} {g} {t} c s m = elim (level_covers_cases d g c) [
  | inl p ↦ single p m
  | inr n ↦ elim s [ inl p ↦ single (n.1 ∙ p) m | inr q ↦ same n.0 (n.1 ∙ q) m ]
]

-- Level by level, where the lists are as long as one another.
levels_cover_sound :
    (ds gs ts : List Bytes)
    → length ds ≡ length gs
    → levels_cover ds gs ≡ true
    → Matches gs ts
    → Matches ds ts
unfolding levels_cover
levels_cover_sound [] [] ts l c m = m
levels_cover_sound [] (g ∷ gs) ts l c m = absurd (omega arith)
levels_cover_sound (d ∷ ds) [] ts l c m = cc
levels_cover_sound (d ∷ ds) (g ∷ []) ts l c (rest e) =
    absurd (level_covers-ne-hash d g (ground arith) e)
levels_cover_sound (d ∷ ds) (g ∷ gs) (t ∷ ts) l c (single e m) =
    cover_step {g = g} (ground arith) (inl e)
      (levels_cover_sound ds gs ts (omega arith) (ground arith) m)
levels_cover_sound (d ∷ ds) (g ∷ gs) (t ∷ ts) l c (same n e m) =
    cover_step {g = g} (ground arith) (inr e)
      (levels_cover_sound ds gs ts (omega arith) (ground arith) m)

-- A prefix that covers the first levels, and a multi-level wildcard for the others.
prefix_cover_sound :
    (ds gs ts : List Bytes)
    → ends_in_hash ds ≡ true
    → levels_cover (without_last ds) gs ≡ true
    → Matches gs ts
    → Matches ds ts
unfolding levels_cover ends_in_hash without_last
prefix_cover_sound [] gs ts h c m = cc
prefix_cover_sound (d ∷ []) gs ts h c m = rest ((text_eq_iff d hash).0 h)
prefix_cover_sound (d ∷ k ∷ ds) [] ts h c m = cc
prefix_cover_sound (d ∷ k ∷ ds) (g ∷ []) ts h c (rest e) =
    absurd (level_covers-ne-hash d g (ground arith) e)
prefix_cover_sound (d ∷ k ∷ ds) (g ∷ gs) (t ∷ ts) h c (single e m) =
    cover_step {g = g} (ground arith) (inl e) (prefix_cover_sound (k ∷ ds) gs ts h (ground arith) m)
prefix_cover_sound (d ∷ k ∷ ds) (g ∷ gs) (t ∷ ts) h c (same n e m) =
    cover_step {g = g} (ground arith) (inr e) (prefix_cover_sound (k ∷ ds) gs ts h (ground arith) m)

cover_levels_sound :
    (ds gs ts : List Bytes) → cover_levels ds gs ≡ true → Matches gs ts → Matches ds ts
unfolding cover_levels
cover_levels_sound ds gs ts c m = elim (Bool-cases (ends_in_hash ds)) [
  | inl e ↦ prefix_cover_sound ds gs ts e (ground arith) m
  | inr e ↦ levels_cover_sound ds gs ts (ground arith) (ground arith) m
]

-- A deny filter that covers a grant filter matches every topic that the grant filter matches.
pub filter_covers_sound :
    (deny grant topic : Bytes)
    → filter_covers deny grant ≡ true
    → topic_matches_filter grant topic ≡ true
    → topic_matches_filter deny topic ≡ true
unfolding filter_covers
filter_covers_sound deny grant topic c h =
    let (gn, tn, m) = (topic_matches_filter_iff grant topic).0 h in
    (topic_matches_filter_iff deny topic).1 (
      λ e. ground arith,
      tn,
      cover_levels_sound (levels deny) (levels grant) (levels topic) (ground arith) m,
    )

-- The cover test is not complete: "+/#" matches every topic that some filter matches, since a topic
-- has at least one level, and the test answers that it does not cover the filter "#".
pub filter_covers_incomplete :
    (grant topic : Bytes)
    → topic_matches_filter grant topic ≡ true
    → (topic_matches_filter (codes "+/#") topic ≡ true)
      × (filter_covers (codes "+/#") (codes "#") ≡ false)
unfolding filter_covers cover_levels ends_in_hash without_last levels_cover level_covers split
    text_eq
filter_covers_incomplete grant topic h =
    let (w, ws, e) = split_cons slash topic in
    let all_levels : Matches (plus ∷ hash ∷ []) (levels topic) = rw e (single refl (rest refl)) in
    (
      (topic_matches_filter_iff (codes "+/#") topic).1
          (λ q. cc, ((topic_matches_filter_iff grant topic).0 h).1, all_levels),
      refl,
    )
