-- ===== src/Acl/Filter/Matching.antt =====
-- What it means for the levels of a topic to match those of a filter, and that the loop decides it. MQTT
-- has a further rule, which the code leaves out: a wildcard in front does not match a topic that begins
-- with a dollar sign.
use mcm.Base.{
  true, List, [], ◌∷◌, ◌≡◌, ◌≢◌, ◌↔◌, refl, arith, is_empty, Bool-cases, inl, inr, ℕ, ap,
}
use mcm.Text.{Bytes, text_eq, text_eq_iff}
use mcm.Acl.Levels.{hash, plus, levels}
use mcm.Acl.Filter.{match_levels, topic_matches_filter}

pub data Matches : List Bytes → List Bytes → Type 0 where
  end : Matches [] []
  rest : {f : Bytes} {ts : List Bytes} → f ≡ hash → Matches (f ∷ []) ts
  single : {f t : Bytes} {fs ts : List Bytes} → f ≡ plus → Matches fs ts → Matches (f ∷ fs) (t ∷ ts)
  same :
      {f t : Bytes} {fs ts : List Bytes}
      → f ≢ hash
      → f ≡ t
      → Matches fs ts
      → Matches (f ∷ fs) (t ∷ ts)

plus-ne-hash : plus ≢ hash
plus-ne-hash e = omega (arith, ap first e)
  where
    first : Bytes → ℕ
    first [] = 0
    first (c ∷ s) = c

rest_at_end : {f : Bytes} (fs ts : List Bytes) → f ≡ hash → is_empty fs ≡ true → Matches (f ∷ fs) ts
rest_at_end [] ts e h = rest e
rest_at_end (g ∷ fs) ts e h = cc

match_levels→Matches : (fs ts : List Bytes) → match_levels fs ts ≡ true → Matches fs ts
unfolding match_levels
match_levels→Matches [] [] h = end
match_levels→Matches [] (t ∷ ts) h = cc
match_levels→Matches (f ∷ fs) [] h =
    rest_at_end fs [] (ground (arith, text_eq_iff f hash)) (ground arith)
match_levels→Matches (f ∷ fs) (t ∷ ts) h = elim (Bool-cases (text_eq f hash)) [
  | inl e ↦ rest_at_end fs (t ∷ ts) ((text_eq_iff f hash).0 e) (ground arith)
  | inr e ↦
      let onward : match_levels fs ts ≡ true = ground arith in
      let tail = match_levels→Matches fs ts onward in
      elim (Bool-cases (text_eq f plus)) [
        | inl p ↦ single ((text_eq_iff f plus).0 p) tail
        | inr n ↦
            same (λ q. ground (arith, text_eq_iff f hash)) (ground (arith, text_eq_iff f t)) tail
      ]
]

Matches→match_levels : {fs ts : List Bytes} → Matches fs ts → match_levels fs ts ≡ true
unfolding match_levels
Matches→match_levels end = refl
Matches→match_levels (rest {f} {ts = []} e) = ground (arith, text_eq_iff f hash)
Matches→match_levels (rest {f} {ts = t ∷ ts} e) = ground (arith, text_eq_iff f hash)
Matches→match_levels (single {f} {t} e m) =
    ground (arith, text_eq_iff f hash, text_eq_iff f plus, plus-ne-hash, Matches→match_levels m)
Matches→match_levels (same {f} {t} n e m) =
    ground (arith, text_eq_iff f hash, text_eq_iff f t, Matches→match_levels m)

-- A topic matches a filter exactly when both are not empty and the levels of the topic match the levels
-- of the filter one by one: a plus matches any level, a hash at the end any number of levels and none,
-- and any other level itself. A topic that begins with a dollar sign is matched like any other.
pub topic_matches_filter_iff :
    (filter topic : Bytes)
    → (topic_matches_filter filter topic ≡ true)
      ↔ ((filter ≢ []) × (topic ≢ []) × Matches (levels filter) (levels topic))
unfolding topic_matches_filter
topic_matches_filter_iff [] topic = (λ h. cc, λ h. absurd (h.0 refl))
topic_matches_filter_iff (c ∷ f) [] = (λ h. cc, λ h. absurd (h.1 refl))
topic_matches_filter_iff (c ∷ f) (d ∷ t) =
    (λ h. (λ e. cc, λ e. cc, match_levels→Matches _ _ h), λ h. Matches→match_levels h.2)
