-- ===== src/Dynsec/Guard/Topics.antt =====
-- internal/dynsec/plan.go: the topics that `topicReachesControlChannel` takes for the control channel.
use mcm.Base.{
  Bool, true, false, [], ◌∷◌, ◌++◌, ◌≡◌, ◌↔◌, ◌⊎◌, inl, inr, refl, ap, arith, ◌==◌, ==_iff, ◌||◌,
  if◌then◌else◌, Bool-cases, is_empty,
}
use mcm.Text.{Bytes, codes, text_eq, text_eq_iff, has_prefix, trim_space}
use mcm.Dynsec.Guard.{topic_reaches_control_channel, control_topic, control_topic_prefix}

-- A trimmed text that is the root of the channel, the filter for all below it, or a topic or filter that
-- begins with the levels of the plugin.
abbrev pub NamesChannel : Bytes → Type 0
NamesChannel t =
    (t ≡ codes "$CONTROL")
    ⊎ ((t ≡ codes "$CONTROL/#")
        ⊎ ((rest : Bytes) × (t ≡ codes "$CONTROL/dynamic-security/" ++ rest)))

has_prefix→append : (p s : Bytes) → has_prefix p s ≡ true → (rest : Bytes) × (s ≡ p ++ rest)
unfolding has_prefix
has_prefix→append [] s h = (s, refl)
has_prefix→append (x ∷ p) [] h = cc
has_prefix→append (x ∷ p) (y ∷ s) h = elim (Bool-cases (y == x)) [
  | inl e ↦
      let (rest, same) = has_prefix→append p s (rw e at h) in
      (rest, rw ((==_iff y x).0 e) (ap (λ (t : Bytes). x ∷ t) same))
  | inr e ↦ let g = rw e at h in cc
]

has_prefix-append : (p rest : Bytes) → has_prefix p (p ++ rest) ≡ true
unfolding has_prefix
has_prefix-append [] rest = refl
has_prefix-append (x ∷ p) rest = ground (arith, has_prefix-append p rest)

branches :
    (a b p q : Bool)
    → ((if a || b then true else p || q) ≡ true)
      ↔ ((a ≡ true) ⊎ ((b ≡ true) ⊎ ((p ≡ true) ⊎ (q ≡ true))))
branches true b p q = (λ h. inl refl, λ h. refl)
branches false true p q = (λ h. inr (inl refl), λ h. refl)
branches false false true q = (λ h. inr (inr (inl refl)), λ h. refl)
branches false false false q = (
  λ h. inr (inr (inr h)),
  λ h. elim h [ inl e ↦ cc | inr (inl e) ↦ cc | inr (inr (inl e)) ↦ cc | inr (inr (inr e)) ↦ e ],
)

pub topic_reaches_control_channel_iff :
    (topic : Bytes) → (topic_reaches_control_channel topic ≡ true) ↔ NamesChannel (trim_space topic)
unfolding topic_reaches_control_channel
topic_reaches_control_channel_iff topic = go (trim_space topic)
  where
    go :
        (t : Bytes)
        → ((if is_empty t
              then false
              else if text_eq t (codes "$CONTROL") || text_eq t (codes "$CONTROL/#")
              then true
              else has_prefix control_topic_prefix t || text_eq t control_topic)
            ≡ true)
          ↔ NamesChannel t
    go [] = (λ h. cc, λ h. elim h [ inl e ↦ cc | inr (inl e) ↦ cc | inr (inr (rest, e)) ↦ cc ])
    go (c ∷ s) =
        let t = c ∷ s in
        let law =
          branches (text_eq t (codes "$CONTROL")) (text_eq t (codes "$CONTROL/#"))
            (has_prefix control_topic_prefix t) (text_eq t control_topic) in
        (
          λ h. elim (law.0 h) [
            | inl e ↦ inl ((text_eq_iff t _).0 e)
            | inr (inl e) ↦ inr (inl ((text_eq_iff t _).0 e))
            | inr (inr (inl e)) ↦ inr (inr (has_prefix→append control_topic_prefix t e))
            | inr (inr (inr e)) ↦ inr (inr (codes "v1", (text_eq_iff t control_topic).0 e))
          ],
          λ h. law.1 (elim h [
            | inl e ↦ inl ((text_eq_iff t _).1 e)
            | inr (inl e) ↦ inr (inl ((text_eq_iff t _).1 e))
            | inr (inr (rest, e)) ↦
                inr (inr (inl (rw e (has_prefix-append control_topic_prefix rest))))
          ]),
        )
