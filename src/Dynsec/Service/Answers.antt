-- ===== src/Dynsec/Service/Answers.antt =====
-- internal/dynsec/service.go: what `Apply` makes of the answers.
use mcm.Base.{
  true, false, List, [], ◌∷◌, none, some, ◌≡◌, ◌++◌, ◌↔◌, inl, inr, refl, sym, ap, ◌∙◌, Bool-cases,
  Option-cases,
}
use mcm.Base.Members.{All}
use mcm.Text.{is_blank}
use mcm.Dynsec.Protocol.{CommandResponse}
use mcm.Dynsec.Service.{Sent, ServiceError, first_failed, refusal}

-- No command is answered with an error. A lost answer says nothing.
abbrev pub Unrefused : Sent → Type 0
Unrefused (Sent.answered rs) = All (λ (r : CommandResponse). is_blank r.error ≡ true) rs
Unrefused Sent.connection_lost = Unit
Unrefused Sent.response_mismatch = Unit
Unrefused (Sent.broken e) = ⊥

first_failed-none_iff :
    (rs : List CommandResponse)
    → (first_failed rs ≡ none) ↔ All (λ (r : CommandResponse). is_blank r.error ≡ true) rs
unfolding first_failed
first_failed-none_iff [] = (λ h. tt, λ h. refl)
first_failed-none_iff (r ∷ rs) =
    let ih = first_failed-none_iff rs in
    elim (Bool-cases (is_blank r.error)) [
      | inl e ↦ rw e ((λ h. (refl, ih.0 h), λ h. ih.1 h.1))
      | inr e ↦ rw e ((λ h. cc, λ h. let g = h.0 in cc))
    ]

pub refusal_iff : (s : Sent) → (refusal s ≡ none) ↔ Unrefused s
unfolding refusal
refusal_iff (Sent.answered rs) =
    let law = first_failed-none_iff rs in
    elim (Option-cases (first_failed rs)) [
      | inl e ↦ (λ h. law.0 e, λ h. rw (e, refusal) refl)
      | inr (r, e) ↦ (λ h. let g = rw (e, refusal) at h in cc, λ h. let g = sym e ∙ law.1 h in cc)
    ]
refusal_iff Sent.connection_lost = (λ h. tt, λ h. refl)
refusal_iff Sent.response_mismatch = (λ h. tt, λ h. refl)
refusal_iff (Sent.broken e) = (λ h. cc, λ h. absurd h)

first_failed_lem :
    (before : List CommandResponse) (r : CommandResponse) (after : List CommandResponse)
    → All (λ (x : CommandResponse). is_blank x.error ≡ true) before
    → is_blank r.error ≡ false
    → first_failed (before ++ (r ∷ after)) ≡ some r
unfolding first_failed
first_failed_lem [] r after h f = rw f refl
first_failed_lem (x ∷ xs) r after h f = rw h.0 (first_failed_lem xs r after h.1 f)

pub refusal-failed :
    (before : List CommandResponse) (r : CommandResponse) (after : List CommandResponse)
    → All (λ (x : CommandResponse). is_blank x.error ≡ true) before
    → is_blank r.error ≡ false
    → refusal (Sent.answered (before ++ (r ∷ after))) ≡ some (ServiceError.refused r.command)
unfolding refusal
refusal-failed before r after h f = rw (first_failed_lem before r after h f, refusal) refl

pub parts : {A B : Type 0} {p q : A × B} → p ≡ q → (p.0 ≡ q.0) × (p.1 ≡ q.1)
parts e = (ap (λ p. p.0) e, ap (λ p. p.1) e)
