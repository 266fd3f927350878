-- ===== src/Dynsec/Service/Apply.antt =====
-- internal/dynsec/service.go: what `Apply` and `readWithRetry` promise.
use mcm.Base.{
  ℕ, zero, suc, Bool, true, false, List, [], ◌∷◌, Option, none, some, ◌≡◌, ◌↔◌, ◌⊎◌, inl, inr, refl,
}
use mcm.Base.Result.{Result, ok, err}
use mcm.Dynsec.Model.{Document}
use mcm.Dynsec.Command.{Command}
use mcm.Dynsec.Issue.{Issue}
use mcm.Dynsec.Updates.{Plan, commands_of}
use mcm.Dynsec.Protocol.{Json}
use mcm.Dynsec.Verify.{verify}
use mcm.Dynsec.Verify.Agreement.{DocumentAgrees, verify_iff}
use mcm.Dynsec.Service.{
  Sent, Transport, ServiceError, is_lost, compared, read, after_wait, after_read, retry,
  read_with_retry, dispatch, judged, settle, apply,
}
use mcm.Dynsec.Service.Answers.{Unrefused, refusal_iff, parts}

module _ {World : Type 0} (j : Json) (t : Transport World) where
  -- The commands went out, none was refused, and this is the state afterwards.
  abbrev pub Delivered : List Command → World → World → Type 0
  Delivered [] w w1 = w ≡ w1
  Delivered (c ∷ cs) w w1 = (s : Sent) × (t.send (c ∷ cs) w ≡ (s, w1)) × Unrefused s

  -- One of the next n reads gives the document, and in each read before it the connection was lost.
  abbrev pub Reads : ℕ → World → Document → World → Type 0
  Reads zero w d w' = ⊥
  Reads (suc n) w d w' =
      (read j t w ≡ (ok d, w'))
      ⊎ ((a : World) × (b : World) × (read j t w ≡ (err ServiceError.lost, a))
          × (t.wait a ≡ (true, b))
          × Reads n b d w')

  retry_iff :
      (n : ℕ) (w : World) (d : Document) (w' : World)
      → (retry j t n w ≡ (ok d, w')) ↔ Reads n w d w'
  unfolding retry
  retry_iff zero w d w' = (λ h. let g = (parts h).0 in cc, λ h. absurd h)
  retry_iff (suc n) w d w' = round (read j t w) (λ b. retry_iff n b d w')
    where
      waited :
          (p : Bool × World)
          → ((b : World) → (retry j t n b ≡ (ok d, w')) ↔ Reads n b d w')
          → (after_wait j t (retry j t n) p ≡ (ok d, w'))
            ↔ ((b : World) × (p ≡ (true, b)) × Reads n b d w')
      waited (true, b) ih =
          (λ h. (b, refl, (ih b).0 h), λ (b', e, r). (ih b).1 (rw (← (parts e).1) at r))
      waited (false, b) ih =
          (λ h. let g = (parts h).0 in cc, λ (b', e, r). let g = (parts e).0 in cc)

      Next : Result ServiceError Document × World → Type 0
      Next p =
          (p ≡ (ok d, w'))
          ⊎ ((a : World) × (b : World) × (p ≡ (err ServiceError.lost, a))
              × (t.wait a ≡ (true, b))
              × Reads n b d w')

      stuck :
          (e : ServiceError) (a : World)
          → is_lost e ≡ false
          → Next (err e, a)
          → ◌≡◌ {A = Result ServiceError Document × World} (err e, a) (ok d, w')
      stuck e a l (inl h) = h
      stuck e a l (inr (a', b, h, f, r)) =
          let g : err e ≡ err ServiceError.lost = (parts h).0 in
          let same : e ≡ ServiceError.lost = (cc) in let k = rw same at l in cc

      round :
          (p : Result ServiceError Document × World)
          → ((b : World) → (retry j t n b ≡ (ok d, w')) ↔ Reads n b d w')
          → (after_read j t (retry j t n) p ≡ (ok d, w')) ↔ Next p
      round (ok d', a) ih =
          (λ h. inl h, λ h. elim h [ inl e ↦ e | inr (a', b, e, f, r) ↦ let g = (parts e).0 in cc ])
      round (err ServiceError.lost, a) ih =
          let law = waited (t.wait a) ih in
          (
            λ h. let (b, e, r) = law.0 h in inr (a, b, refl, e, r),
            λ h. elim h [
              | inl e ↦ let g = (parts e).0 in cc
              | inr (a', b, e, f, r) ↦ law.1 (b, rw (← (parts e).1) at f, r)
            ],
          )
      round (err e, a) ih = (λ h. inl h, stuck e a refl)

  dispatch_iff :
      (cs : List Command) (w w1 : World) → (dispatch j t cs w ≡ (none, w1)) ↔ Delivered cs w w1
  unfolding dispatch
  dispatch_iff [] w w1 = (λ h. (parts h).1, λ h. rw h refl)
  dispatch_iff (c ∷ cs) w w1 =
      let law = refusal_iff (t.send (c ∷ cs) w).0 in
      (
        λ h.
            let both = parts h in
            ((t.send (c ∷ cs) w).0, (λ i. ((t.send (c ∷ cs) w).0, both.1 i)), law.0 both.0),
        λ (s, e, fine). let both = parts e in λ i. ((law.1 (rw both.0 fine) i), both.1 i),
      )

  compared_iff :
      (desired found actual : Document)
      → (compared desired found (verify desired found) ≡ ok actual)
        ↔ ((found ≡ actual) × DocumentAgrees desired found)
  compared_iff desired found actual =
      let law = verify_iff desired found in
      let view = cases (verify desired found) in
      (λ h. let both = view.0 h in (both.1, law.0 both.0), λ h. view.1 (law.1 h.1, h.0))
    where
      cases :
          (issues : List Issue)
          → (compared desired found issues ≡ ok actual) ↔ ((issues ≡ []) × (found ≡ actual))
      cases [] = (λ h. (refl, cc), λ h. cc (h.1))
      cases (i ∷ is) = (λ h. cc, λ h. let g = h.0 in cc)

  -- The plan is delivered, a read succeeds in time, and what it gives agrees with what was wanted.
  abbrev pub Applied : Plan → Document → World → Document → World → Type 0
  Applied plan desired w actual w' =
      (w1 : World) × Delivered (commands_of plan) w w1
      × Reads 4 w1 actual w'
      × DocumentAgrees desired actual

  judged_iff :
      (desired actual : Document) (w' : World) (p : Result ServiceError Document × World)
      → (judged j t desired p ≡ (ok actual, w'))
        ↔ ((p ≡ (ok actual, w')) × DocumentAgrees desired actual)
  judged_iff desired actual w' (err e, w) =
      (λ h. let g = (parts h).0 in cc, λ h. let g = (parts h.0).0 in cc)
  judged_iff desired actual w' (ok found, w) =
      let law = compared_iff desired found actual in
      (
        λ h.
            let both = parts h in
            let same = law.0 both.0 in ((λ i. (ok (same.0 i), both.1 i)), rw same.0 at same.1),
        λ h.
            let both = parts h.0 in
            let same : found ≡ actual = cc (both.0) in λ i. (law.1 (same, rw same h.1) i, both.1 i),
      )

  -- Applying a plan gives a document exactly when three things hold. The commands, where there are
  -- any, go out in one request, which ends with answers none of which is an error, with a lost
  -- connection, or with answers that do not match. One of at most four reads gives the document,
  -- while in each read before it the connection was lost and the wait behind it ran to its end. The
  -- document agrees with the desired one.
  pub apply_iff :
      (plan : Plan) (desired actual : Document) (w w' : World)
      → (apply j t plan desired w ≡ (ok actual, w')) ↔ Applied plan desired w actual w'
  unfolding apply settle read_with_retry
  apply_iff plan desired actual w w' =
      settled (dispatch j t (commands_of plan) w) (λ w1. dispatch_iff (commands_of plan) w w1)
    where
      settled :
          (p : Option ServiceError × World)
          → ((w1 : World) → (p ≡ (none, w1)) ↔ Delivered (commands_of plan) w w1)
          → (settle j t desired p ≡ (ok actual, w')) ↔ Applied plan desired w actual w'
      settled (some e, a) law = (
        λ h. let g = (parts h).0 in cc,
        λ (w1, sent, r, fits). let g = (parts ((law w1).1 sent)).0 in cc,
      )
      settled (none, a) law =
          let view = judged_iff desired actual w' (retry j t 4 a) in
          (
            λ h.
                let both = view.0 h in
                (a, (law a).0 refl, (retry_iff 4 a actual w').0 both.0, both.1),
            λ (w1, sent, r, fits).
                let same : a ≡ w1 = (parts ((law w1).1 sent)).1 in
                view.1 ((retry_iff 4 a actual w').1 (rw same r), fits),
          )
