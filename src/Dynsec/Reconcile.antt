-- ===== src/Dynsec/Reconcile.antt =====
-- internal/dynsec: loops that make the objects of one list and delete those of another.
use mcm.Base.{
  Bool, true, false, not, ◌&&◌, List, [], ◌∷◌, Option, none, some, ◌≡◌, refl, ap, ◌∙◌,
  if◌then◌else◌, Bool-cases, inl, inr, any, flat_map,
}
use mcm.Base.Members.{All}
use mcm.Text.{Bytes, text_eq, text_eq_iff}
use mcm.Dynsec.Model.{find_by, is_found}
use mcm.Dynsec.Command.{Command}
use mcm.Dynsec.Updates.{Action, ObjectKind, Plan}
use mcm.Dynsec.Plan.{delete_unless}
use mcm.Dynsec.Plan.Aimed.{delete_unless-IsChange}
use mcm.Dynsec.Plan.Phases.{changes-IsElsewhere}
use mcm.Dynsec.Effect.{aim, aim_at, Effect}
use mcm.Dynsec.Run.{run, IsElsewhere, IsDistinct, on_found, run-flat_map, run-each}

module _ {ℓ} {A : Type ℓ} (name : A → Bytes) where
  pub find_by_name :
      (u : Bytes) (xs : List A) {x : A} → find_by name u xs ≡ some x → text_eq (name x) u ≡ true
  find_by_name u [] h = cc
  find_by_name u (y ∷ ys) {x} h = elim (Bool-cases (text_eq (name y) u)) [
    | inl t ↦ let same : some y ≡ some x = rw t at h in let e : y ≡ x = (cc) in rw (← e) t
    | inr t ↦ find_by_name u ys (rw t at h)
  ]

  pub any-is_found :
      (u : Bytes) (xs : List A) → any (λ x. text_eq (name x) u) xs ≡ is_found (find_by name u xs)
  any-is_found u [] = refl
  any-is_found u (y ∷ ys) = elim (Bool-cases (text_eq (name y) u)) [
    | inl t ↦ rw t refl
    | inr t ↦ rw t (any-is_found u ys)
  ]

  module _ (e : Effect) (u : Bytes) (current desired : List A) where
    -- What a loop makes of a fact on the object `u`, by what the two lists have of that name.
    pub run-make :
        (make : Option A → A → Plan) (b : Bool)
        → ((o : Option A) (x : A) → text_eq (name x) u ≡ false → All (IsElsewhere e) (make o x))
        → IsDistinct name desired
        → run e (flat_map (λ x. make (find_by name (name x) current) x) desired) b
          ≡ on_found (find_by name u desired) b (λ x. run e (make (find_by name u current) x) b)
    run-make make b other d =
        run-flat_map name (λ x. make (find_by name (name x) current) x) e u desired b
          (λ x. other (find_by name (name x) current) x) d
        ∙ found (find_by name u desired) refl
      where
        found :
            (o : Option A)
            → find_by name u desired ≡ o
            → on_found o b (λ x. run e (make (find_by name (name x) current) x) b)
              ≡ on_found o b (λ x. run e (make (find_by name u current) x) b)
        found none h = refl
        found (some x) h = rw ((text_eq_iff (name x) u).0 (find_by_name u desired h)) refl

    -- A loop that deletes the objects which the other list has not.
    pub run-delete :
        (k : ObjectKind) (command : Bytes → Command) (b : Bool)
        → ((n : Bytes) → aim (command n) ≡ aim_at Action.delete k n)
        → ((n : Bytes) → text_eq n u ≡ false → e.concerns (aim_at Action.delete k n) ≡ false)
        → ((n : Bytes) (b : Bool) → text_eq n u ≡ true → e.apply (command n) b ≡ false)
        → run e
            (flat_map
              (λ x.
                delete_unless
                  (is_found (find_by name (name x) desired))
                  k
                  (name x)
                  (command (name x)))
              current)
            b
          ≡ (if is_found (find_by name u current) && not (is_found (find_by name u desired))
              then false
              else b)
    run-delete k command b aimed other kill =
        let kept = is_found (find_by name u desired) in
        run-each name
          (λ x.
            delete_unless (is_found (find_by name (name x) desired)) k (name x) (command (name x)))
          e u current b (if kept then b else false)
          (λ x t. changes-IsElsewhere e Action.delete k (name x) _ (other (name x) t) (
            delete_unless-IsChange (is_found (find_by name (name x) desired)) k (name x)
              (command (name x)) (aimed (name x))))
          (λ x t. each x t b) (λ x t. each x t (if kept then b else false) ∙ twice kept b)
        ∙ ap (λ (t : Bool). if t then (if kept then b else false) else b) (any-is_found u current)
        ∙ both (is_found (find_by name u current)) kept b
      where
        alone :
            (found : Bool) (n : Bytes) (b : Bool)
            → text_eq n u ≡ true
            → run e (delete_unless found k n (command n)) b ≡ (if found then b else false)
        alone true n b t = unfold run in refl
        alone false n b t = unfold run in kill n b t

        each :
            (x : A)
            → text_eq (name x) u ≡ true
            → (b : Bool)
            → run e
                (delete_unless
                  (is_found (find_by name (name x) desired))
                  k
                  (name x)
                  (command (name x)))
                b
              ≡ (if is_found (find_by name u desired) then b else false)
        each x t b =
            alone (is_found (find_by name (name x) desired)) (name x) b t
            ∙ ap (λ (n : Bytes). if is_found (find_by name n desired) then b else false)
                ((text_eq_iff (name x) u).0 t)

        twice :
            (t b : Bool)
            → (if t then (if t then b else false) else false) ≡ (if t then b else false)
        twice true b = refl
        twice false b = refl

        both :
            (t kept b : Bool)
            → (if t then (if kept then b else false) else b) ≡ (if t && not kept then false else b)
        both true true b = refl
        both true false b = refl
        both false kept b = refl

    -- A loop that makes what is missing and keeps what is there.
    pub run-make_found :
        (make : Option A → A → Plan)
        → ((o : Option A) (x : A) → text_eq (name x) u ≡ false → All (IsElsewhere e) (make o x))
        → IsDistinct name desired
        → ((x : A) → text_eq (name x) u ≡ true → run e (make none x) false ≡ true)
        → ((old x : A) → run e (make (some old) x) true ≡ true)
        → run e
            (flat_map (λ x. make (find_by name (name x) current) x) desired)
            (is_found (find_by name u current))
          ≡ (if is_found (find_by name u desired) then true else is_found (find_by name u current))
    run-make_found make other d made kept =
        run-make make (is_found (find_by name u current)) other d
        ∙ cases (find_by name u desired) (find_by name u current) refl
      where
        cases :
            (o p : Option A)
            → find_by name u desired ≡ o
            → on_found o (is_found p) (λ x. run e (make p x) (is_found p))
              ≡ (if is_found o then true else is_found p)
        cases none p h = refl
        cases (some x) none h = made x (find_by_name u desired h)
        cases (some x) (some old) h = kept old x

-- What was there, made or deleted, is what is wanted.
pub settled :
    (now wanted b : Bool)
    → b ≡ (if wanted then true else now)
    → (if now && not wanted then false else b) ≡ wanted
settled true true b h = h
settled true false b h = refl
settled false true b h = h
settled false false b h = h
