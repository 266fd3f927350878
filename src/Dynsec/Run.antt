-- ===== src/Dynsec/Run.antt =====
-- internal/dynsec: what a plan makes of one fact of the database, phase by phase.
use mcm.Base.{
  Bool, true, false, List, [], ◌∷◌, ◌++◌, Option, none, some, ◌≡◌, refl, sym, ap, ◌∙◌,
  if◌then◌else◌, any, flat_map, Bool-cases, inl, inr,
}
use mcm.Base.Members.{All}
use mcm.Text.{Bytes, text_eq, text_eq_iff}
use mcm.Dynsec.Model.{find_by}
use mcm.Dynsec.Command.{Command}
use mcm.Dynsec.Updates.{Change, Plan, commands_of}
use mcm.Dynsec.Effect.{Aim, aim, aim_at, Effect}

abbrev pub run_commands : Effect → List Command → Bool → Bool
run_commands e [] b = b
run_commands e (c ∷ cs) b = run_commands e cs (e.apply c b)

-- The fact after the commands of the changes, in their order.
unfoldable pub run : Effect → Plan → Bool → Bool
run e p b = run_commands e (commands_of p) b

-- Every command of a change does what the change says, to the object that it says.
abbrev pub Aimed : Change → Type 0
Aimed ch = All (λ (c : Command). aim c ≡ aim_at ch.action ch.kind ch.name) ch.commands

run_commands-append :
    (e : Effect) (xs ys : List Command) (b : Bool)
    → run_commands e (xs ++ ys) b ≡ run_commands e ys (run_commands e xs b)
run_commands-append e [] ys b = refl
run_commands-append e (x ∷ xs) ys b = run_commands-append e xs ys (e.apply x b)

pub run-append : (e : Effect) (p q : Plan) (b : Bool) → run e (p ++ q) b ≡ run e q (run e p b)
unfolding run
run-append e [] q b = refl
run-append e (ch ∷ p) q b =
    run_commands-append e ch.commands (commands_of (p ++ q)) b
    ∙ run-append e p q (run_commands e ch.commands b)
    ∙ ap (run_commands e (commands_of q))
        (sym (run_commands-append e ch.commands (commands_of p) b))

-- A change that is aimed elsewhere.
abbrev pub IsElsewhere : Effect → Change → Type 0
IsElsewhere e ch = Aimed ch × (e.concerns (aim_at ch.action ch.kind ch.name) ≡ false)

run_commands-idle :
    (e : Effect) (a : Aim) (cs : List Command) (b : Bool)
    → All (λ c. aim c ≡ a) cs
    → e.concerns a ≡ false
    → run_commands e cs b ≡ b
run_commands-idle e a [] b h k = refl
run_commands-idle e a (c ∷ cs) b h k =
    ap (run_commands e cs) (e.idle c b (ap e.concerns h.0 ∙ k)) ∙ run_commands-idle e a cs b h.1 k

-- Changes that are aimed elsewhere leave the fact as it is.
pub run-IsElsewhere : (e : Effect) (p : Plan) (b : Bool) → All (IsElsewhere e) p → run e p b ≡ b
unfolding run
run-IsElsewhere e [] b h = refl
run-IsElsewhere e (ch ∷ p) b h =
    run_commands-append e ch.commands (commands_of p) b
    ∙ ap (run_commands e (commands_of p))
        (run_commands-idle e (aim_at ch.action ch.kind ch.name) ch.commands b h.0.0 h.0.1)
    ∙ run-IsElsewhere e p b h.1

-- No name twice.
abbrev pub IsDistinct {ℓ} : {A : Type ℓ} → (A → Bytes) → List A → Type ℓ
IsDistinct name [] = Unit
IsDistinct name (x ∷ xs) = (find_by name (name x) xs ≡ none) × IsDistinct name xs

abbrev pub on_found {ℓ κ} : {A : Type ℓ} {B : Type κ} → Option A → B → (A → B) → B
on_found none b f = b
on_found (some a) b f = f a

same_branches : (t c : Bool) → (if t then c else c) ≡ c
same_branches true c = refl
same_branches false c = refl

module _ {ℓ} {A : Type ℓ} (name : A → Bytes) (f : A → Plan) (e : Effect) (u : Bytes) where
  run-not_found :
      (xs : List A) (b : Bool)
      → ((x : A) → text_eq (name x) u ≡ false → All (IsElsewhere e) (f x))
      → find_by name u xs ≡ none
      → run e (flat_map f xs) b ≡ b
  run-not_found [] b other h = unfold run in refl
  run-not_found (x ∷ xs) b other h = elim (Bool-cases (text_eq (name x) u)) [
    | inl t ↦ let g = rw t at h in cc
    | inr t ↦
        run-append e (f x) (flat_map f xs) b
        ∙ ap (run e (flat_map f xs)) (run-IsElsewhere e (f x) b (other x t))
        ∙ run-not_found xs b other (rw t at h)
  ]

  -- A loop over objects with distinct names: only the object of that name matters.
  pub run-flat_map :
      (xs : List A) (b : Bool)
      → ((x : A) → text_eq (name x) u ≡ false → All (IsElsewhere e) (f x))
      → IsDistinct name xs
      → run e (flat_map f xs) b ≡ on_found (find_by name u xs) b (λ x. run e (f x) b)
  run-flat_map [] b other d = unfold run in refl
  run-flat_map (x ∷ xs) b other d = elim (Bool-cases (text_eq (name x) u)) [
    | inl t ↦
        let gone : find_by name u xs ≡ none = rw ((text_eq_iff (name x) u).0 t) at d.0 in
        run-append e (f x) (flat_map f xs) b
        ∙ run-not_found xs (run e (f x) b) other gone
        ∙ rw t refl
    | inr t ↦
        run-append e (f x) (flat_map f xs) b
        ∙ ap (run e (flat_map f xs)) (run-IsElsewhere e (f x) b (other x t))
        ∙ run-flat_map xs b other d.1
        ∙ rw t refl
  ]

  -- A loop that touches the fact at each object of that name in the same way.
  pub run-each :
      (xs : List A) (b c : Bool)
      → ((x : A) → text_eq (name x) u ≡ false → All (IsElsewhere e) (f x))
      → ((x : A) → text_eq (name x) u ≡ true → run e (f x) b ≡ c)
      → ((x : A) → text_eq (name x) u ≡ true → run e (f x) c ≡ c)
      → run e (flat_map f xs) b ≡ (if any (λ x. text_eq (name x) u) xs then c else b)
  run-each [] b c other first again = unfold run in refl
  run-each (x ∷ xs) b c other first again = elim (Bool-cases (text_eq (name x) u)) [
    | inl t ↦
        run-append e (f x) (flat_map f xs) b
        ∙ ap (run e (flat_map f xs)) (first x t)
        ∙ run-each xs c c other again again
        ∙ rw t (same_branches (any (λ x. text_eq (name x) u) xs) c)
    | inr t ↦
        run-append e (f x) (flat_map f xs) b
        ∙ ap (run e (flat_map f xs)) (run-IsElsewhere e (f x) b (other x t))
        ∙ run-each xs b c other first again
        ∙ rw t refl
  ]
