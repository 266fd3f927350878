-- ===== src/Dynsec/Plan/Grants.antt =====
-- internal/dynsec/plan.go: after a plan the clients and groups have the roles wanted.
use mcm.Base.{
  Bool, true, false, not, ◌&&◌, ◌||◌, List, [], ◌∷◌, ◌++◌, ◌≡◌, refl, ap, ◌∙◌, if◌then◌else◌,
  Bool-cases, inl, inr, arith, flat_map,
}
use mcm.Text.{Bytes, text_eq, text_eq_iff, text_eq_refl}
use mcm.Dynsec.Model.{RoleRef, Client, Group, Document, find_group, find_client}
use mcm.Dynsec.Command.{Command, role_refs}
use mcm.Dynsec.Updates.{
  ObjectKind, Plan, update_if, has_role, gained_roles, lost_roles, client_updates,
  client_text_changes, password_changes, able_changes, able_command, add_role_to_client,
  take_role_from_client, group_updates, group_text_changes, add_role_to_group, take_role_from_group,
  join_changes, leave_changes, join_command, has_client,
}
use mcm.Dynsec.Effect.{
  Effect, client_role_effect, group_role_effect, has_role_ref, client_role_apply,
}
use mcm.Dynsec.Run.{run, run-append, on_found}

module _ (e : Effect) (r : Bytes) (k : ObjectKind) (n : Bytes) where
  run-update_if :
      (test : Bool) (c : Command) (b : Bool)
      → run e (update_if test k n c) b ≡ (if test then e.apply c b else b)
  unfolding run
  run-update_if true c b = refl
  run-update_if false c b = refl

  pub run-idle :
      (test : Bool) (c : Command) (b : Bool) → e.apply c b ≡ b → run e (update_if test k n c) b ≡ b
  unfolding run
  run-idle true c b h = h
  run-idle false c b h = refl

  -- The roles that are missing are given.
  run-gained_roles :
      (add : RoleRef → Command)
      → ((x : RoleRef) (b : Bool) → e.apply (add x) b ≡ (if text_eq x.role_name r then true else b))
      → (current desired : List RoleRef) (b : Bool)
      → run e (gained_roles k n add current desired) b
        ≡ (if has_role desired r && not (has_role current r) then true else b)
  unfolding gained_roles
  run-gained_roles add h current [] b = unfold run in refl
  run-gained_roles add h current (x ∷ xs) b =
      run-append e (update_if (not (has_role current x.role_name)) k n (add x))
        (gained_roles k n add current xs) b
      ∙ run-gained_roles add h current xs _
      ∙ rw run-update_if (rw h (gained x.role_name (has_role xs r)))
    where
      gained :
          (s : Bytes) (more : Bool)
          → (if more && not (has_role current r)
              then true
              else (if not (has_role current s) then (if text_eq s r then true else b) else b))
            ≡ (if (if text_eq s r then true else more) && not (has_role current r) then true else b)
      gained s more = elim (Bool-cases (text_eq s r)) [
        | inl t ↦
            let same : s ≡ r = (text_eq_iff s r).0 t in rw (same, text_eq_refl r) (ground arith)
        | inr t ↦ rw t (ground arith)
      ]

  -- The roles that are too many are taken.
  run-lost_roles :
      (drop : RoleRef → Command)
      → ((x : RoleRef) (b : Bool)
          → e.apply (drop x) b ≡ (if text_eq x.role_name r then false else b))
      → (current desired : List RoleRef) (b : Bool)
      → run e (lost_roles k n drop current desired) b
        ≡ (if has_role current r && not (has_role desired r) then false else b)
  unfolding lost_roles
  run-lost_roles drop h [] desired b = unfold run in refl
  run-lost_roles drop h (x ∷ xs) desired b =
      run-append e (update_if (not (has_role desired x.role_name)) k n (drop x))
        (lost_roles k n drop xs desired) b
      ∙ run-lost_roles drop h xs desired _
      ∙ rw run-update_if (rw h (lost x.role_name (has_role xs r)))
    where
      lost :
          (s : Bytes) (more : Bool)
          → (if more && not (has_role desired r)
              then false
              else (if not (has_role desired s) then (if text_eq s r then false else b) else b))
            ≡ (if (if text_eq s r then true else more) && not (has_role desired r)
                then false
                else b)
      lost s more = elim (Bool-cases (text_eq s r)) [
        | inl t ↦
            let same : s ≡ r = (text_eq_iff s r).0 t in rw (same, text_eq_refl r) (ground arith)
        | inr t ↦ rw t (ground arith)
      ]

pub role_refs-has_role :
    (refs : List RoleRef) (r : Bytes) → has_role_ref (role_refs refs) r ≡ has_role refs r
unfolding role_refs
role_refs-has_role [] r = refl
role_refs-has_role (x ∷ xs) r =
    ap (λ (t : Bool). if text_eq x.role_name r then true else t) (role_refs-has_role xs r)

-- Given and taken, the roles are the ones wanted.
swapped :
    (now wanted : Bool)
    → (if now && not wanted then false else (if wanted && not now then true else now)) ≡ wanted
swapped true true = refl
swapped true false = refl
swapped false true = refl
swapped false false = refl

-- A client has a role itself.
abbrev pub client_has : Document → Bytes → Bytes → Bool
client_has d u r = on_found (find_client d u) false (λ (c : Client). has_role c.roles r)

-- A group has a role.
abbrev pub group_has : Document → Bytes → Bytes → Bool
group_has d g r = on_found (find_group d g) false (λ (x : Group). has_role x.roles r)

pub run-client_updates :
    (old c : Client) (r : Bytes)
    → run (client_role_effect c.username r) (client_updates old c) (has_role old.roles r)
      ≡ has_role c.roles r
unfolding client_updates client_role_effect
run-client_updates old c r =
    let n = c.username in
    let e = client_role_effect n r in
    let b = has_role old.roles r in
    let gains = gained_roles ObjectKind.client n (add_role_to_client n) old.roles c.roles in
    let losses = lost_roles ObjectKind.client n (take_role_from_client n) old.roles c.roles in
    run-append e (client_text_changes old c)
      (password_changes c ++ (able_changes old c ++ (gains ++ losses))) b
    ∙ run-append e (password_changes c) (able_changes old c ++ (gains ++ losses)) _
    ∙ run-append e (able_changes old c) (gains ++ losses) _
    ∙ run-append e gains losses _
    ∙ run-lost_roles e r ObjectKind.client n (take_role_from_client n) (λ x b. simp text_eq_refl)
        old.roles c.roles _
    ∙ ap (λ (t : Bool). if b && not (has_role c.roles r) then false else t)
        (run-gained_roles e r ObjectKind.client n (add_role_to_client n) (λ x b. simp text_eq_refl)
            old.roles c.roles _
          ∙ ap (λ (t : Bool). if has_role c.roles r && not b then true else t)
              (run-idle e r ObjectKind.client n _ (able_command c) _ (able_idle c.disabled _)
                ∙ run-idle e r ObjectKind.client n _ (Command.set_client_password n c.password) _
                    refl
                ∙ run-idle e r ObjectKind.client n _
                    (Command.modify_client n c.client_id c.text_name c.text_description) b refl))
    ∙ swapped b (has_role c.roles r)
  where
    able_idle :
        (disabled b : Bool)
        → client_role_apply c.username r
            (if disabled
              then Command.disable_client c.username
              else Command.enable_client c.username)
            b
          ≡ b
    able_idle true b = refl
    able_idle false b = refl

pub run-each_idle :
    {A : Type 0} (e : Effect) (f : A → Plan) (xs : List A) (b : Bool)
    → ((x : A) (b : Bool) → run e (f x) b ≡ b)
    → run e (flat_map f xs) b ≡ b
run-each_idle e f [] b h = unfold run in refl
run-each_idle e f (x ∷ xs) b h =
    run-append e (f x) (flat_map f xs) b ∙ run-each_idle e f xs _ h ∙ h x b

pub run-group_updates :
    (old g : Group) (r : Bytes)
    → run (group_role_effect g.group_name r) (group_updates old g) (has_role old.roles r)
      ≡ has_role g.roles r
unfolding group_updates group_role_effect join_changes leave_changes
run-group_updates old g r =
    let n = g.group_name in
    let e = group_role_effect n r in
    let b = has_role old.roles r in
    let gains = gained_roles ObjectKind.group n (add_role_to_group n) old.roles g.roles in
    let losses = lost_roles ObjectKind.group n (take_role_from_group n) old.roles g.roles in
    let joins = join_changes old g in
    let leaves = leave_changes (λ u. false) old g in
    run-append e (group_text_changes old g) (gains ++ (losses ++ (joins ++ leaves))) b
    ∙ run-append e gains (losses ++ (joins ++ leaves)) _
    ∙ run-append e losses (joins ++ leaves) _
    ∙ run-append e joins leaves _
    ∙ run-each_idle e _ old.clients _ (λ x b.
      run-idle e r ObjectKind.group n (not (has_client g.clients x.username || false))
        (Command.remove_group_client n x.username) b refl)
    ∙ run-each_idle e _ g.clients _ (λ x b.
      run-idle e r ObjectKind.group n (not (has_client old.clients x.username)) (join_command n x) b
        refl)
    ∙ run-lost_roles e r ObjectKind.group n (take_role_from_group n) (λ x b. simp text_eq_refl)
        old.roles g.roles _
    ∙ ap (λ (t : Bool). if b && not (has_role g.roles r) then false else t)
        (run-gained_roles e r ObjectKind.group n (add_role_to_group n) (λ x b. simp text_eq_refl)
            old.roles g.roles _
          ∙ ap (λ (t : Bool). if has_role g.roles r && not b then true else t)
              (run-idle e r ObjectKind.group n _
                (Command.modify_group n g.text_name g.text_description) b refl))
    ∙ swapped b (has_role g.roles r)
