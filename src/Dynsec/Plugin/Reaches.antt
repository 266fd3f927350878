-- ===== src/Dynsec/Plugin/Reaches.antt =====
-- internal/dynsec: a plan takes the plugin's database from the current document to the desired one.
use mcm.Base.{
  Bool, true, List, [], ◌∷◌, some, ◌≡◌, refl, ap, ◌∙◌, Option-cases, Bool-cases, inl, inr,
}
use mcm.Base.Members.{All}
use mcm.Text.{Bytes, text_eq, text_eq_iff}
use mcm.Dynsec.Model.{
  RoleRef, Role, Client, Group, Document, find_by, find_client, find_group, find_role, is_found,
}
use mcm.Dynsec.Command.{Command}
use mcm.Dynsec.Updates.{commands_of, has_role}
use mcm.Dynsec.Plan.{build_plan}
use mcm.Dynsec.Plan.Names.{
  client_effect-build_plan, group_effect-build_plan, role_effect-build_plan,
}
use mcm.Dynsec.Plan.Grants.{client_has, group_has}
use mcm.Dynsec.Plan.Reaches.{client_role_effect-build_plan, group_role_effect-build_plan}
use mcm.Dynsec.Effect.{
  Effect, client_effect, group_effect, role_effect, client_role_effect, group_role_effect,
}
use mcm.Dynsec.Run.{run, run_commands}
use mcm.Dynsec.Validate.{validate}
use mcm.Dynsec.Validate.Loops.{Known}
use mcm.Dynsec.Validate.Documents.{IsDocument, validate_iff}
use mcm.Dynsec.Plugin.{Plugin, exec_all, Shows}

-- What holds of all elements holds of the one that is found.
All-find_by :
    {A : Type 0} (name : A → Bytes) (P : A → Type 0) (k : Bytes) (xs : List A) {x : A}
    → All P xs
    → find_by name k xs ≡ some x
    → P x
All-find_by name P k [] h e = cc
All-find_by name P k (y ∷ ys) {x} h e = elim (Bool-cases (text_eq (name y) k)) [
  | inl t ↦ let same : some y ≡ some x = rw t at e in let yx : y ≡ x = (cc) in rw (← yx) h.0
  | inr t ↦ All-find_by name P k ys h.1 (rw t at e)
]

-- A role that is referenced is known.
Known-role :
    (roles : List Role) (refs : List RoleRef) (r : Bytes)
    → Known (λ x. x.role_name) (λ x. x.role_name) roles refs
    → has_role refs r ≡ true
    → is_found (find_by (λ x. x.role_name) r roles) ≡ true
Known-role roles [] r k h = cc
Known-role roles (x ∷ xs) r k h = elim (Bool-cases (text_eq x.role_name r)) [
  | inl t ↦ rw (← (text_eq_iff x.role_name r).0 t) k.0
  | inr t ↦ Known-role roles xs r k.1 (rw t at h)
]

client_roles_known :
    (d : Document) (u r : Bytes)
    → IsDocument d
    → client_has d u r ≡ true
    → is_found (find_role d r) ≡ true
client_roles_known d u r h has = elim (Option-cases (find_client d u)) [
  | inl e ↦ let g = rw e at has in cc
  | inr (c, e) ↦
      let known = All-find_by (λ (x : Client). x.username) _ u d.clients h.4 e in
      Known-role d.roles c.roles r known.0 (rw e at has)
]

group_roles_known :
    (d : Document) (g r : Bytes)
    → IsDocument d
    → group_has d g r ≡ true
    → is_found (find_role d r) ≡ true
group_roles_known d g r h has = elim (Option-cases (find_group d g)) [
  | inl e ↦ let g = rw e at has in cc
  | inr (x, e) ↦
      let known = All-find_by (λ (x : Group). x.group_name) _ g d.groups h.5 e in
      Known-role d.roles x.roles r known.0 (rw e at has)
]

module _ {Db : Type 0} (p : Plugin Db) where
  module _ (e : Effect) (fact : Db → Bool) where
    -- A fact that each accepted command changes as described is changed so by all of them.
    exec_all-run :
        ((c : Command) (db db' : Db) → p.exec c db ≡ some db' → fact db' ≡ e.apply c (fact db))
        → (cs : List Command) (db db' : Db) → exec_all p cs db ≡ some db'
        → fact db' ≡ run_commands e cs (fact db)
    unfolding exec_all
    exec_all-run law [] db db' h = let same : db ≡ db' = (cc) in rw same refl
    exec_all-run law (c ∷ cs) db db' h = elim (Option-cases (p.exec c db)) [
      | inl e ↦ let g = rw (e, exec_all) at h in cc
      | inr (next, e) ↦
          exec_all-run law cs next db' (rw (e, exec_all) at h) ∙ rw (law c db next e) refl
    ]

  -- Let the commands of the plugin do to each fact what they are documented to do. Where the
  -- database has the clients, groups and roles of the current document, with the roles of each
  -- client and group, and the desired document is valid, the database that the commands of the plan
  -- lead to, when none is refused, has those of the desired document.
  pub build_plan-Shows :
      (current desired : Document) (db db' : Db)
      → Shows p db current
      → validate desired ≡ []
      → exec_all p (commands_of (build_plan current desired)) db ≡ some db'
      → Shows p db' desired
  unfolding run client_effect group_effect role_effect client_role_effect group_role_effect
  build_plan-Shows current desired db db' shown fine done =
      let cs = commands_of (build_plan current desired) in
      let valid = (validate_iff desired).0 fine in
      (
        λ u.
            exec_all-run (client_effect u) (p.has_client u) (p.exec-has_client u) cs db db' done
            ∙ ap (run_commands (client_effect u) cs) (shown.0 u)
            ∙ client_effect-build_plan current desired u valid.0.1,
        λ g.
            exec_all-run (group_effect g) (p.has_group g) (p.exec-has_group g) cs db db' done
            ∙ ap (run_commands (group_effect g) cs) (shown.1 g)
            ∙ group_effect-build_plan current desired g valid.1.1,
        λ r.
            exec_all-run (role_effect r) (p.has_role r) (p.exec-has_role r) cs db db' done
            ∙ ap (run_commands (role_effect r) cs) (shown.2 r)
            ∙ role_effect-build_plan current desired r valid.2.1,
        λ u r.
            exec_all-run (client_role_effect u r) (p.client_has_role u r)
              (p.exec-client_has_role u r) cs db db' done
            ∙ ap (run_commands (client_role_effect u r) cs) (shown.3 u r)
            ∙ client_role_effect-build_plan current desired u r valid.0.1
                (client_roles_known desired u r valid),
        λ g r.
            exec_all-run (group_role_effect g r) (p.group_has_role g r) (p.exec-group_has_role g r)
              cs db db' done
            ∙ ap (run_commands (group_role_effect g r) cs) (shown.4 g r)
            ∙ group_role_effect-build_plan current desired g r valid.1.1
                (group_roles_known desired g r valid),
      )
