-- ===== src/Dynsec/Plugin.antt =====
-- internal/dynsec: the dynamic security plugin, which is not part of the repository. Its database is
-- abstract; what is relied on is what the commands it accepts are documented to do to the facts that
-- MCM reads back.
pub mod Reaches
use mcm.Base.{Bool, List, [], ◌∷◌, Option, none, some, ◌≡◌}
use mcm.Text.{Bytes}
use mcm.Dynsec.Model.{Document, find_client, find_group, find_role, is_found}
use mcm.Dynsec.Command.{Command}
use mcm.Dynsec.Effect.{client_apply, group_apply, role_apply, client_role_apply, group_role_apply}
use mcm.Dynsec.Plan.Grants.{client_has, group_has}

pub record Plugin (Db : Type 0) : Type 0 where
  -- The database after a command, `none` when the plugin refuses it.
  pub exec : Command → Db → Option Db
  pub has_client : Bytes → Db → Bool
  pub has_group : Bytes → Db → Bool
  pub has_role : Bytes → Db → Bool
  pub client_has_role : Bytes → Bytes → Db → Bool
  pub group_has_role : Bytes → Bytes → Db → Bool
  pub exec-has_client :
      (u : Bytes) (c : Command) (db db' : Db)
      → exec c db ≡ some db'
      → has_client u db' ≡ client_apply u c (has_client u db)
  pub exec-has_group :
      (g : Bytes) (c : Command) (db db' : Db)
      → exec c db ≡ some db'
      → has_group g db' ≡ group_apply g c (has_group g db)
  pub exec-has_role :
      (r : Bytes) (c : Command) (db db' : Db)
      → exec c db ≡ some db'
      → has_role r db' ≡ role_apply r c (has_role r db)
  pub exec-client_has_role :
      (u r : Bytes) (c : Command) (db db' : Db)
      → exec c db ≡ some db'
      → client_has_role u r db' ≡ client_role_apply u r c (client_has_role u r db)
  pub exec-group_has_role :
      (g r : Bytes) (c : Command) (db db' : Db)
      → exec c db ≡ some db'
      → group_has_role g r db' ≡ group_role_apply g r c (group_has_role g r db)

module _ {Db : Type 0} (p : Plugin Db) where
  -- The commands in their order, until one is refused.
  unfoldable pub exec_all : List Command → Db → Option Db
  exec_all [] db = some db
  exec_all (c ∷ cs) db = elim (p.exec c db) [ none ↦ none | some next ↦ exec_all cs next ]

  -- The database has the clients, the groups and the roles of the document, with their roles.
  abbrev pub Shows : Db → Document → Type 0
  Shows db d =
      ((u : Bytes) → p.has_client u db ≡ is_found (find_client d u))
      × ((g : Bytes) → p.has_group g db ≡ is_found (find_group d g))
      × ((r : Bytes) → p.has_role r db ≡ is_found (find_role d r))
      × ((u r : Bytes) → p.client_has_role u r db ≡ client_has d u r)
      × ((g r : Bytes) → p.group_has_role g r db ≡ group_has d g r)
