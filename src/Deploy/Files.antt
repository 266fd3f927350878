-- ===== src/Deploy/Files.antt =====
-- internal/deploy/acl_scope.go: `planACLFiles`, the files that an apply writes and removes. Reading a file
-- is a parameter; the texts of the errors are left out.
pub mod Writes
pub mod Removals
use mcm.Base.{Bool, List, [], ◌∷◌, ◌++◌, Option, none, some, map, if◌then◌else◌}
use mcm.Base.Result.{Result, ok, err}
use mcm.Text.{Bytes, codes, text_eq, text_lt}
use mcm.Acl.Rule.{Scope}
use mcm.Dynsec.Model.{find_by, is_found}
use mcm.Acl.Rule.{is_listener}
use mcm.Deploy.{AclFileRender}
use mcm.Deploy.Registry.{ManagedAclFile}

-- `mosquitto.ACLFile`.
pub record AclFile : Type 0 where
  pub path : Bytes
  pub body : Bytes
  pub snapshot : Bytes

pub record AclFilePlan : Type 0 where
  pub global : AclFile
  pub listener : List AclFile
  pub remove : List AclFile

pub data PlanError : Type 0 where
  unreadable : (path : Bytes) → PlanError
  not_listed : PlanError

abbrev pub paths : AclFilePlan → List Bytes
paths p =
    p.global.path
    ∷ (map (λ (f : AclFile). f.path) p.listener ++ map (λ (f : AclFile). f.path) p.remove)

abbrev pub empty_file : AclFile
empty_file = record { path = []; body = []; snapshot = [] }

abbrev pub empty_plan : AclFilePlan
empty_plan = record { global = empty_file; listener = []; remove = [] }

-- The bodies that take the place of rendered ones, by path.
unfoldable pub body_of : List (Bytes × Bytes) → AclFileRender → Bytes
body_of [] f = f.body
body_of ((k, b) ∷ bodies) f = if text_eq k f.path then b else body_of bodies f

abbrev pub entry_for : List (Bytes × Bytes) → AclFileRender → Bytes → AclFile
entry_for bodies f snapshot = record { path = f.path; body = body_of bodies f; snapshot = snapshot }

abbrev pub with_entry : AclFileRender → AclFile → AclFilePlan → AclFilePlan
with_entry f entry p =
    if is_listener f.scope
    then record p { listener = p.listener ++ (entry ∷ []) }
    else record p { global = entry }

abbrev pub is_rendered : List AclFileRender → Bytes → Bool
is_rendered files k = is_found (find_by (λ (f : AclFileRender). f.path) k files)

unfoldable pub insert_file : AclFile → List AclFile → List AclFile
insert_file f [] = f ∷ []
insert_file f (g ∷ gs) =
    let rest = insert_file f gs in if text_lt g.path f.path then g ∷ rest else f ∷ g ∷ gs

-- `sort.Slice` by the path. The paths of a table differ, so that the result is the only one.
unfoldable pub sort_files : List AclFile → List AclFile
unfolding insert_file
sort_files [] = []
sort_files (f ∷ fs) = insert_file f (sort_files fs)

abbrev pub removal : Bytes → Bytes → AclFile
removal path snapshot = record { path = path; body = []; snapshot = snapshot }

abbrev pub onto_removals :
    Bytes → Bytes → Result PlanError (List AclFile) → Result PlanError (List AclFile)
onto_removals path snapshot (err e) = err e
onto_removals path snapshot (ok fs) = ok (removal path snapshot ∷ fs)

abbrev pub with_removals :
    AclFilePlan → Result PlanError (List AclFile) → Result PlanError AclFilePlan
with_removals p (err e) = err e
with_removals p (ok fs) = ok (record p { remove = sort_files fs })

module _ (read_file : Bytes → Option Bytes) where
  -- The loop over the rendered files.
  unfoldable pub plan_files :
      List (Bytes × Bytes) → List AclFileRender → AclFilePlan → Result PlanError AclFilePlan
  unfolding body_of
  plan_files bodies [] p = ok p
  plan_files bodies (f ∷ fs) p = elim (read_file f.path) [
    | none ↦ err (unreadable f.path)
    | some snapshot ↦ plan_files bodies fs (with_entry f (entry_for bodies f snapshot) p)
  ]

  -- The loop over the registered files that are not rendered any more.
  unfoldable pub plan_removals :
      List AclFileRender → List ManagedAclFile → Result PlanError (List AclFile)
  plan_removals files [] = ok []
  plan_removals files (r ∷ rows) =
      if is_rendered files r.path then plan_removals files rows else elim (read_file r.path) [
        | none ↦ err (unreadable r.path)
        | some snapshot ↦ onto_removals r.path snapshot (plan_removals files rows)
      ]

  abbrev pub after_files :
      List AclFileRender
      → Option (List ManagedAclFile)
      → Result PlanError AclFilePlan
      → Result PlanError AclFilePlan
  after_files files managed (err e) = err e
  after_files files none (ok p) = err not_listed
  after_files files (some rows) (ok p) = with_removals p (plan_removals files rows)

  -- By the answer of the registry, which is `none` where it cannot be listed.
  unfoldable pub plan_acl_files :
      List (Bytes × Bytes)
      → List AclFileRender
      → Option (List ManagedAclFile)
      → Result PlanError AclFilePlan
  unfolding plan_files plan_removals sort_files
  plan_acl_files bodies files managed =
      after_files files managed (plan_files bodies files empty_plan)
