-- ===== src/Deploy/Registry.antt =====
-- internal/deploy/acl_scope.go: the registry of the access files that MCM owns. The store behind it is an
-- interface of the source, ManagedACLFileStore; the times of a row are left out.
pub mod Tracks
use mcm.Base.{Bool, true, false, List, [], ◌∷◌, Option, none, some, map, if◌then◌else◌}
use mcm.Text.{Bytes, text_eq}
use mcm.Dynsec.Model.{find_by, is_found}
use mcm.Dynsec.Table.{fill}
use mcm.Deploy.{AclFileRender, listener_files}

-- `ManagedACLFileRow`.
pub record ManagedAclFile : Type 0 where
  pub path : Bytes
  pub listener_id : Bytes

pub data Deletion : Type 0 where
  deleted missing failed : Deletion

pub record FileStore (World : Type 0) : Type 0 where
  -- `none` is an error.
  pub list : World → Option (List ManagedAclFile) × World
  pub enter : (path listener_id : Bytes) → World → Bool × World
  pub delete : (path : Bytes) → World → Deletion × World

pub data RegistryError : Type 0 where
  not_listed : RegistryError
  not_released not_recorded : (path : Bytes) → RegistryError

abbrev pub find_row : Bytes → List ManagedAclFile → Option ManagedAclFile
find_row k rows = find_by (λ (r : ManagedAclFile). r.path) k rows

module _ {World : Type 0} (t : FileStore World) where
  abbrev pub after_deletion :
      (World → Option RegistryError × World)
      → Bytes
      → Deletion × World
      → Option RegistryError × World
  after_deletion onward path (deleted, w) = onward w
  after_deletion onward path (missing, w) = onward w
  after_deletion onward path (failed, w) = (some (not_released path), w)

  -- The loop that drops the registered files that are not kept; `none` is no error.
  unfoldable pub release :
      List ManagedAclFile → List ManagedAclFile → World → Option RegistryError × World
  release kept [] w = (none, w)
  release kept (r ∷ rows) w =
      if is_found (find_row r.path kept)
      then release kept rows w
      else after_deletion (release kept rows) r.path (t.delete r.path w)

  abbrev pub after_entry :
      (World → Option RegistryError × World) → Bytes → Bool × World → Option RegistryError × World
  after_entry onward path (true, w) = onward w
  after_entry onward path (false, w) = (some (not_recorded path), w)

  -- The loop that records the files.
  unfoldable pub register : List ManagedAclFile → World → Option RegistryError × World
  register [] w = (none, w)
  register (r ∷ rows) w = after_entry (register rows) r.path (t.enter r.path r.listener_id w)

  abbrev pub then_register :
      List ManagedAclFile → Option RegistryError × World → Option RegistryError × World
  then_register kept (none, w) = register kept w
  then_register kept (some e, w) = (some e, w)

  abbrev pub after_list :
      List ManagedAclFile → Option (List ManagedAclFile) × World → Option RegistryError × World
  after_list kept (none, w) = (some not_listed, w)
  after_list kept (some rows, w) = then_register kept (release kept rows w)

abbrev pub row_of : AclFileRender → ManagedAclFile
row_of f = record { path = f.path; listener_id = f.listener_id }

-- The map `current`. The order in which Go goes over it is open.
unfoldable pub current : List AclFileRender → List ManagedAclFile
unfolding fill
current files = fill (λ (r : ManagedAclFile). r.path) [] (map row_of (listener_files files))

unfoldable pub record_managed_acl_files :
    {World : Type 0}
    → Option (FileStore World)
    → List AclFileRender
    → World
    → Option RegistryError × World
unfolding current release register
record_managed_acl_files none files w = (none, w)
record_managed_acl_files (some t) files w = after_list t (current files) (t.list w)

unfoldable pub restore_managed_acl_files :
    {World : Type 0}
    → Option (FileStore World)
    → List ManagedAclFile
    → World
    → Option RegistryError × World
unfolding release register
restore_managed_acl_files none previous w = (none, w)
restore_managed_acl_files (some t) previous w = after_list t previous (t.list w)
