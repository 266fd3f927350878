-- ===== src/Deploy/Wiring.antt =====
-- internal/deploy/acl_scope.go: `scopeWiringIssues`. The sentences of the issues are left out; the
-- listeners come from an interface of the source, ListenerScopeLister.
pub mod Wired
use mcm.Base.{List, [], ◌∷◌, ◌++◌, Option, none, some, flat_map, is_empty, if◌then◌else◌}
use mcm.Base.Result.{Result, ok, err}
use mcm.Text.{Bytes, codes, text_eq, trim_space}
use mcm.Dynsec.Model.{find_by}
use mcm.Dynsec.Table.{fill}
use mcm.Deploy.{AclFileRender, listener_files}

-- `ListenerSpecRow`, as far as it is read here.
pub record ListenerSpecRow : Type 0 where
  pub id : Bytes
  pub options : List (Bytes × Bytes)

-- A key that the map does not have gives the empty text.
unfoldable pub option_value : Bytes → List (Bytes × Bytes) → Bytes
option_value k [] = []
option_value k ((j, v) ∷ options) = if text_eq j k then v else option_value k options

pub data WiringIssue : Type 0 where
  unmanaged : WiringIssue
  no_listener : (listener_id : Bytes) → WiringIssue
  undeclared : (listener_id path : Bytes) → WiringIssue
  declared_otherwise : (listener_id declared path : Bytes) → WiringIssue

abbrev pub declared_issues : AclFileRender → Bytes → List WiringIssue
declared_issues f declared =
    if is_empty declared
    then undeclared f.listener_id f.path ∷ []
    else if text_eq declared f.path
    then []
    else declared_otherwise f.listener_id declared f.path ∷ []

abbrev pub spec_issues : AclFileRender → Option ListenerSpecRow → List WiringIssue
spec_issues f none = no_listener f.listener_id ∷ []
spec_issues f (some spec) =
    declared_issues f (trim_space (option_value (codes "acl_file") spec.options))

-- The map `byID`.
abbrev pub by_id : List ListenerSpecRow → List ListenerSpecRow
by_id specs = fill (λ (s : ListenerSpecRow). s.id) [] specs

-- One round of the loop over the files of listeners.
unfoldable pub file_issues : List ListenerSpecRow → AclFileRender → List WiringIssue
unfolding option_value
file_issues table f = spec_issues f (find_by (λ (s : ListenerSpecRow). s.id) f.listener_id table)

abbrev pub conf_issues : Bytes → List WiringIssue
conf_issues conf_path = if is_empty conf_path then unmanaged ∷ [] else []

abbrev pub listed_issues :
    Bytes → Option (List ListenerSpecRow) → List AclFileRender → Option (List WiringIssue)
listed_issues conf_path none files = none
listed_issues conf_path (some specs) files =
    some (conf_issues conf_path ++ flat_map (file_issues (by_id specs)) files)

-- The result is `none` where the listeners cannot be listed. They are not asked for without a file of
-- a listener.
unfoldable pub scope_wiring_issues :
    Bytes → Option (List ListenerSpecRow) → List AclFileRender → Option (List WiringIssue)
unfolding file_issues fill
scope_wiring_issues conf_path specs files =
    if is_empty (listener_files files)
    then some []
    else listed_issues conf_path specs (listener_files files)
