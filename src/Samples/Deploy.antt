-- ===== src/Samples/Deploy.antt =====
-- A table of access files, of which one is out of use, and a listener that declares its file.
use mcm.Base.{
  Bool, true, List, [], ◌∷◌, Option, none, some, map, ◌≡◌, ◌≢◌, ◌↔◌, ◌⊎◌, refl, ap, ◌∙◌, sym,
  if◌then◌else◌, inl, inr, Bool-cases,
}
use mcm.Base.Members.{All}
use mcm.Text.{Bytes, codes, text_eq, text_eq_iff, trim_space}
use mcm.Acl.Rule.{Scope}
use mcm.Dynsec.Run.{IsDistinct}
use mcm.Dynsec.Table.{erase, fill}
use mcm.Dynsec.Table.Laws.{find-erase_same, find-erase_other}
use mcm.Dynsec.Table.Distinct.{erase-IsDistinct}
use mcm.Deploy.{AclFileRender, listener_files}
use mcm.Deploy.Registry.{
  ManagedAclFile, Deletion, deleted, missing, FileStore, find_row, row_of, current, release,
  register, record_managed_acl_files, restore_managed_acl_files,
}
use mcm.Deploy.Registry.Tracks.{
  IsFileStore, owner, last_row, record_managed_acl_files-registered,
  restore_managed_acl_files-registered,
}
use mcm.Deploy.Files.{
  AclFilePlan, empty_file, plan_acl_files, plan_files, plan_removals, sort_files, insert_file,
  body_of,
}
use mcm.Deploy.Files.Removals.{IsPlan, plan_acl_files_lem}
use mcm.Base.Result.{ok}
use mcm.Deploy.Wiring.{ListenerSpecRow, option_value, no_listener, scope_wiring_issues}
use mcm.Deploy.Wiring.Wired.{Declares, scope_wiring_issues_iff}

abbrev path_of : ManagedAclFile → Bytes
path_of r = r.path

-- The rows of a table, with one of a path at most.
abbrev Rows : Type 0
Rows = (rows : List ManagedAclFile) × IsDistinct path_of rows

abbrev enter_row : Bytes → Bytes → Rows → Bool × Rows
enter_row p l w = (
  true,
  (
    record { path = p; listener_id = l } ∷ erase path_of p w.0,
    (find-erase_same path_of p w.0, erase-IsDistinct path_of p w.0 w.1),
  ),
)

abbrev delete_found : Option ManagedAclFile → Bytes → Rows → Deletion × Rows
delete_found none p w = (missing, w)
delete_found (some r) p w = (deleted, (erase path_of p w.0, erase-IsDistinct path_of p w.0 w.1))

abbrev table : FileStore Rows
table = record {
  list = λ w. (some w.0, w);
  enter = enter_row;
  delete = λ p w. delete_found (find_row p w.0) p w;
}

abbrev registered : Rows → Bytes → Option Bytes
registered w k = owner (find_row k w.0)

erased :
    (p k : Bytes) (rows : List ManagedAclFile)
    → owner (find_row k (erase path_of p rows))
      ≡ (if text_eq p k then none else owner (find_row k rows))
erased p k rows = elim (Bool-cases (text_eq p k)) [
  | inl e ↦
      let same : p ≡ k = (text_eq_iff p k).0 e in
      rw e (rw (← same) (rw (find-erase_same path_of p rows) refl))
  | inr e ↦ rw (e, find-erase_other path_of p k rows e) refl
]

deleted_row :
    (o : Option ManagedAclFile) (p : Bytes) (w w' : Rows)
    → delete_found o p w ≡ (deleted, w')
    → (k : Bytes) → registered w' k ≡ (if text_eq p k then none else registered w k)
deleted_row none p w w' h k = let g : missing ≡ deleted = ap (λ (q : Deletion × Rows). q.0) h in cc
deleted_row (some r) p w w' h k =
    ap (λ (q : Deletion × Rows). registered q.1 k) (sym h) ∙ erased p k w.0

missing_row :
    (o : Option ManagedAclFile) (p : Bytes) (w w' : Rows)
    → find_row p w.0 ≡ o
    → delete_found o p w ≡ (missing, w')
    → (registered w p ≡ none) × ((k : Bytes) → registered w' k ≡ registered w k)
missing_row none p w w' e h =
    (ap owner e, λ k. ap (λ (q : Deletion × Rows). registered q.1 k) (sym h))
missing_row (some r) p w w' e h =
    let g : deleted ≡ missing = ap (λ (q : Deletion × Rows). q.0) h in cc

entered_row :
    (p l : Bytes) (w : Rows) (k : Bytes)
    → registered (enter_row p l w).1 k ≡ (if text_eq p k then some l else registered w k)
entered_row p l w k = elim (Bool-cases (text_eq p k)) [
  | inl e ↦ rw e refl
  | inr e ↦ rw (e, find-erase_other path_of p k w.0 e) refl
]

listed_rows :
    (w w' : Rows) (rows : List ManagedAclFile)
    → table.list w ≡ (some rows, w')
    → ((k : Bytes) → registered w' k ≡ registered w k)
      × ((k : Bytes) → owner (find_row k rows) ≡ registered w k)
      × IsDistinct path_of rows
listed_rows w w' rows h =
    let listed : some w.0 ≡ some rows = ap (λ (q : Option (List ManagedAclFile) × Rows). q.0) h in
    let same : w.0 ≡ rows = (cc) in
    (
      λ k. ap (λ (q : Option (List ManagedAclFile) × Rows). registered q.1 k) (sym h),
      λ k. ap (λ (rs : List ManagedAclFile). owner (find_row k rs)) (sym same),
      rw same at w.1,
    )

table-IsFileStore : IsFileStore table registered
table-IsFileStore = record {
  list-registered = listed_rows;
  enter-registered =
      λ p l w w' h k. ap (λ (q : Bool × Rows). registered q.1 k) (sym h) ∙ entered_row p l w k;
  delete-registered = λ p w w' h. deleted_row (find_row p w.0) p w w' h;
  missing-registered = λ p w w' h. missing_row (find_row p w.0) p w w' refl h;
}

abbrev local_file : AclFileRender
local_file = record {
  scope = Scope.listener;
  listener_id = codes "local";
  path = codes "/local.acl";
  body = codes "topic read a";
}

abbrev old_row : ManagedAclFile
old_row = record { path = codes "/old.acl"; listener_id = codes "old" }

abbrev before : Rows
before = (old_row ∷ [], (refl, tt))

abbrev after : Rows
after = (record_managed_acl_files (some table) (local_file ∷ []) before).1

recorded : record_managed_acl_files (some table) (local_file ∷ []) before ≡ (none, after)
unfolding record_managed_acl_files current release register fill erase text_eq
recorded = refl

record_managed_acl_files-registered_example :
    registered after (codes "/local.acl")
    ≡ owner (last_row (codes "/local.acl") (map row_of (listener_files (local_file ∷ []))))
record_managed_acl_files-registered_example =
    record_managed_acl_files-registered table registered table-IsFileStore (local_file ∷ []) before
      after recorded (codes "/local.acl")

-- The table after the rollback.
abbrev rolled_back : Rows
rolled_back = (restore_managed_acl_files (some table) (old_row ∷ []) after).1

restored : restore_managed_acl_files (some table) (old_row ∷ []) after ≡ (none, rolled_back)
unfolding restore_managed_acl_files record_managed_acl_files current release register fill erase
    text_eq
restored = refl

restore_managed_acl_files-registered_example :
    registered rolled_back (codes "/old.acl") ≡ registered before (codes "/old.acl")
restore_managed_acl_files-registered_example =
    restore_managed_acl_files-registered table registered table-IsFileStore before before after
      rolled_back (old_row ∷ []) refl restored (codes "/old.acl")

abbrev local_listener : ListenerSpecRow
local_listener = record {
  id = codes "local";
  options = (codes "acl_file", codes "/local.acl") ∷ [];
}

scope_wiring_issues_iff_example :
    (scope_wiring_issues (codes "/mosquitto.conf") (some (local_listener ∷ [])) (local_file ∷ [])
      ≡ some [])
    ↔ ((listener_files (local_file ∷ []) ≡ [])
        ⊎ ((codes "/mosquitto.conf" ≢ [])
            × All (Declares (local_listener ∷ [])) (listener_files (local_file ∷ []))))
scope_wiring_issues_iff_example =
    scope_wiring_issues_iff (codes "/mosquitto.conf") (local_listener ∷ []) (local_file ∷ [])

-- The file is wired, and a listener that is not known is an issue.
wired :
    scope_wiring_issues (codes "/mosquitto.conf") (some (local_listener ∷ [])) (local_file ∷ [])
    ≡ some []
unfolding scope_wiring_issues text_eq trim_space fill erase option_value
wired = refl

unknown_listener :
    scope_wiring_issues (codes "/mosquitto.conf") (some []) (local_file ∷ [])
    ≡ some (no_listener (codes "local") ∷ [])
unfolding scope_wiring_issues fill
unknown_listener = refl

abbrev made_plan : AclFilePlan
made_plan = record {
  global = empty_file;
  listener =
      record { path = codes "/local.acl"; body = codes "topic read a"; snapshot = codes "x" } ∷ [];
  remove = record { path = codes "/old.acl"; body = []; snapshot = codes "x" } ∷ [];
}

-- Every file holds an x.
abbrev read_x : Bytes → Option Bytes
read_x path = some (codes "x")

planned : plan_acl_files read_x [] (local_file ∷ []) (some (old_row ∷ [])) ≡ ok made_plan
unfolding plan_acl_files plan_files plan_removals sort_files insert_file body_of text_eq
planned = refl

plan_acl_files_lem_example : IsPlan read_x [] (local_file ∷ []) (old_row ∷ []) made_plan
plan_acl_files_lem_example =
    plan_acl_files_lem read_x [] (local_file ∷ []) (old_row ∷ []) made_plan planned
