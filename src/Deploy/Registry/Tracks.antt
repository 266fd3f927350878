-- ===== src/Deploy/Registry/Tracks.antt =====
-- internal/deploy/acl_scope.go: what the registry holds after a deployment and after its rollback.
use mcm.Base.{
  Bool, true, false, List, [], ◌∷◌, Option, none, some, map, if◌then◌else◌, ◌≡◌, refl, sym, ap, ◌∙◌,
  Bool-cases, inl, inr,
}
use mcm.Text.{Bytes, text_eq, text_eq_iff}
use mcm.Dynsec.Model.{is_found}
use mcm.Dynsec.Table.Laws.{find_last, or_else}
use mcm.Dynsec.Table.Distinct.{filled, find_last-IsDistinct, fill-IsDistinct}
use mcm.Dynsec.Run.{IsDistinct}
use mcm.Deploy.{AclFileRender, listener_files}
use mcm.Deploy.Registry.{
  ManagedAclFile, Deletion, deleted, missing, failed, FileStore, RegistryError, find_row,
  after_deletion, release, after_entry, register, then_register, after_list, row_of, current,
  record_managed_acl_files, restore_managed_acl_files,
}

abbrev pub owner : Option ManagedAclFile → Option Bytes
owner none = none
owner (some r) = some r.listener_id

-- The last row of a path.
abbrev pub last_row : Bytes → List ManagedAclFile → Option ManagedAclFile
last_row k rows = find_last (λ (r : ManagedAclFile). r.path) k rows

-- The store is a table of files with the path for its key: `registered` says which listener a path has.
pub record IsFileStore {World : Type 0} (t : FileStore World)
    (registered : World → Bytes → Option Bytes) : Type 0 where
  pub list-registered :
      (w w' : World) (rows : List ManagedAclFile)
      → t.list w ≡ (some rows, w')
      → ((k : Bytes) → registered w' k ≡ registered w k)
        × ((k : Bytes) → owner (find_row k rows) ≡ registered w k)
        × IsDistinct (λ (r : ManagedAclFile). r.path) rows
  pub enter-registered :
      (p l : Bytes) (w w' : World)
      → t.enter p l w ≡ (true, w')
      → (k : Bytes) → registered w' k ≡ (if text_eq p k then some l else registered w k)
  pub delete-registered :
      (p : Bytes) (w w' : World)
      → t.delete p w ≡ (deleted, w')
      → (k : Bytes) → registered w' k ≡ (if text_eq p k then none else registered w k)
  pub missing-registered :
      (p : Bytes) (w w' : World)
      → t.delete p w ≡ (missing, w')
      → (registered w p ≡ none) × ((k : Bytes) → registered w' k ≡ registered w k)

is_found-last_row :
    (k : Bytes) (rows : List ManagedAclFile)
    → is_found (last_row k rows) ≡ is_found (find_row k rows)
is_found-last_row k [] = refl
is_found-last_row k (r ∷ rows) = elim (Bool-cases (text_eq r.path k)) [
  | inl e ↦ rw e (found (last_row k rows))
  | inr e ↦ rw e (same (last_row k rows) ∙ is_found-last_row k rows)
]
  where
    found : (o : Option ManagedAclFile) → is_found (or_else o (some r)) ≡ true
    found none = refl
    found (some q) = refl

    same : (o : Option ManagedAclFile) → is_found (or_else o none) ≡ is_found o
    same none = refl
    same (some q) = refl

same_branches : (b : Bool) (o : Option Bytes) → (if b then o else o) ≡ o
same_branches true o = refl
same_branches false o = refl

only_kept :
    (o q : Option ManagedAclFile) (a b : Option Bytes)
    → owner q ≡ a
    → b ≡ (if is_found o then a else if is_found q then none else a)
    → or_else (owner o) b ≡ owner o
only_kept (some x) q a b s f = refl
only_kept none none a b s f = f ∙ sym s
only_kept none (some y) a b s f = f

module _ {World : Type 0} (t : FileStore World) (registered : World → Bytes → Option Bytes)
    (is : IsFileStore t registered) where
  released :
      (p : Bytes) (w : World) (d : Deletion × World) (w' : World)
      (onward : World → Option RegistryError × World)
      → t.delete p w ≡ d
      → after_deletion t onward p d ≡ (none, w')
      → (onward d.1 ≡ (none, w'))
        × ((k : Bytes) → registered d.1 k ≡ (if text_eq p k then none else registered w k))
  released p w (deleted, w1) w' onward e h = (h, is.delete-registered p w w1 e)
  released p w (failed, w1) w' onward e h =
      let g : some _ ≡ none = ap (λ (q : Option RegistryError × World). q.0) h in cc
  released p w (missing, w1) w' onward e h =
      let law = is.missing-registered p w w1 e in
      (
        h,
        λ k. elim (Bool-cases (text_eq p k)) [
          | inl s ↦ rw s (law.1 k ∙ rw (← (text_eq_iff p k).0 s) law.0)
          | inr s ↦ rw s (law.1 k)
        ],
      )

  release-registered :
      (kept rows : List ManagedAclFile) (w w' : World)
      → release t kept rows w ≡ (none, w')
      → (k : Bytes)
      → registered w' k ≡ (
          if is_found (find_row k kept)
          then registered w k
          else if is_found (find_row k rows)
          then none
          else registered w k)
  unfolding release
  release-registered kept [] w w' h k =
      let same : w ≡ w' = ap (λ (q : Option RegistryError × World). q.1) h in
      rw (← same) (sym (same_branches (is_found (find_row k kept)) (registered w k)))
  release-registered kept (r ∷ rows) w w' h k =
      elim (Bool-cases (is_found (find_row r.path kept))) [
        | inl e ↦
            let ih = release-registered kept rows w w' (rw e at h) k in
            elim (Bool-cases (text_eq r.path k)) [
              | inl s ↦
                  let there : is_found (find_row k kept) ≡ true =
                    rw ((text_eq_iff r.path k).0 s) at e in
                  rw (s, there) (rw there at ih)
              | inr s ↦ rw s ih
            ]
        | inr e ↦
            let step =
              released r.path w (t.delete r.path w) w' (release t kept rows) refl (rw e at h) in
            let ih = release-registered kept rows (t.delete r.path w).1 w' step.0 k in
            elim (Bool-cases (text_eq r.path k)) [
              | inl s ↦
                  let gone : is_found (find_row k kept) ≡ false =
                    rw ((text_eq_iff r.path k).0 s) at e in
                  let emptied = rw s at (step.1 k) in
                  rw (s, gone)
                    (rw (gone, emptied) at ih ∙ same_branches (is_found (find_row k rows)) none)
              | inr s ↦ let kept_on = rw s at (step.1 k) in rw s (rw kept_on at ih)
            ]
      ]

  entered :
      (p l : Bytes) (w : World) (d : Bool × World) (w' : World)
      (onward : World → Option RegistryError × World)
      → t.enter p l w ≡ d
      → after_entry t onward p d ≡ (none, w')
      → (onward d.1 ≡ (none, w'))
        × ((k : Bytes) → registered d.1 k ≡ (if text_eq p k then some l else registered w k))
  entered p l w (true, w1) w' onward e h = (h, is.enter-registered p l w w1 e)
  entered p l w (false, w1) w' onward e h =
      let g : some _ ≡ none = ap (λ (q : Option RegistryError × World). q.0) h in cc

  register-registered :
      (rows : List ManagedAclFile) (w w' : World)
      → register t rows w ≡ (none, w')
      → (k : Bytes) → registered w' k ≡ or_else (owner (last_row k rows)) (registered w k)
  unfolding register
  register-registered [] w w' h k =
      ap (λ (q : Option RegistryError × World). registered q.1 k) (sym h)
  register-registered (r ∷ rows) w w' h k =
      let step =
        entered r.path r.listener_id w (t.enter r.path r.listener_id w) w' (register t rows) refl
          h in
      let ih = register-registered rows (t.enter r.path r.listener_id w).1 w' step.0 k in
      ih ∙ rw (step.1 k) (later (text_eq r.path k) (last_row k rows))
    where
      later :
          (b : Bool) (o : Option ManagedAclFile)
          → or_else (owner o) (if b then some r.listener_id else registered w k)
            ≡ or_else (owner (or_else o (if b then some r else none))) (registered w k)
      later true none = refl
      later false none = refl
      later b (some q) = refl

  -- What is kept is registered, and nothing else.
  synced :
      (kept : List ManagedAclFile) (w : World) (l : Option (List ManagedAclFile) × World)
      (w' : World)
      → t.list w ≡ l
      → after_list t kept l ≡ (none, w')
      → (k : Bytes) → registered w' k ≡ owner (last_row k kept)
  synced kept w (none, w1) w' e h k =
      let g : some _ ≡ none = ap (λ (q : Option RegistryError × World). q.0) h in cc
  synced kept w (some rows, w1) w' e h k = go (release t kept rows w1) refl h
    where
      go :
          (r : Option RegistryError × World)
          → release t kept rows w1 ≡ r
          → then_register t kept r ≡ (none, w')
          → registered w' k ≡ owner (last_row k kept)
      go (some x, w2) f h =
          let g : some _ ≡ none = ap (λ (q : Option RegistryError × World). q.0) h in cc
      go (none, w2) f h =
          let law = is.list-registered w w1 rows e in
          let freed = release-registered kept rows w1 w2 f k in
          let same : owner (find_row k rows) ≡ registered w1 k = law.1 k ∙ sym (law.0 k) in
          register-registered kept w2 w' h k
          ∙ only_kept (last_row k kept) (find_row k rows) (registered w1 k) (registered w2 k) same
              (rw (← is_found-last_row k kept) at freed)

-- Let the store be a table of files with the path for its key. Once the files of a render are recorded
-- without an error, a path is registered exactly if a listener file of the render has it, and for the
-- listener of the last such file.
pub record_managed_acl_files-registered :
    {World : Type 0} (t : FileStore World) (registered : World → Bytes → Option Bytes)
    → IsFileStore t registered
    → (files : List AclFileRender) (w w' : World)
    → record_managed_acl_files (some t) files w ≡ (none, w')
    → (path : Bytes)
    → registered w' path ≡ owner (last_row path (map row_of (listener_files files)))
unfolding record_managed_acl_files current
record_managed_acl_files-registered t registered is files w w' h path =
    synced t registered is (current files) w (t.list w) w' refl h path
    ∙ ap owner (
        find_last-IsDistinct (λ (r : ManagedAclFile). r.path) path (current files)
          (fill-IsDistinct (λ (r : ManagedAclFile). r.path) [] (map row_of (listener_files files))
            tt)
        ∙ filled (λ (r : ManagedAclFile). r.path) path (map row_of (listener_files files)))

-- Let the store be a table of files with the path for its key. Once the rows that were listed before a
-- deployment are restored without an error, each path has the listener that it had when they were
-- listed, whatever was done to the registry since.
pub restore_managed_acl_files-registered :
    {World : Type 0} (t : FileStore World) (registered : World → Bytes → Option Bytes)
    → IsFileStore t registered
    → (before listed since w' : World) (previous : List ManagedAclFile)
    → t.list before ≡ (some previous, listed)
    → restore_managed_acl_files (some t) previous since ≡ (none, w')
    → (path : Bytes) → registered w' path ≡ registered before path
unfolding restore_managed_acl_files
restore_managed_acl_files-registered t registered is before listed since w' previous e h path =
    let law = is.list-registered before listed previous e in
    synced t registered is previous since (t.list since) w' refl h path
    ∙ ap owner (find_last-IsDistinct (λ (r : ManagedAclFile). r.path) path previous law.2)
    ∙ law.1 path
