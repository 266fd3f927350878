-- ===== src/Deploy/Wiring/Wired.antt =====
-- internal/deploy/acl_scope.go: when the rules of single listeners take effect.
use mcm.Base.{
  List, [], ◌∷◌, ◌++◌, Option, none, some, flat_map, is_empty, if◌then◌else◌, ◌≡◌, ◌≢◌, ◌↔◌, ◌⊎◌,
  refl, Bool-cases, inl, inr,
}
use mcm.Base.Members.{All}
use mcm.Text.{Bytes, codes, text_eq, text_eq_iff, trim_space}
use mcm.Dynsec.Issue.{append-nil_iff, flat_map-nil_iff, All-iff}
use mcm.Dynsec.Table.Laws.{find_last}
use mcm.Dynsec.Table.Distinct.{filled}
use mcm.Deploy.{AclFileRender, listener_files}
use mcm.Deploy.Wiring.{
  ListenerSpecRow, option_value, WiringIssue, declared_issues, spec_issues, by_id, file_issues,
  conf_issues, listed_issues, scope_wiring_issues,
}

-- The last listener of that id declares the file.
abbrev pub Declares : List ListenerSpecRow → AclFileRender → Type 0
Declares specs f =
    (s : ListenerSpecRow) × (find_last (λ (r : ListenerSpecRow). r.id) f.listener_id specs ≡ some s)
    × (trim_space (option_value (codes "acl_file") s.options) ≢ [])
    × (trim_space (option_value (codes "acl_file") s.options) ≡ f.path)

declared_issues_iff :
    (f : AclFileRender) (d : Bytes) → (declared_issues f d ≡ []) ↔ ((d ≢ []) × (d ≡ f.path))
declared_issues_iff f [] = (λ h. cc, λ h. absurd (h.0 refl))
declared_issues_iff f (x ∷ xs) =
    let law = text_eq_iff (x ∷ xs) f.path in
    elim (Bool-cases (text_eq (x ∷ xs) f.path)) [
      | inl e ↦ rw e (λ h. (λ g. cc, law.0 e), λ h. refl)
      | inr e ↦ rw e (λ h. cc, λ h. let g = law.1 h.1 in cc)
    ]

spec_issues_iff :
    (f : AclFileRender) (o : Option ListenerSpecRow)
    → (spec_issues f o ≡ []) ↔ (
        (s : ListenerSpecRow) × (o ≡ some s)
        × (trim_space (option_value (codes "acl_file") s.options) ≢ [])
        × (trim_space (option_value (codes "acl_file") s.options) ≡ f.path))
spec_issues_iff f none = (λ h. cc, λ h. let g = h.1 in cc)
spec_issues_iff f (some s) =
    let law = declared_issues_iff f (trim_space (option_value (codes "acl_file") s.options)) in
    (
      λ h. let two = law.0 h in (s, refl, two.0, two.1),
      λ h. let e = h.1 in let same : s ≡ h.0 = (cc) in law.1 (rw same (h.2, h.3)),
    )

file_issues_iff :
    (specs : List ListenerSpecRow) (f : AclFileRender)
    → (file_issues (by_id specs) f ≡ []) ↔ Declares specs f
unfolding file_issues
file_issues_iff specs f =
    rw (filled (λ (s : ListenerSpecRow). s.id) f.listener_id specs)
      (spec_issues_iff f (find_last (λ (s : ListenerSpecRow). s.id) f.listener_id specs))

files_issues_iff :
    (specs : List ListenerSpecRow) (files : List AclFileRender)
    → (flat_map (file_issues (by_id specs)) files ≡ []) ↔ All (Declares specs) files
files_issues_iff specs files =
    let nothing = flat_map-nil_iff (file_issues (by_id specs)) files in
    let each = All-iff _ (Declares specs) files (file_issues_iff specs) in
    (λ h. each.0 (nothing.0 h), λ h. nothing.1 (each.1 h))

some-nil_iff : (xs : List WiringIssue) → (some xs ≡ some []) ↔ (xs ≡ [])
some-nil_iff [] = (λ h. refl, λ h. refl)
some-nil_iff (x ∷ xs) = (λ h. cc, λ h. cc)

managed_iff : (conf_path : Bytes) → (conf_issues conf_path ≡ []) ↔ (conf_path ≢ [])
managed_iff [] = (λ h. cc, λ h. absurd (h refl))
managed_iff (x ∷ xs) = (λ h g. cc, λ h. refl)

-- Where the listeners can be listed, the check of a deployment finds nothing exactly when the render
-- has no file of a listener, or the configuration of the broker is managed and each such file belongs
-- to a listener that declares its path as its access file. Of several listeners with one id the last
-- one counts.
pub scope_wiring_issues_iff :
    (conf_path : Bytes) (specs : List ListenerSpecRow) (files : List AclFileRender)
    → (scope_wiring_issues conf_path (some specs) files ≡ some []) ↔ (
        (listener_files files ≡ [])
        ⊎ ((conf_path ≢ []) × All (Declares specs) (listener_files files)))
unfolding scope_wiring_issues
scope_wiring_issues_iff conf_path specs files = go (listener_files files)
  where
    go :
        (fs : List AclFileRender)
        → ((if is_empty fs then some [] else listed_issues conf_path (some specs) fs) ≡ some [])
          ↔ ((fs ≡ []) ⊎ ((conf_path ≢ []) × All (Declares specs) fs))
    go [] = (λ h. inl refl, λ h. refl)
    go (f ∷ fs) =
        let issues = flat_map (file_issues (by_id specs)) (f ∷ fs) in
        let found = some-nil_iff (conf_issues conf_path ++ issues) in
        let both = append-nil_iff (conf_issues conf_path) issues in
        let wired = files_issues_iff specs (f ∷ fs) in
        let managed = managed_iff conf_path in
        (
          λ h. let two = both.0 (found.0 h) in inr (managed.0 two.0, wired.0 two.1),
          λ h. elim h [ inl e ↦ cc | inr (m, w) ↦ found.1 (both.1 (managed.1 m, wired.1 w)) ],
        )
