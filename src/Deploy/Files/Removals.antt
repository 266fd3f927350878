-- ===== src/Deploy/Files/Removals.antt =====
-- internal/deploy/acl_scope.go: which files an apply writes and which it removes.
use mcm.Base.{
  List, [], ◌∷◌, Option, some, ◌≡◌, refl, ◌∙◌, sym, true, false, Bool, not, ◌&&◌, ◌||◌, Bool-cases,
  inl, inr, Option-cases,
}
use mcm.Base.Result.{Result, ok, err}
use mcm.Text.{Bytes, text_eq, text_eq_iff, text_lt}
use mcm.Dynsec.Model.{find_by, is_found}
use mcm.Deploy.{AclFileRender, listener_files}
use mcm.Deploy.Registry.{ManagedAclFile, find_row}
use mcm.Base.Members.{All}
use mcm.Deploy.Files.Writes.{WritesAll, WritesLast, last_global, plan_files-Writes}
use mcm.Deploy.Files.{
  empty_file, AclFile, AclFilePlan, PlanError, is_rendered, insert_file, sort_files, empty_plan,
  plan_files, plan_removals, removal, onto_removals, with_removals, after_files, plan_acl_files,
}

abbrev pub is_removed : List AclFile → Bytes → Bool
is_removed fs k = is_found (find_by (λ (f : AclFile). f.path) k fs)

is_removed-cons :
    (f : AclFile) (fs : List AclFile) (k : Bytes)
    → is_removed (f ∷ fs) k ≡ (text_eq f.path k || is_removed fs k)
is_removed-cons f fs k = elim (Bool-cases (text_eq f.path k)) [
  | inl e ↦ rw e refl
  | inr e ↦ rw e refl
]

is_removed-insert_file :
    (f : AclFile) (fs : List AclFile) (k : Bytes)
    → is_removed (insert_file f fs) k ≡ (text_eq f.path k || is_removed fs k)
unfolding insert_file
is_removed-insert_file f [] k = is_removed-cons f [] k
is_removed-insert_file f (g ∷ gs) k = elim (Bool-cases (text_lt g.path f.path)) [
  | inl e ↦
      rw
        (
          e,
          is_removed-cons g (insert_file f gs) k,
          is_removed-cons g gs k,
          is_removed-insert_file f gs k,
        )
        (swap (text_eq g.path k) (text_eq f.path k) (is_removed gs k))
  | inr e ↦ rw e (is_removed-cons f (g ∷ gs) k)
]
  where
    swap : (a b c : Bool) → (a || (b || c)) ≡ (b || (a || c))
    swap true true c = refl
    swap true false c = refl
    swap false b c = refl

is_removed-sort_files :
    (fs : List AclFile) (k : Bytes) → is_removed (sort_files fs) k ≡ is_removed fs k
unfolding sort_files
is_removed-sort_files [] k = refl
is_removed-sort_files (f ∷ fs) k =
    is_removed-insert_file f (sort_files fs) k
    ∙ rw (is_removed-sort_files fs k) (sym (is_removed-cons f fs k))

insert_file-All :
    (P : AclFile → Type 0) (f : AclFile) (fs : List AclFile)
    → P f
    → All P fs
    → All P (insert_file f fs)
unfolding insert_file
insert_file-All P f [] p h = (p, tt)
insert_file-All P f (g ∷ gs) p h = elim (Bool-cases (text_lt g.path f.path)) [
  | inl e ↦ rw e (h.0, insert_file-All P f gs p h.1)
  | inr e ↦ rw e (p, h)
]

sort_files-All : (P : AclFile → Type 0) (fs : List AclFile) → All P fs → All P (sort_files fs)
unfolding sort_files
sort_files-All P [] h = tt
sort_files-All P (f ∷ fs) h = insert_file-All P f (sort_files fs) h.0 (sort_files-All P fs h.1)

and_false : (b : Bool) → (b && not true) ≡ false
and_false true = refl
and_false false = refl

onto_cases :
    (path snapshot : Bytes) (fs : List AclFile) (r : Result PlanError (List AclFile))
    → onto_removals path snapshot r ≡ ok fs
    → (gs : List AclFile) × (r ≡ ok gs) × (fs ≡ removal path snapshot ∷ gs)
onto_cases path snapshot fs (err e) h = cc
onto_cases path snapshot fs (ok gs) h =
    let same : removal path snapshot ∷ gs ≡ fs = (cc) in (gs, refl, sym same)

module _ (read_file : Bytes → Option Bytes) where
  is_removed-plan_removals :
      (files : List AclFileRender) (rows : List ManagedAclFile) (fs : List AclFile)
      → plan_removals read_file files rows ≡ ok fs
      → (k : Bytes) → is_removed fs k ≡ (is_found (find_row k rows) && not (is_rendered files k))
  unfolding plan_removals
  is_removed-plan_removals files [] fs h k = let same : [] ≡ fs = (cc) in rw (← same) refl
  is_removed-plan_removals files (r ∷ rows) fs h k = elim (Bool-cases (is_rendered files r.path)) [
    | inl e ↦
        let ih = is_removed-plan_removals files rows fs (rw e at h) k in
        elim (Bool-cases (text_eq r.path k)) [
          | inl s ↦
              let there : is_rendered files k ≡ true = rw ((text_eq_iff r.path k).0 s) at e in
              ih ∙ rw (s, there) (and_false (is_found (find_row k rows)))
          | inr s ↦ rw s ih
        ]
    | inr e ↦ elim (Option-cases (read_file r.path)) [
      | inl f ↦ let g = rw (e, f) at h in cc
      | inr (snapshot, f) ↦
          let taken : onto_removals r.path snapshot (plan_removals read_file files rows) ≡ ok fs =
            rw (e, f, plan_removals) at h in
          let (gs, rest, same) =
            onto_cases r.path snapshot fs (plan_removals read_file files rows) taken in
          let ih = is_removed-plan_removals files rows gs rest k in
          rw (same, is_removed-cons (removal r.path snapshot) gs k)
            (elim (Bool-cases (text_eq r.path k)) [
              | inl s ↦
                  let gone : is_rendered files k ≡ false = rw ((text_eq_iff r.path k).0 s) at e in
                  rw (s, gone) refl
              | inr s ↦ rw s ih
            ])
    ]
  ]

  -- What is removed has no body, and its content by now is kept.
  abbrev pub IsRemoval : AclFile → Type 0
  IsRemoval g = (g.body ≡ []) × (read_file g.path ≡ some g.snapshot)

  plan_removals-IsRemoval :
      (files : List AclFileRender) (rows : List ManagedAclFile) (fs : List AclFile)
      → plan_removals read_file files rows ≡ ok fs
      → All IsRemoval fs
  unfolding plan_removals
  plan_removals-IsRemoval files [] fs h = let same : [] ≡ fs = (cc) in rw (← same) tt
  plan_removals-IsRemoval files (r ∷ rows) fs h = elim (Bool-cases (is_rendered files r.path)) [
    | inl e ↦ plan_removals-IsRemoval files rows fs (rw e at h)
    | inr e ↦ elim (Option-cases (read_file r.path)) [
      | inl f ↦ let g = rw (e, f) at h in cc
      | inr (snapshot, f) ↦
          let taken : onto_removals r.path snapshot (plan_removals read_file files rows) ≡ ok fs =
            rw (e, f, plan_removals) at h in
          let (gs, rest, same) =
            onto_cases r.path snapshot fs (plan_removals read_file files rows) taken in
          rw same ((refl, f), plan_removals-IsRemoval files rows gs rest)
    ]
  ]

  -- What a plan has to be: it writes the listener files, and the last file of no listener, and removes
  -- the registered paths without a file.
  pub record IsPlan (bodies : List (Bytes × Bytes)) (files : List AclFileRender)
      (rows : List ManagedAclFile) (p : AclFilePlan) : Type 0 where
    pub listeners_written : WritesAll read_file bodies (listener_files files) p.listener
    pub global_written : WritesLast read_file bodies (last_global files) empty_file p.global
    pub removed_iff :
        (k : Bytes)
        → is_removed p.remove k ≡ (is_found (find_row k rows) && not (is_rendered files k))
    pub removals_kept : All IsRemoval p.remove

  -- Where the plan of an apply is made, it writes the files of the render that belong to listeners, one
  -- by one in their order, and the last one that belongs to none: each with the body that is given for
  -- its path, or else the rendered one. It removes a path exactly if it is registered and no file of the
  -- render has it. Of every file it keeps the content that was read.
  pub plan_acl_files_lem :
      (bodies : List (Bytes × Bytes)) (files : List AclFileRender) (rows : List ManagedAclFile)
      (p : AclFilePlan)
      → plan_acl_files read_file bodies files (some rows) ≡ ok p
      → IsPlan bodies files rows p
  unfolding plan_acl_files
  plan_acl_files_lem bodies files rows p h =
      go (plan_files read_file bodies files empty_plan) refl h
    where
      removed :
          (q : AclFilePlan) (r : Result PlanError (List AclFile))
          → with_removals q r ≡ ok p
          → (fs : List AclFile) × (r ≡ ok fs) × (record q { remove = sort_files fs } ≡ p)
      removed q (err e) g = cc
      removed q (ok fs) g = (fs, refl, cc)

      go :
          (r : Result PlanError AclFilePlan)
          → plan_files read_file bodies files empty_plan ≡ r
          → after_files read_file files (some rows) r ≡ ok p
          → IsPlan bodies files rows p
      go (err e) f g = cc
      go (ok q) f g =
          let (fs, made, same) = removed q (plan_removals read_file files rows) g in
          let ((gs, listed, all), last) = plan_files-Writes read_file bodies files empty_plan q f in
          rw (← same) (record {
            listeners_written = rw listed all;
            global_written = last;
            removed_iff =
                λ k. is_removed-sort_files fs k ∙ is_removed-plan_removals files rows fs made k;
            removals_kept =
                sort_files-All IsRemoval fs (plan_removals-IsRemoval files rows fs made);
          })
