-- ===== src/Deploy/Files/Writes.antt =====
-- internal/deploy/acl_scope.go: what an apply writes.
use mcm.Base.{
  List, [], ◌∷◌, ◌++◌, Option, none, some, ◌≡◌, refl, ◌∙◌, sym, ap, if◌then◌else◌, Bool-cases, inl,
  inr, Option-cases, append_assoc, append-nil,
}
use mcm.Base.Result.{ok}
use mcm.Text.{Bytes, text_eq}
use mcm.Acl.Rule.{is_listener}
use mcm.Dynsec.Model.{find_by}
use mcm.Dynsec.Table.Laws.{or_else}
use mcm.Deploy.{AclFileRender, listener_files}
use mcm.Deploy.Files.{AclFile, AclFilePlan, with_entry, entry_for, body_of, plan_files}

abbrev pub body_or : Bytes → Option (Bytes × Bytes) → Bytes
body_or b none = b
body_or b (some x) = x.1

-- The body that takes the place of the rendered one, where there is one for the path.
abbrev pub planned_body : List (Bytes × Bytes) → AclFileRender → Bytes
planned_body bodies f = body_or f.body (find_by (λ (x : Bytes × Bytes). x.0) f.path bodies)

-- The last file of the render that belongs to no listener.
abbrev pub last_global : List AclFileRender → Option AclFileRender
last_global [] = none
last_global (f ∷ fs) = or_else (last_global fs) (if is_listener f.scope then none else some f)

body_of_lem :
    (bodies : List (Bytes × Bytes)) (f : AclFileRender) → body_of bodies f ≡ planned_body bodies f
unfolding body_of
body_of_lem [] f = refl
body_of_lem ((k, b) ∷ bodies) f = elim (Bool-cases (text_eq k f.path)) [
  | inl e ↦ rw e refl
  | inr e ↦ rw e (body_of_lem bodies f)
]

module _ (read_file : Bytes → Option Bytes) (bodies : List (Bytes × Bytes)) where
  -- The file is written with its planned body, and its content by now is kept.
  abbrev pub Writes : AclFileRender → AclFile → Type 0
  Writes f g =
      (g.path ≡ f.path) × (g.body ≡ planned_body bodies f) × (read_file f.path ≡ some g.snapshot)

  -- The files are written one by one, in their order.
  abbrev pub WritesAll : List AclFileRender → List AclFile → Type 0
  WritesAll [] [] = Unit
  WritesAll (f ∷ fs) (g ∷ gs) = Writes f g × WritesAll fs gs
  WritesAll _ _ = ⊥

  abbrev pub WritesLast : Option AclFileRender → AclFile → AclFile → Type 0
  WritesLast none before g = g ≡ before
  WritesLast (some f) before g = Writes f g

  entry_for-Writes :
      (f : AclFileRender) (snapshot : Bytes)
      → read_file f.path ≡ some snapshot
      → Writes f (entry_for bodies f snapshot)
  entry_for-Writes f snapshot e = (refl, body_of_lem bodies f, e)

  -- A file of no listener is the one of the plan until another one comes.
  WritesLast-other :
      (o : Option AclFileRender) (f : AclFileRender) (before entry g : AclFile)
      → Writes f entry
      → WritesLast o entry g
      → WritesLast (or_else o (some f)) before g
  WritesLast-other none f before entry g w h = rw h w
  WritesLast-other (some x) f before entry g w h = h

  WritesLast-same :
      (o : Option AclFileRender) (before g : AclFile)
      → WritesLast o before g
      → WritesLast (or_else o none) before g
  WritesLast-same none before g h = h
  WritesLast-same (some x) before g h = h

  pub plan_files-Writes :
      (files : List AclFileRender) (p q : AclFilePlan)
      → plan_files read_file bodies files p ≡ ok q
      → ((gs : List AclFile) × (q.listener ≡ p.listener ++ gs)
          × WritesAll (listener_files files) gs)
        × WritesLast (last_global files) p.global q.global
  unfolding plan_files
  plan_files-Writes [] p q h =
      let same : p ≡ q = (cc) in
      (
        ([], rw (← same) (sym (append-nil p.listener)), tt),
        ap (λ (x : AclFilePlan). x.global) (sym same),
      )
  plan_files-Writes (f ∷ fs) p q h = elim (Option-cases (read_file f.path)) [
    | inl e ↦ let g = rw (e, plan_files) at h in cc
    | inr (snapshot, e) ↦
        let entry = entry_for bodies f snapshot in
        let written = entry_for-Writes f snapshot e in
        let ih = plan_files-Writes fs (with_entry f entry p) q (rw (e, plan_files) at h) in
        elim (Bool-cases (is_listener f.scope)) [
          | inl s ↦
              let ((gs, same, all), last) = rw s at ih in
              rw s (
                (entry ∷ gs, same ∙ append_assoc p.listener (entry ∷ []) gs, (written, all)),
                WritesLast-same (last_global fs) p.global q.global last,
              )
          | inr s ↦
              let (listed, last) = rw s at ih in
              rw s
                (listed, WritesLast-other (last_global fs) f p.global entry q.global written last)
        ]
  ]
