-- ===== src/AclFile/Compose/Insertion.antt =====
-- Where an entry is inserted, and the section that is open there.
use mcm.Base.{
  ℕ, zero, suc, ◌≤◌, Bool, true, false, not, ◌||◌, List, [], ◌∷◌, ◌++◌, length, if◌then◌else◌, ◌≡◌,
  refl, arith, Bool-cases, inl, inr, append_assoc, length-append, ◌∙◌,
}
use mcm.Base.Members.{All, All-append}
use mcm.Text.{Bytes, text_eq, text_eq_iff}
use mcm.AclFile.Entry.{Entry, Kind}
use mcm.AclFile.Entry.Section.{scope_after, InScope}
use mcm.AclFile.Document.{is_user_kind, is_topic_kind}
use mcm.AclFile.Document.Scopes.{WellScoped}
use mcm.AclFile.Compose.{
  insert_acl_entry, last_in_section, compose_user_insert_index, is_topic_of, anonymous_index,
}

-- The section that is open in front of the entry with the index `n`.
abbrev pub scope_at : ℕ → Bytes → List Entry → Bytes
scope_at zero scope es = scope
scope_at (suc n) scope [] = scope
scope_at (suc n) scope (e ∷ es) = scope_at n (scope_after e.kind e.principal scope) es

scope_after_other :
    (k : Kind) (p scope : Bytes) → is_user_kind k ≡ false → scope_after k p scope ≡ scope
scope_after_other Kind.user p scope h = cc
scope_after_other _ p scope h = refl

scope_after_user : (k : Kind) (p scope : Bytes) → is_user_kind k ≡ true → scope_after k p scope ≡ p
scope_after_user Kind.user p scope h = refl
scope_after_user _ p scope h = cc

-- An entry that is no user line and fits the section at its index leaves every other entry in its
-- section.
pub insert-WellScoped :
    (n : ℕ) (e : Entry) (scope : Bytes) (es : List Entry)
    → is_user_kind e.kind ≡ false
    → InScope (scope_at n scope es) e
    → WellScoped scope es
    → WellScoped scope (insert_acl_entry n e es)
unfolding insert_acl_entry
insert-WellScoped zero e scope es k i w = (i, rw (scope_after_other e.kind e.principal scope k) w)
insert-WellScoped (suc n) e scope [] k i w = (i, tt)
insert-WellScoped (suc n) e scope (x ∷ xs) k i w = (w.0, insert-WellScoped n e _ xs k i w.1)

-- A new section at the end: a user line and an entry of its section.
pub insert_header-WellScoped :
    (h e : Entry) (scope : Bytes) (es : List Entry)
    → h.kind ≡ Kind.user
    → InScope h.principal e
    → WellScoped scope es
    → WellScoped scope (insert_acl_entry (suc (length es)) e (insert_acl_entry (length es) h es))
unfolding insert_acl_entry
insert_header-WellScoped h e scope [] k i w =
    (record { principal_scoped = λ t. cc; rule_scoped = λ t r f. cc }, (rw k i, tt))
insert_header-WellScoped h e scope (x ∷ xs) k i w = (w.0, insert_header-WellScoped h e _ xs k i w.1)

-- While no user line is passed the section stays.
scope_at_same :
    (n : ℕ) (scope : Bytes) (pre rest : List Entry)
    → n ≤ length pre
    → All (λ e. is_user_kind e.kind ≡ false) pre
    → scope_at n scope (pre ++ rest) ≡ scope
scope_at_same zero scope pre rest h a = refl
scope_at_same (suc n) scope [] rest h a = absurd (omega arith)
scope_at_same (suc n) scope (e ∷ pre) rest h a =
    rw (scope_after_other e.kind e.principal scope a.0)
      (scope_at_same n scope pre rest (omega arith) a.1)

-- The loop over a section ends in that section.
section_scope :
    (test : Entry → Bool) (j last : ℕ) (scope : Bytes) (pre rest : List Entry)
    → j ≡ length pre
    → last ≤ j
    → All (λ e. is_user_kind e.kind ≡ false) pre
    → scope_at (last_in_section test j last rest) scope (pre ++ rest) ≡ scope
unfolding last_in_section
section_scope test j last scope pre [] e l a = scope_at_same last scope pre [] (omega arith) a
section_scope test j last scope pre (x ∷ rest) e l a = elim (Bool-cases (is_user_kind x.kind)) [
  | inl u ↦ rw u (scope_at_same last scope pre (x ∷ rest) (omega arith) a)
  | inr u ↦
      let longer =
        section_scope test (suc j) (if test x then suc j else last) scope (pre ++ (x ∷ [])) rest
          (omega (arith, length-append pre (x ∷ []))) (ground arith)
          (All-append (λ e. is_user_kind e.kind ≡ false) pre (x ∷ []) a (u, tt)) in
      rw u (rw (append_assoc pre (x ∷ []) rest) at longer)
]

pub anonymous_scope :
    (scope : Bytes) (es : List Entry) → scope_at (anonymous_index es) scope es ≡ scope
unfolding anonymous_index
anonymous_scope scope es =
    section_scope (λ (e : Entry). is_topic_kind e.kind) 0 0 scope [] es refl (omega arith) tt

-- Without a new header the index lies in the section of the principal.
pub user_scope :
    (p scope : Bytes) (es : List Entry)
    → (compose_user_insert_index p es).1 ≡ false
    → scope_at (compose_user_insert_index p es).0 scope es ≡ p
unfolding compose_user_insert_index
user_scope p scope [] h = cc
user_scope p scope (e ∷ es) h =
    elim (Bool-cases (not (is_user_kind e.kind) || not (text_eq e.principal p))) [
      | inl other ↦ rw other (user_scope p _ es (rw other at h))
      | inr mine ↦ rw mine (
          section_scope (is_topic_of p) 0 0 (scope_after e.kind e.principal scope) [] es refl
            (omega arith) tt
          ∙ scope_after_user e.kind e.principal scope (ground arith)
          ∙ (text_eq_iff e.principal p).0 (ground arith))
    ]

-- With a new header the index is the end.
pub header_index :
    (p : Bytes) (es : List Entry)
    → (compose_user_insert_index p es).1 ≡ true
    → (compose_user_insert_index p es).0 ≡ length es
unfolding compose_user_insert_index
header_index p [] h = refl
header_index p (e ∷ es) h = ground (arith, header_index p es)
