-- ===== src/AclFile/Body/Agreement.antt =====
-- internal/mosquitto/acl.go and acldoc.go: the two readers of ACL files agree.
use mcm.Base.{
  Bool, true, false, List, [], ◌∷◌, ◌++◌, is_empty, if◌then◌else◌, keep, map, ◌≡◌, refl, ap, ◌∙◌,
  inl, inr, Bool-cases, Option, none, some, ◌==◌, keep-append,
}
use mcm.Text.{Bytes, codes, text_eq, has_prefix, trim_space, fields, to_lower}
use mcm.Text.Split.{split, join}
use mcm.Acl.Rule.{effective_selector, effective_scope, Rule, Selector, Scope, Permission}
use mcm.Acl.Validate.{
  topic_problems, scope_problems, principal_problems, supported_mosquitto_version, Problem,
  validate_rule, validate_rule_for_mosquitto_version, permission_problems,
}
use mcm.AclFile.Entry.{
  Entry, parse_acl_entry, directive_entry, build_acl_rule, checked_rule, is_unset, line_rule,
  mosquitto_perm_to_acl_perm, topic_entry, pattern_entry, user_entry,
}
use mcm.AclFile.Document.{
  newline, onto_rules, rules_of, typed_rules, parse_entries, parse_acl_document, drop_last,
  ends_in_newline, is_unknown_kind,
}
use mcm.AclFile.Body.{global_rule, body_directive, body_line, body_lines, parse_acl_file}

abbrev pub to_global : Rule → Rule
to_global r = record r { scope = Scope.global }

abbrev pub is_valid : Rule → Bool
is_valid r = is_empty (validate_rule r)

append-not_empty : {A : Type 0} (xs ys : List A) → is_empty ys ≡ false → is_empty (xs ++ ys) ≡ false
append-not_empty [] ys h = h
append-not_empty (x ∷ xs) ys h = refl

-- Validation reads the effective scope, so a missing scope is as good as the global one.
to_global-is_valid :
    (selector : Selector) (principal filter : Bytes) (p : Permission)
    → is_valid (to_global (line_rule selector principal filter p))
      ≡ is_valid (line_rule selector principal filter p)
unfolding validate_rule validate_rule_for_mosquitto_version
to_global-is_valid selector principal filter p = refl

unset-is_valid : (r : Rule) → is_unset r.permission ≡ true → is_valid r ≡ false
unfolding validate_rule validate_rule_for_mosquitto_version permission_problems
unset-is_valid r h =
    let topic = topic_problems (effective_selector r) r.topic_filter in
    let perm = permission_problems r.permission supported_mosquitto_version in
    let scope = scope_problems (effective_scope r) r.listener_id in
    append-not_empty (principal_problems (effective_selector r) r.principal)
      (scope ++ (topic ++ perm))
      (append-not_empty scope (topic ++ perm)
        (append-not_empty topic perm (refused r.permission h)))
  where
    refused :
        (p : Permission)
        → is_unset p ≡ true
        → is_empty (permission_problems p supported_mosquitto_version) ≡ false
    refused Permission.unset h = refl
    refused _ h = cc

checked-is_valid :
    (r : Rule)
    → (if is_valid r then to_global r ∷ [] else [])
      ≡ map to_global (onto_rules (checked_rule (validate_rule r) r).0 [])
checked-is_valid r = go (validate_rule r)
  where
    go :
        (ps : List Problem)
        → (if is_empty ps then to_global r ∷ [] else [])
          ≡ map to_global (onto_rules (checked_rule ps r).0 [])
    go [] = refl
    go (p ∷ ps) = refl

-- A rule that a line gives is kept by one reader when the other's is valid.
build-is_valid :
    (selector : Selector) (principal permission : Bytes) (fs : List Bytes)
    → keep is_valid (global_rule selector principal permission fs ∷ [])
      ≡ map to_global
          (onto_rules (build_acl_rule selector principal permission (join b' ' fs)).0 [])
unfolding build_acl_rule
build-is_valid selector principal permission fs =
    let p = mosquitto_perm_to_acl_perm (to_lower permission) in
    let r = line_rule selector principal (join b' ' fs) p in
    elim (Bool-cases (is_unset p)) [
      | inl e ↦ rw (e, unset-is_valid (to_global r) e) refl
      | inr e ↦ rw (e, to_global-is_valid selector principal (join b' ' fs) p) (checked-is_valid r)
    ]

-- The parts of a text that ends in a newline end with an empty part.
split_terminated :
    (s : Bytes)
    → ends_in_newline s ≡ true
    → (w : Bytes) × (ws : List Bytes) × (split newline s ≡ w ∷ (ws ++ ([] ∷ [])))
unfolding ends_in_newline split
split_terminated [] h = cc
split_terminated (c ∷ []) h = ([], [], rw h refl)
split_terminated (c ∷ d ∷ s) h =
    let (w, ws, e) = split_terminated (d ∷ s) h in
    elim (Bool-cases (c == newline)) [
      | inl n ↦ ([], w ∷ ws, rw (n, e) refl)
      | inr n ↦ (c ∷ w, ws, rw (n, e) refl)
    ]

drop_last-append : (ls : List Bytes) (l : Bytes) → drop_last (ls ++ (l ∷ [])) ≡ ls
unfolding drop_last
drop_last-append [] l = refl
drop_last-append (k ∷ []) l = refl
drop_last-append (k ∷ j ∷ ls) l = ap (λ (t : List Bytes). k ∷ t) (drop_last-append (j ∷ ls) l)

directive_line :
    (raw scope : Bytes) (ws : List Bytes)
    → is_unknown_kind (directive_entry raw scope ws).0.kind ≡ false
    → (keep is_valid (body_directive scope ws).0
        ≡ map to_global (onto_rules (directive_entry raw scope ws).0.rule []))
      × ((body_directive scope ws).1 ≡ (directive_entry raw scope ws).1)
unfolding directive_entry topic_entry pattern_entry user_entry
directive_line raw scope [] known = (refl, refl)
directive_line raw scope (word ∷ []) known =
    elim (Bool-cases (text_eq (to_lower word) (codes "user"))) [
      | inl u ↦ let f = rw u at known in cc
      | inr u ↦ elim (Bool-cases (text_eq (to_lower word) (codes "topic"))) [
        | inl t ↦ let f = rw (u, t) at known in cc
        | inr t ↦ elim (Bool-cases (text_eq (to_lower word) (codes "pattern"))) [
          | inl p ↦ let f = rw (u, t, p) at known in cc
          | inr p ↦ let f = rw (u, t, p) at known in cc
        ]
      ]
    ]
directive_line raw scope (word ∷ second ∷ []) known =
    elim (Bool-cases (text_eq (to_lower word) (codes "user"))) [
      | inl u ↦ rw u (refl, refl)
      | inr u ↦ elim (Bool-cases (text_eq (to_lower word) (codes "topic"))) [
        | inl t ↦ let f = rw (u, t) at known in cc
        | inr t ↦ elim (Bool-cases (text_eq (to_lower word) (codes "pattern"))) [
          | inl p ↦ let f = rw (u, t, p) at known in cc
          | inr p ↦ let f = rw (u, t, p) at known in cc
        ]
      ]
    ]
directive_line raw scope (word ∷ second ∷ g ∷ gs) known =
    elim (Bool-cases (text_eq (to_lower word) (codes "user"))) [
      | inl u ↦ let f = rw u at known in cc
      | inr u ↦ elim (Bool-cases (text_eq (to_lower word) (codes "topic"))) [
        | inl t ↦
            rw (u, t)
              (
                build-is_valid (if is_empty scope then Selector.anonymous else Selector.user) scope
                    second (g ∷ gs),
                refl,
              )
        | inr t ↦ elim (Bool-cases (text_eq (to_lower word) (codes "pattern"))) [
          | inl p ↦ rw (u, t, p) (build-is_valid Selector.pattern (codes "") second (g ∷ gs), refl)
          | inr p ↦ let f = rw (u, t, p) at known in cc
        ]
      ]
    ]

entry_line :
    (raw scope : Bytes)
    → is_unknown_kind (parse_acl_entry raw scope).0.kind ≡ false
    → (keep is_valid (body_line scope raw).0
        ≡ map to_global (onto_rules (parse_acl_entry raw scope).0.rule []))
      × ((body_line scope raw).1 ≡ (parse_acl_entry raw scope).1)
unfolding parse_acl_entry body_line
entry_line raw scope known = elim (Bool-cases (is_empty (trim_space raw))) [
  | inl e ↦ rw e (refl, refl)
  | inr e ↦ elim (Bool-cases (has_prefix (codes "#") (trim_space raw))) [
    | inl f ↦ rw (e, f) (refl, refl)
    | inr f ↦ rw (e, f) (directive_line raw scope (fields (trim_space raw)) (rw (e, f) at known))
  ]
]

map-onto_rules :
    (o : Option Rule) (rs : List Rule)
    → map to_global (onto_rules o rs) ≡ map to_global (onto_rules o []) ++ map to_global rs
map-onto_rules none rs = refl
map-onto_rules (some r) rs = refl

-- Every line has a meaning to the reader of documents.
abbrev pub all_known : List Entry → Bool
all_known [] = true
all_known (e ∷ es) = if is_unknown_kind e.kind then false else all_known es

entries_agree :
    (scope : Bytes) (ls : List Bytes)
    → all_known (parse_entries scope ls) ≡ true
    → keep is_valid (body_lines scope ls) ≡ map to_global (rules_of (parse_entries scope ls))
unfolding parse_entries body_lines rules_of
entries_agree scope [] h = refl
entries_agree scope (l ∷ ls) h =
    elim (Bool-cases (is_unknown_kind (parse_acl_entry l scope).0.kind)) [
      | inl u ↦ let f = rw u at h in cc
      | inr u ↦
          let (same, next) = entry_line l scope u in
          keep-append is_valid (body_line scope l).0 (body_lines (body_line scope l).1 ls)
          ∙ rw
              (
                same,
                next,
                map-onto_rules (parse_acl_entry l scope).0.rule
                    (rules_of (parse_entries (parse_acl_entry l scope).1 ls)),
                entries_agree (parse_acl_entry l scope).1 ls (rw u at h),
              )
              refl
    ]

body_lines-append :
    (user : Bytes) (ls : List Bytes) → body_lines user (ls ++ ([] ∷ [])) ≡ body_lines user ls
unfolding body_lines body_line trim_space
body_lines-append user [] = refl
body_lines-append user (l ∷ ls) =
    ap (λ (rs : List Rule). (body_line user l).0 ++ rs) (body_lines-append (body_line user l).1 ls)

parse_acl_file-empty : parse_acl_file [] ≡ []
unfolding parse_acl_file split body_lines body_line trim_space
parse_acl_file-empty = refl

-- Where every line of a file has a meaning to `ParseACLDocument`, the valid ones among the rules of
-- `ParseACLFile` are the typed rules of the document, in their order and with the global scope.
pub parse_acl_file-typed_rules :
    (body : Bytes)
    → all_known (parse_acl_document body).entries ≡ true
    → keep is_valid (parse_acl_file body) ≡ map to_global (typed_rules (parse_acl_document body))
unfolding parse_acl_file parse_acl_document typed_rules
parse_acl_file-typed_rules [] h = rw parse_acl_file-empty refl
parse_acl_file-typed_rules (c ∷ s) h = elim (Bool-cases (ends_in_newline (c ∷ s))) [
  | inl t ↦
      let (w, ws, e) = split_terminated (c ∷ s) t in
      let dropped : drop_last (split newline (c ∷ s)) ≡ w ∷ ws =
        rw e (drop_last-append (w ∷ ws) []) in
      let known : all_known (parse_entries (codes "") (w ∷ ws)) ≡ true = rw (t, dropped) at h in
      let read : body_lines (codes "") (split newline (c ∷ s)) ≡ body_lines (codes "") (w ∷ ws) =
        rw e (body_lines-append (codes "") (w ∷ ws)) in
      rw (t, dropped, read) (entries_agree (codes "") (w ∷ ws) known)
  | inr t ↦ rw t (entries_agree (codes "") (split newline (c ∷ s)) (rw t at h))
]
