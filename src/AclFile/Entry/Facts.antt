-- ===== src/AclFile/Entry/Facts.antt =====
-- What every read line keeps: its text, and the scope that it stands in.
use mcm.Base.{List, [], ◌∷◌, ◌≡◌, refl, arith, inl, inr, Bool-cases}
use mcm.Text.{Bytes, codes, trim_space, fields, text_eq, to_lower}
use mcm.AclFile.Entry.{parse_acl_entry, directive_entry, user_entry, topic_entry, pattern_entry}

user_entry-raw : (raw scope : Bytes) (ws : List Bytes) → (user_entry raw scope ws).0.raw ≡ raw
unfolding user_entry
user_entry-raw raw scope [] = refl
user_entry-raw raw scope (w ∷ []) = refl
user_entry-raw raw scope (w ∷ p ∷ []) = refl
user_entry-raw raw scope (w ∷ p ∷ q ∷ ws) = refl

topic_entry-raw : (raw scope : Bytes) (ws : List Bytes) → (topic_entry raw scope ws).raw ≡ raw
unfolding topic_entry
topic_entry-raw raw scope [] = refl
topic_entry-raw raw scope (w ∷ []) = refl
topic_entry-raw raw scope (w ∷ p ∷ []) = refl
topic_entry-raw raw scope (w ∷ p ∷ f ∷ fs) = refl

pattern_entry-raw : (raw : Bytes) (ws : List Bytes) → (pattern_entry raw ws).raw ≡ raw
unfolding pattern_entry
pattern_entry-raw raw [] = refl
pattern_entry-raw raw (w ∷ []) = refl
pattern_entry-raw raw (w ∷ p ∷ []) = refl
pattern_entry-raw raw (w ∷ p ∷ f ∷ fs) = refl

module _ (raw scope : Bytes) where
  directive_entry-raw : (ws : List Bytes) → (directive_entry raw scope ws).0.raw ≡ raw
  unfolding directive_entry
  directive_entry-raw [] = refl
  directive_entry-raw (w ∷ ws) = elim (Bool-cases (text_eq (to_lower w) (codes "user"))) [
    | inl u ↦ rw u (user_entry-raw raw scope (w ∷ ws))
    | inr u ↦ elim (Bool-cases (text_eq (to_lower w) (codes "topic"))) [
      | inl t ↦ rw (u, t) (topic_entry-raw raw scope (w ∷ ws))
      | inr t ↦ elim (Bool-cases (text_eq (to_lower w) (codes "pattern"))) [
        | inl p ↦ rw (u, t, p) (pattern_entry-raw raw (w ∷ ws))
        | inr p ↦ rw (u, t, p)
      ]
    ]
  ]

  -- An entry keeps its line.
  pub parse_acl_entry-raw : (parse_acl_entry raw scope).0.raw ≡ raw
  unfolding parse_acl_entry
  parse_acl_entry-raw = ground (arith, directive_entry-raw (fields (trim_space raw)))
