-- ===== src/Acl/Validate/Topic.antt =====
-- The topic filters that the validation accepts.
use mcm.Base.{
  ℕ, true, false, List, [], ◌∷◌, none, ◌≡◌, ◌≢◌, ◌↔◌, refl, arith, is_empty, any, Bool-cases, inl,
  inr, not_true→false,
}
use mcm.Base.Members.{Memᴰ, any_witness, any_of_mem}
use mcm.Text.{Bytes, text_eq_iff, has_byte, runes, is_control, mem-runes, has_byte_iff}
use mcm.Acl.Levels.{hash, plus, levels}
use mcm.Acl.Validate.{contains_control_character, check_levels, validate_topic_filter}

-- A "#" is a level of its own and the last one; a "+" is a level of its own.
abbrev pub IsFilterLevels : List Bytes → Type 0
IsFilterLevels [] = Unit
IsFilterLevels (l ∷ ls) =
    (Memᴰ b'#' l → (l ≡ hash) × (ls ≡ [])) × (Memᴰ b'+' l → l ≡ plus) × IsFilterLevels ls

pub record IsFilter (filter : Bytes) : Type 0 where
  pub nonempty : filter ≢ []
  pub no_control : (r : ℕ) → Memᴰ r (runes filter) → is_control r ≡ false
  pub wildcards : IsFilterLevels (levels filter)

is_empty→nil : {A : Type 0} (xs : List A) → is_empty xs ≡ true → xs ≡ []
is_empty→nil [] h = refl
is_empty→nil (x ∷ xs) h = cc

level_hash :
    (l : Bytes) (ls : List Bytes)
    → check_levels (l ∷ ls) ≡ none
    → Memᴰ b'#' l
    → (l ≡ hash) × (ls ≡ [])
unfolding check_levels
level_hash l ls h m =
    let has = (has_byte_iff b'#' l).1 m in
    (ground (arith, text_eq_iff l hash), is_empty→nil ls (ground arith))

level_plus : (l : Bytes) (ls : List Bytes) → check_levels (l ∷ ls) ≡ none → Memᴰ b'+' l → l ≡ plus
unfolding check_levels
level_plus l ls h m = let has = (has_byte_iff b'+' l).1 m in ground (arith, text_eq_iff l plus)

level_tail : (l : Bytes) (ls : List Bytes) → check_levels (l ∷ ls) ≡ none → check_levels ls ≡ none
unfolding check_levels
level_tail l ls h = ground arith

check_levels→IsFilterLevels : (ls : List Bytes) → check_levels ls ≡ none → IsFilterLevels ls
check_levels→IsFilterLevels [] h = tt
check_levels→IsFilterLevels (l ∷ ls) h =
    (level_hash l ls h, level_plus l ls h, check_levels→IsFilterLevels ls (level_tail l ls h))

IsFilterLevels→check_levels : (ls : List Bytes) → IsFilterLevels ls → check_levels ls ≡ none
unfolding check_levels
IsFilterLevels→check_levels [] v = refl
IsFilterLevels→check_levels (l ∷ ls) v =
    let rest = IsFilterLevels→check_levels ls v.2 in
    elim (Bool-cases (has_byte b'#' l)) [
      | inl h ↦
          let alone = v.0 ((has_byte_iff b'#' l).0 h) in
          let whole = (text_eq_iff l hash).1 alone.0 in
          let last : is_empty ls ≡ true = rw alone.1 in
          elim (Bool-cases (has_byte b'+' l)) [
            | inl p ↦
                let w = (text_eq_iff l plus).1 (v.1 ((has_byte_iff b'+' l).0 p)) in ground arith
            | inr p ↦ ground arith
          ]
      | inr h ↦ elim (Bool-cases (has_byte b'+' l)) [
        | inl p ↦ let w = (text_eq_iff l plus).1 (v.1 ((has_byte_iff b'+' l).0 p)) in ground arith
        | inr p ↦ ground arith
      ]
    ]

pub contains_control_character_iff :
    (s : Bytes)
    → (contains_control_character s ≡ false) ↔ ((r : ℕ) → Memᴰ r (runes s) → is_control r ≡ false)
unfolding contains_control_character
contains_control_character_iff s = (
  λ h r m.
      not_true→false (is_control r) (λ e. let found = any_of_mem is_control (runes s) m e in cc),
  λ all_plain.
      not_true→false (any is_control (runes s))
        (λ e. let w = any_witness is_control (runes s) e in let p = all_plain w.0 w.1 in cc),
)

-- A topic filter is accepted exactly when it is not empty, no rune of it is a control character, and
-- its wildcards stand as MQTT wants them.
pub validate_topic_filter_iff :
    (filter : Bytes) → (validate_topic_filter filter ≡ none) ↔ IsFilter filter
unfolding validate_topic_filter
validate_topic_filter_iff filter = (
  λ h. record {
    nonempty = λ e. ground arith;
    no_control = (contains_control_character_iff filter).0 (ground arith);
    wildcards = check_levels→IsFilterLevels (levels filter) (ground arith);
  },
  λ v.
      let plain = (contains_control_character_iff filter).1 v.no_control in
      let no_nul : has_byte 0 filter ≡ false = not_true→false (has_byte 0 filter) (λ e.
        let p = v.no_control 0 (mem-runes filter (omega arith) ((has_byte_iff 0 filter).0 e)) in
        cc) in
      let good = IsFilterLevels→check_levels (levels filter) v.wildcards in ground arith,
)
