-- ===== src/Acl/Validate/Listener.antt =====
-- The listener references that the validation accepts.
use mcm.Base.{
  ℕ, ◌<◌, ◌≤◌, Bool, true, false, [], ◌∷◌, none, ◌≡◌, ◌≢◌, ◌↔◌, refl, arith, length, all, any,
}
use mcm.Base.Members.{All, Memᴰ, All-mem}
use mcm.Text.{
  Bytes, codes, text_eq_iff, has_byte, has_any, runes, is_control, all-runes, runes-ascii,
}
use mcm.Acl.Levels.{slash}
use mcm.Acl.Validate.{
  contains_control_character, is_reference_rune, max_listener_id_length, validate_listener_id,
}

-- The references that may name a file: letters, digits, dashes, underscores and dots, 1 to 64 of
-- them, and neither "." nor "..".
pub record IsReference (id : Bytes) : Type 0 where
  pub nonempty : id ≢ []
  pub short : length id ≤ max_listener_id_length
  pub alphabet : All (λ b. is_reference_rune b ≡ true) id
  pub not_dot : id ≢ codes "."
  pub not_dots : id ≢ codes ".."

all→All : (p : ℕ → Bool) (s : Bytes) → all p s ≡ true → All (λ b. p b ≡ true) s
all→All p [] h = tt
all→All p (b ∷ s) h = (ground arith, all→All p s (ground arith))

All→all : (p : ℕ → Bool) (s : Bytes) → All (λ b. p b ≡ true) s → all p s ≡ true
All→all p [] h = refl
All→all p (b ∷ s) h = rw h.0 (All→all p s h.1)

reference_low : (r : ℕ) → is_reference_rune r ≡ true → r < 128
reference_low r h = ground arith

All-low : (s : Bytes) → All (λ b. is_reference_rune b ≡ true) s → All (λ b. b < 128) s
All-low [] h = tt
All-low (b ∷ s) h = (reference_low b h.0, All-low s h.1)

no_control : (s : Bytes) → All (λ b. is_reference_rune b ≡ true) s → any is_control s ≡ false
no_control [] h = refl
no_control (b ∷ s) h =
    let plain : is_control b ≡ false = ground arith in rw plain (no_control s h.1)

no_separator :
    (s : Bytes) → All (λ b. is_reference_rune b ≡ true) s → has_any (codes "/\\") s ≡ false
unfolding has_any has_byte
no_separator [] h = refl
no_separator (b ∷ s) h =
    let plain : has_byte b (codes "/\\") ≡ false = ground arith in rw plain (no_separator s h.1)

-- A reference is accepted exactly when it is well formed.
pub validate_listener_id_iff : (id : Bytes) → (validate_listener_id id ≡ none) ↔ IsReference id
unfolding validate_listener_id
validate_listener_id_iff id = (
  λ h. record {
    nonempty = λ e. ground arith;
    short = ground arith;
    alphabet = all→All _ id (all-runes is_reference_rune id reference_low (ground arith));
    not_dot = λ e. ground (arith, text_eq_iff id (codes "."));
    not_dots = λ e. ground (arith, text_eq_iff id (codes ".."));
  },
  λ v.
      let same = runes-ascii id (All-low id v.alphabet) in
      let plain : contains_control_character id ≡ false =
        unfold contains_control_character in rw same (no_control id v.alphabet) in
      let good : all is_reference_rune (runes id) ≡ true =
        rw same (All→all is_reference_rune id v.alphabet) in
      let flat = no_separator id v.alphabet in
      ground (arith, text_eq_iff id (codes "."), text_eq_iff id (codes "..")),
)

-- An accepted reference holds no path separator, so that a file named by it stays in its directory.
pub validate_listener_id-no_slash : (id : Bytes) → validate_listener_id id ≡ none → ¬ Memᴰ slash id
validate_listener_id-no_slash id h m =
    let r =
      All-mem (λ b. is_reference_rune b ≡ true) id ((validate_listener_id_iff id).0 h).alphabet m in
    let no : is_reference_rune slash ≡ false = refl in cc
