-- ===== src/Text/Trim.antt =====
-- `strings.TrimSpace`: what is left of a text that has only blanks and tabs in it.
use mathlib.Core.List.{reverse-cons}
use mcm.Base.{
  ℕ, zero, suc, ◌<◌, ◌≡◌, refl, sym, ap, ◌∙◌, Bool, true, false, ◌||◌, List, [], ◌∷◌, ◌++◌, reverse,
  take, all, ◌==◌, Bool-cases, inl, inr, arith, ◌⊎◌, append-nil, append_assoc,
}
use mcm.Base.Members.{All, All-append}
use mcm.Text.Strings.{Bytes}
use mcm.Text.Runes.{
  Piece, pieces, pieces_from, decode_rune, decode_rune_ascii, drop_spaces, is_space, bytes_of,
  trim_space,
}

-- A blank or a tab.
abbrev pub is_blank_byte : ℕ → Bool
is_blank_byte c = c == b' ' || c == 9

-- The bytes of a piece are blanks only where its rune is a space.
abbrev BlankIsSpace : Piece → Type 0
BlankIsSpace p = all is_blank_byte p.1 ≡ true → is_space p.0 ≡ true

all-append :
    (q : ℕ → Bool) (xs ys : Bytes) → all q (xs ++ ys) ≡ true → (all q xs ≡ true) × (all q ys ≡ true)
all-append q [] ys h = (refl, h)
all-append q (x ∷ xs) ys h = elim (Bool-cases (q x)) [
  | inl e ↦ rw e (all-append q xs ys (rw e at h))
  | inr e ↦ let f = rw e at h in cc
]

blank-is_space : (a : ℕ) (s : Bytes) → is_blank_byte a ≡ true → is_space (decode_rune a s).0 ≡ true
blank-is_space a s h =
    let low : a < 128 = ground arith in rw (decode_rune_ascii a s low) (ground arith)

all_one : (a : ℕ) → all is_blank_byte (a ∷ []) ≡ true → is_blank_byte a ≡ true
all_one a h = elim (Bool-cases (is_blank_byte a)) [ inl e ↦ e | inr e ↦ let f = rw e at h in cc ]

pieces_from-BlankIsSpace : (n : ℕ) (s : Bytes) → All BlankIsSpace (pieces_from n s)
unfolding pieces_from
pieces_from-BlankIsSpace n [] = tt
pieces_from-BlankIsSpace zero (a ∷ s) = (
  λ h.
      blank-is_space a s
        (all_one a (all-append is_blank_byte (a ∷ []) (take (decode_rune a s).1 s) h).0),
  pieces_from-BlankIsSpace (decode_rune a s).1 s,
)
pieces_from-BlankIsSpace (suc n) (a ∷ s) = pieces_from-BlankIsSpace n s

drop_spaces-All : (P : Piece → Type 0) (ps : List Piece) → All P ps → All P (drop_spaces ps)
unfolding drop_spaces
drop_spaces-All P [] h = tt
drop_spaces-All P ((r, b) ∷ ps) h = elim (Bool-cases (is_space r)) [
  | inl e ↦ rw e (drop_spaces-All P ps h.1)
  | inr e ↦ rw e h
]

reverse-All : (P : Piece → Type 0) (ps : List Piece) → All P ps → All P (reverse ps)
reverse-All P [] h = tt
reverse-All P (p ∷ ps) h =
    rw (reverse-cons p ps) (All-append P (reverse ps) (p ∷ []) (reverse-All P ps h.1) (h.0, tt))

-- What is left begins with a rune that is no space.
drop_spaces-head :
    (ps : List Piece)
    → (drop_spaces ps ≡ [])
      ⊎ ((p : Piece) × (qs : List Piece) × (drop_spaces ps ≡ p ∷ qs) × (is_space p.0 ≡ false))
unfolding drop_spaces
drop_spaces-head [] = inl refl
drop_spaces-head ((r, b) ∷ ps) = elim (Bool-cases (is_space r)) [
  | inl e ↦ rw e (drop_spaces-head ps)
  | inr e ↦ inr ((r, b), ps, rw e refl, e)
]

bytes_of-append : (ps : List Piece) (p : Piece) → bytes_of (ps ++ (p ∷ [])) ≡ bytes_of ps ++ p.1
bytes_of-append [] p = append-nil p.1
bytes_of-append ((r, b) ∷ ps) p =
    ap (λ (t : Bytes). b ++ t) (bytes_of-append ps p) ∙ sym (append_assoc b (bytes_of ps) p.1)

-- A trimmed text of blanks and tabs is empty.
pub trim_space-blank : (s : Bytes) → all is_blank_byte (trim_space s) ≡ true → trim_space s ≡ []
unfolding trim_space pieces
trim_space-blank s h = elim (drop_spaces-head (reverse (drop_spaces (pieces_from 0 s)))) [
  | inl e ↦ rw e refl
  | inr (p, qs, e, shown) ↦
      let h' : all is_blank_byte (bytes_of (reverse (p ∷ qs))) ≡ true = rw e at h in
      let parts : bytes_of (reverse (p ∷ qs)) ≡ bytes_of (reverse qs) ++ p.1 =
        ap bytes_of (reverse-cons p qs) ∙ bytes_of-append (reverse qs) p in
      let blank = (all-append is_blank_byte (bytes_of (reverse qs)) p.1 (rw parts at h')).1 in
      let good : All BlankIsSpace (p ∷ qs) = rw e at (
        drop_spaces-All BlankIsSpace (reverse (drop_spaces (pieces_from 0 s))) (
          reverse-All BlankIsSpace (drop_spaces (pieces_from 0 s))
            (drop_spaces-All BlankIsSpace (pieces_from 0 s) (pieces_from-BlankIsSpace 0 s)))) in
      let space : is_space p.0 ≡ true = good.0 blank in absurd (cc)
]

pub trim_space_nil : trim_space [] ≡ []
unfolding trim_space pieces pieces_from drop_spaces
trim_space_nil = refl
