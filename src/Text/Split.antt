-- ===== src/Text/Split.antt =====
-- `strings.Split` and `strings.Join` at a one-byte separator.
use mcm.Base.{
  ℕ, ◌≡◌, refl, List, [], ◌∷◌, ◌++◌, arith, false, ◌==◌, if◌then◌else◌, ap, Bool-cases, inl, inr,
  ◌∙◌, ==_iff,
}
use mcm.Base.Members.{All}
use mcm.Text.Strings.{Bytes, has_byte}

-- Puts a byte in front of the first part.
abbrev pub onto_first : ℕ → List Bytes → List Bytes
onto_first c [] = (c ∷ []) ∷ []
onto_first c (w ∷ ws) = (c ∷ w) ∷ ws

unfoldable pub split : ℕ → Bytes → List Bytes
split sep [] = [] ∷ []
split sep (c ∷ s) = let rest = split sep s in if c == sep then [] ∷ rest else onto_first c rest

unfoldable pub join : ℕ → List Bytes → Bytes
join sep [] = []
join sep (w ∷ []) = w
join sep (w ∷ v ∷ ws) = w ++ (sep ∷ join sep (v ∷ ws))

-- The parts are at least one.
pub split_cons : (sep : ℕ) (s : Bytes) → (w : Bytes) × (ws : List Bytes) × (split sep s ≡ w ∷ ws)
unfolding split
split_cons sep [] = ([], [], refl)
split_cons sep (c ∷ s) =
    let (w, ws, e) = split_cons sep s in
    elim (Bool-cases (c == sep)) [
      | inl h ↦ ([], split sep s, rw h)
      | inr h ↦ (c ∷ w, ws, rw (h, e))
    ]

pub join-onto_first :
    (sep c : ℕ) (w : Bytes) (ws : List Bytes)
    → join sep (onto_first c (w ∷ ws)) ≡ c ∷ join sep (w ∷ ws)
unfolding join
join-onto_first sep c w [] = refl
join-onto_first sep c w (v ∷ ws) = refl

-- Joining the parts gives the text back.
pub join-split : (sep : ℕ) (s : Bytes) → join sep (split sep s) ≡ s
unfolding split join
join-split sep [] = refl
join-split sep (c ∷ s) =
    let (w, ws, e) = split_cons sep s in
    let ih : join sep (w ∷ ws) ≡ s = rw e at (join-split sep s) in
    elim (Bool-cases (c == sep)) [
      | inl h ↦ rw (h, e) (rw ((==_iff c sep).0 h) (ap (λ (t : Bytes). sep ∷ t) ih))
      | inr h ↦ rw (h, e) (join-onto_first sep c w ws ∙ ap (λ (t : Bytes). c ∷ t) ih)
    ]

-- No part holds the separator.
pub split-no_sep : (sep : ℕ) (s : Bytes) → All (λ w. has_byte sep w ≡ false) (split sep s)
unfolding split has_byte
split-no_sep sep [] = (refl, tt)
split-no_sep sep (c ∷ s) =
    let (w, ws, e) = split_cons sep s in
    let ih : All (λ w. has_byte sep w ≡ false) (w ∷ ws) = rw e at (split-no_sep sep s) in
    elim (Bool-cases (c == sep)) [
      | inl h ↦ rw (h, e) (refl, ih)
      | inr h ↦ rw (h, e) (rw h ih.0, ih.1)
    ]

-- A text without the separator is one part.
pub split_of_no_sep : (sep : ℕ) (w : Bytes) → has_byte sep w ≡ false → split sep w ≡ w ∷ []
unfolding split has_byte
split_of_no_sep sep [] h = refl
split_of_no_sep sep (c ∷ s) h = ground (arith, split_of_no_sep sep s)

-- A part without the separator, the separator and a rest.
pub split-append :
    (sep : ℕ) (w s : Bytes) → has_byte sep w ≡ false → split sep (w ++ (sep ∷ s)) ≡ w ∷ split sep s
unfolding split has_byte
split-append sep [] s h = ground arith
split-append sep (c ∷ w) s h = ground (arith, split-append sep w s)

-- Parts that hold no separator come back from their join.
pub split-join :
    (sep : ℕ) (w : Bytes) (ws : List Bytes)
    → All (λ v. has_byte sep v ≡ false) (w ∷ ws)
    → split sep (join sep (w ∷ ws)) ≡ w ∷ ws
unfolding join
split-join sep w [] h = split_of_no_sep sep w h.0
split-join sep w (v ∷ ws) h =
    split-append sep w (join sep (v ∷ ws)) h.0
    ∙ ap (λ (r : List Bytes). w ∷ r) (split-join sep v ws h.1)
