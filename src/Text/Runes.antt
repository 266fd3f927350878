-- ===== src/Text/Runes.antt =====
-- UTF-8: `for _, r := range s`, `unicode.IsSpace`, `unicode.IsControl`, and the functions of
-- `strings` that cut a text at spaces.
use mcm.Base.{
  ℕ, zero, suc, ◌+◌, ◌-◌, ◌*◌, ◌≤◌, ◌<◌, ◌≡◌, refl, Bool, true, false, ◌&&◌, ◌||◌, List, [], ◌∷◌,
  ◌++◌, map, reverse, arith, ltb, between, ◌==◌, if◌then◌else◌, all, take, is_empty, Bool-cases,
  inl, inr, ap, sym, ◌∙◌,
}
use mcm.Base.Members.{Memᴰ, All}
use mcm.Text.Strings.{Bytes, codes}

-- What a malformed byte decodes to: U+FFFD, one byte wide.
abbrev bad_rune : ℕ × ℕ
bad_rune = (0xFFFD, 0)

abbrev is_continuation : ℕ → Bool
is_continuation b = between 0x80 0xBF b

decode_two : ℕ → Bytes → ℕ × ℕ
decode_two a [] = bad_rune
decode_two a (b ∷ _) = if is_continuation b then ((a - 0xC0) * 64 + (b - 0x80), 1) else bad_rune

decode_three : ℕ → ℕ → ℕ → Bytes → ℕ × ℕ
decode_three lo hi a [] = bad_rune
decode_three lo hi a (b ∷ []) = bad_rune
decode_three lo hi a (b ∷ c ∷ _) =
    if between lo hi b && is_continuation c
    then ((a - 0xE0) * 4096 + (b - 0x80) * 64 + (c - 0x80), 2)
    else bad_rune

decode_four : ℕ → ℕ → ℕ → Bytes → ℕ × ℕ
decode_four lo hi a [] = bad_rune
decode_four lo hi a (b ∷ []) = bad_rune
decode_four lo hi a (b ∷ c ∷ []) = bad_rune
decode_four lo hi a (b ∷ c ∷ d ∷ _) =
    if between lo hi b && (is_continuation c && is_continuation d)
    then ((a - 0xF0) * 262144 + (b - 0x80) * 4096 + (c - 0x80) * 64 + (d - 0x80), 3)
    else bad_rune

-- The rune that begins with byte `a`, and how many of the bytes behind it belong to it.
pub decode_rune : ℕ → Bytes → ℕ × ℕ
decode_rune a s =
    if ltb a 0x80
    then (a, 0)
    else if between 0xC2 0xDF a
    then decode_two a s
    else if a == 0xE0
    then decode_three 0xA0 0xBF a s
    else if a == 0xED
    then decode_three 0x80 0x9F a s
    else if between 0xE1 0xEF a
    then decode_three 0x80 0xBF a s
    else if a == 0xF0
    then decode_four 0x90 0xBF a s
    else if between 0xF1 0xF3 a
    then decode_four 0x80 0xBF a s
    else if a == 0xF4
    then decode_four 0x80 0x8F a s
    else bad_rune

-- A rune with the bytes that it was read from.
abbrev pub Piece : Type 0
Piece = ℕ × Bytes

unfoldable pub pieces_from : ℕ → Bytes → List Piece
pieces_from skip [] = []
pieces_from zero (a ∷ s) =
    let (r, more) = decode_rune a s in (r, a ∷ take more s) ∷ pieces_from more s
pieces_from (suc skip) (a ∷ s) = pieces_from skip s

unfoldable pub pieces : Bytes → List Piece
unfolding pieces_from decode_rune decode_two decode_three decode_four
pieces s = pieces_from 0 s

abbrev pub bytes_of : List Piece → Bytes
bytes_of [] = []
bytes_of ((r, b) ∷ ps) = b ++ bytes_of ps

unfoldable pub runes : Bytes → List ℕ
unfolding pieces
runes s = map (λ (p : Piece). p.0) (pieces s)

abbrev pub is_control : ℕ → Bool
is_control r = ltb r 0x20 || between 0x7F 0x9F r

abbrev pub is_space : ℕ → Bool
is_space r =
    between 9 13 r
    || r == 32
    || r == 0x85
    || r == 0xA0
    || r == 0x1680
    || between 0x2000 0x200A r
    || r == 0x2028
    || r == 0x2029
    || r == 0x202F
    || r == 0x205F
    || r == 0x3000

-- `strings.TrimSpace(s) == ""`.
unfoldable pub is_blank : Bytes → Bool
unfolding runes
is_blank s = all is_space (runes s)

unfoldable pub drop_spaces : List Piece → List Piece
drop_spaces [] = []
drop_spaces ((r, b) ∷ ps) = let rest = drop_spaces ps in if is_space r then rest else (r, b) ∷ ps

-- `strings.TrimSpace(s)`.
unfoldable pub trim_space : Bytes → Bytes
unfolding pieces drop_spaces
trim_space s = bytes_of (reverse (drop_spaces (reverse (drop_spaces (pieces s)))))

fields_from : Bytes → List Piece → List Bytes
fields_from word [] = if is_empty word then [] else word ∷ []
fields_from word ((r, b) ∷ ps) =
    let fresh = fields_from [] ps in
    let onward = fields_from (word ++ b) ps in
    if is_space r then (if is_empty word then fresh else word ∷ fresh) else onward

-- `strings.Fields(s)`.
unfoldable pub fields : Bytes → List Bytes
unfolding pieces fields_from
fields s = fields_from [] (pieces s)

fields_from-word : (c : ℕ) (w : Bytes) (ps : List Piece) → is_empty (fields_from (c ∷ w) ps) ≡ false
unfolding fields_from
fields_from-word c w [] = refl
fields_from-word c w ((r, b) ∷ ps) = ground (arith, fields_from-word c (w ++ b) ps)

fields_from-empty :
    (n : ℕ) (s : Bytes)
    → is_empty (fields_from [] (pieces_from n s)) ≡ true
    → drop_spaces (pieces_from n s) ≡ []
unfolding fields_from pieces_from drop_spaces
fields_from-empty n [] h = refl
fields_from-empty zero (a ∷ s) h = elim (Bool-cases (is_space (decode_rune a s).0)) [
  | inl e ↦ rw e (fields_from-empty (decode_rune a s).1 s (rw e at h))
  | inr e ↦
      let k : is_empty
            (fields_from (a ∷ take (decode_rune a s).1 s) (pieces_from (decode_rune a s).1 s))
          ≡ true =
        rw e at h in
      let k' =
        fields_from-word a (take (decode_rune a s).1 s) (pieces_from (decode_rune a s).1 s) in
      cc
]
fields_from-empty (suc n) (a ∷ s) h = fields_from-empty n s h

-- A text without a field is blank.
pub fields-trim_space : (s : Bytes) → is_empty (fields s) ≡ true → trim_space s ≡ []
unfolding fields trim_space
fields-trim_space s h = rw (fields_from-empty 0 s h) refl

-- A rune in lower case. Besides the ASCII letters, two runes have an ASCII lower case: U+0130 and
-- U+212A. Other letters above 127 stay as they are here: the callers compare the result with ASCII
-- words, which none of them can become.
lower_pieces : List Piece → Bytes
lower_pieces [] = []
lower_pieces ((r, b) ∷ ps) =
    (if between b'A' b'Z' r
      then (r + 32) ∷ []
      else if r == 0x130
      then b'i' ∷ []
      else if r == 0x212A
      then b'k' ∷ []
      else b)
    ++ lower_pieces ps

-- `strings.ToLower(s)`.
unfoldable pub to_lower : Bytes → Bytes
unfolding pieces lower_pieces
to_lower s = lower_pieces (pieces s)

-- A continuation byte is above 127, and so is every byte of a rune of several bytes.
abbrev Conts : ℕ → Bytes → Type 0
Conts zero s = Unit
Conts (suc n) [] = Unit
Conts (suc n) (b ∷ s) = (128 ≤ b) × Conts n s

decode_rune-Conts : (a : ℕ) (s : Bytes) → Conts (decode_rune a s).1 s
unfolding decode_rune decode_two decode_three decode_four
decode_rune-Conts a [] = ground arith
decode_rune-Conts a (b ∷ []) = ground arith
decode_rune-Conts a (b ∷ c ∷ []) = ground arith
decode_rune-Conts a (b ∷ c ∷ d ∷ s) = ground arith

decode_two_high : (a : ℕ) (s : Bytes) → 0xC2 ≤ a → 128 ≤ (decode_two a s).0
unfolding decode_two
decode_two_high a [] h = omega arith
decode_two_high a (b ∷ s) h = ground arith

-- The first byte 0xE0 wants a second byte from 0xA0 on, so that nothing below 0x800 has three bytes.
decode_three_high :
    (lo hi a : ℕ) (s : Bytes) → 0x80 ≤ lo → 0xE08E ≤ a * 256 + lo → 128 ≤ (decode_three lo hi a s).0
unfolding decode_three
decode_three_high lo hi a [] h k = omega arith
decode_three_high lo hi a (b ∷ []) h k = omega arith
decode_three_high lo hi a (b ∷ c ∷ s) h k = ground arith

decode_four_high :
    (lo hi a : ℕ) (s : Bytes) → 0x80 ≤ lo → 0xF08E ≤ a * 256 + lo → 128 ≤ (decode_four lo hi a s).0
unfolding decode_four
decode_four_high lo hi a [] h k = omega arith
decode_four_high lo hi a (b ∷ []) h k = omega arith
decode_four_high lo hi a (b ∷ c ∷ []) h k = omega arith
decode_four_high lo hi a (b ∷ c ∷ d ∷ s) h k = ground arith

decode_rune_high : (a : ℕ) (s : Bytes) → 128 ≤ a → 128 ≤ (decode_rune a s).0
unfolding decode_rune
decode_rune_high a s h = ground (
  arith,
  decode_two_high a s,
  decode_three_high 0xA0 0xBF a s,
  decode_three_high 0x80 0x9F a s,
  decode_three_high 0x80 0xBF a s,
  decode_four_high 0x90 0xBF a s,
  decode_four_high 0x80 0xBF a s,
  decode_four_high 0x80 0x8F a s,
)

pub decode_rune_ascii : (a : ℕ) (s : Bytes) → a < 128 → decode_rune a s ≡ (a, 0)
unfolding decode_rune
decode_rune_ascii a s h = ground arith

-- A rune below 128 is one byte, itself.
decode_rune_low :
    (a : ℕ) (s : Bytes) → (decode_rune a s).0 < 128 → (decode_rune a s ≡ (a, 0)) × (a < 128)
decode_rune_low a s h =
    let low : a < 128 = grind (arith, decode_rune_high a s) in (decode_rune_ascii a s low, low)

abbrev rune_of : Piece → ℕ
rune_of p = p.0

runes_from-mem :
    (n : ℕ) (s : Bytes) {b : ℕ}
    → Conts n s
    → b < 128
    → Memᴰ b s
    → Memᴰ b (map rune_of (pieces_from n s))
unfolding pieces_from
runes_from-mem n [] c h m = elim m [ ]
runes_from-mem zero (a ∷ s) {b} c h (Memᴰ.head e) =
    Memᴰ.head (e ∙ sym (ap (λ (p : ℕ × ℕ). p.0) (decode_rune_ascii a s (omega arith))))
runes_from-mem zero (a ∷ s) c h (Memᴰ.tail m) =
    Memᴰ.tail (runes_from-mem (decode_rune a s).1 s (decode_rune-Conts a s) h m)
runes_from-mem (suc n) (a ∷ s) c h (Memᴰ.head e) = absurd (omega arith)
runes_from-mem (suc n) (a ∷ s) c h (Memᴰ.tail m) = runes_from-mem n s c.1 h m

-- An ASCII byte of a text is one of its runes.
pub mem-runes : (s : Bytes) {b : ℕ} → b < 128 → Memᴰ b s → Memᴰ b (runes s)
unfolding runes pieces
mem-runes s h m = runes_from-mem 0 s tt h m

runes_from-ascii :
    (p : ℕ → Bool) (s : Bytes)
    → ((r : ℕ) → p r ≡ true → r < 128)
    → all p (map rune_of (pieces_from 0 s)) ≡ true
    → all p s ≡ true
unfolding pieces_from
runes_from-ascii p [] low h = refl
runes_from-ascii p (a ∷ s) low h = elim (Bool-cases (p (decode_rune a s).0)) [
  | inl e ↦
      let d = decode_rune_low a s (low _ e) in
      let pa : p a ≡ true = rw d.0 at e in
      rw pa (
        runes_from-ascii p s low (
          rw (ap (λ (q : ℕ × ℕ). q.1) d.0) at (
            let h' : all p (map rune_of (pieces_from (decode_rune a s).1 s)) ≡ true = rw e at h in
            h')))
  | inr e ↦ let f : false ≡ true = rw e at h in cc
]

-- Where a test passes ASCII runes only and every rune passes, every byte does.
pub all-runes :
    (p : ℕ → Bool) (s : Bytes)
    → ((r : ℕ) → p r ≡ true → r < 128)
    → all p (runes s) ≡ true
    → all p s ≡ true
unfolding runes pieces
all-runes p s low h = runes_from-ascii p s low h

-- An ASCII text is its own list of runes.
pub runes-ascii : (s : Bytes) → All (λ b. b < 128) s → runes s ≡ s
unfolding runes pieces
runes-ascii s h = go s h
  where
    go : (s : Bytes) → All (λ b. b < 128) s → map rune_of (pieces_from 0 s) ≡ s
    go [] h = unfold pieces_from in refl
    go (a ∷ s) h =
        unfold pieces_from in rw (decode_rune_ascii a s h.0) (ap (λ (t : Bytes). a ∷ t) (go s h.1))

runes_test :
    runes (0x61 ∷ 0xC3 ∷ 0xA9 ∷ 0xE2 ∷ 0x82 ∷ 0xAC ∷ 0xFF ∷ []) ≡ 0x61 ∷ 0xE9 ∷ 0x20AC ∷ 0xFFFD ∷ []
unfolding runes
runes_test = refl

trim_test : trim_space (codes "  a b  ") ≡ codes "a b"
unfolding trim_space
trim_test = refl

fields_test : fields (codes " topic  read a/b ") ≡ codes "topic" ∷ codes "read" ∷ codes "a/b" ∷ []
unfolding fields
fields_test = refl
