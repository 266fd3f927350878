-- ===== src/Conf/Lines.antt =====
-- internal/mosquitto/conf/conf.go and render.go: one line, read and rendered.
use mcm.Base.{
  ℕ, ◌≡◌, refl, ap, Bool, true, false, not, ◌&&◌, List, [], ◌∷◌, ◌++◌, all, is_empty, ◌==◌,
  if◌then◌else◌, Bool-cases, inl, inr, arith,
}
use mcm.Base.Result.{ok}
use mcm.Text.{Bytes, codes, has_byte, has_prefix, trim_space}
use mcm.Text.Trim.{is_blank_byte, trim_space-blank}
use mcm.Conf.Item.{
  Item, ItemKind, newline, carriage_return, trim_right, parse_directive_line, directive_of,
  tokenise, tokens_from,
}
use mcm.Conf.Parse.{raw_item}
use mcm.Conf.Render.{ended, render_directive_line, render_item}

tokens_from-word : (q : Bool) (x : ℕ) (cur s : Bytes) → is_empty (tokens_from q (x ∷ cur) s) ≡ false
unfolding tokens_from
tokens_from-word q x cur [] = refl
tokens_from-word q x cur (c ∷ s) = elim (Bool-cases (is_blank_byte c && not q)) [
  | inl e ↦ rw e refl
  | inr e ↦ rw e (tokens_from-word (if c == b'"' then not q else q) x (cur ++ (c ∷ [])) s)
]

tokens_from-blank :
    (s : Bytes) → is_empty (tokens_from false [] s) ≡ true → all is_blank_byte s ≡ true
unfolding tokens_from
tokens_from-blank [] h = refl
tokens_from-blank (c ∷ s) h = elim (Bool-cases (is_blank_byte c)) [
  | inl e ↦
      let no_quote : (c == b'"') ≡ false = ground arith in
      rw e (tokens_from-blank s (rw (e, no_quote) at h))
  | inr e ↦
      let k : is_empty (tokens_from (if c == b'"' then true else false) (c ∷ []) s) ≡ true =
        rw e at h in
      let k' = tokens_from-word (if c == b'"' then true else false) c [] s in cc
]

-- A directive's line becomes a directive with the line as its text.
abbrev pub IsLine : Item → Bytes → Type 0
IsLine it raw = (it.kind ≡ ItemKind.directive) × (it.text ≡ raw ++ (newline ∷ []))

directive_of-IsLine :
    (ts : List Bytes) (raw : Bytes) (line indent : ℕ)
    → is_empty ts ≡ false
    → (it : Item) × (directive_of ts raw line indent ≡ (it, true)) × IsLine it raw
directive_of-IsLine [] raw line indent h = cc
directive_of-IsLine (t ∷ ts) raw line indent h = (_, refl, (refl, refl))

pub parse_directive_line-IsLine :
    (raw : Bytes) (line indent : ℕ) (allow_empty : Bool)
    → is_empty (trim_space raw) ≡ false
    → has_prefix (codes "#") (trim_space raw) ≡ false
    → (it : Item) × (parse_directive_line raw line indent allow_empty ≡ (it, true)) × IsLine it raw
unfolding parse_directive_line tokenise
parse_directive_line-IsLine raw line indent allow_empty e f =
    rw (e, f) (directive_of-IsLine (tokenise (trim_space raw)) raw line indent shown)
  where
    shown : is_empty (tokenise (trim_space raw)) ≡ false
    shown =
        unfold tokenise in
        elim (Bool-cases (is_empty (tokens_from false [] (trim_space raw)))) [
          | inl h ↦
              let gone = trim_space-blank raw (tokens_from-blank (trim_space raw) h) in
              let f' : true ≡ false = rw gone at e in cc
          | inr h ↦ h
        ]

trim_right-line :
    (raw : Bytes) → has_byte newline raw ≡ false → trim_right newline (raw ++ (newline ∷ [])) ≡ raw
unfolding trim_right has_byte
trim_right-line [] h = refl
trim_right-line (x ∷ xs) h = elim (Bool-cases (x == newline)) [
  | inl e ↦ let f = rw e at h in cc
  | inr e ↦ rw (trim_right-line xs (rw e at h), e) (and_false (is_empty xs))
]
  where
    and_false : (b : Bool) → (if b && false then [] else x ∷ xs) ≡ x ∷ xs
    and_false true = refl
    and_false false = refl

pub trim_right-no_newline :
    (l : Bytes)
    → has_byte newline l ≡ false
    → has_byte newline (trim_right carriage_return l) ≡ false
unfolding trim_right has_byte
trim_right-no_newline [] h = refl
trim_right-no_newline (x ∷ xs) h = ground (arith, trim_right-no_newline xs)

line_not_empty : (raw : Bytes) → is_empty (raw ++ (newline ∷ [])) ≡ false
line_not_empty [] = refl
line_not_empty (x ∷ xs) = refl

pub ended-line :
    (raw : Bytes)
    → has_byte newline raw ≡ false
    → ended (raw ++ (newline ∷ [])) ≡ raw ++ (newline ∷ [])
ended-line raw h = ap (λ (t : Bytes). t ++ (newline ∷ [])) (trim_right-line raw h)

pub render_directive :
    (it : Item) (raw : Bytes)
    → has_byte newline raw ≡ false
    → it.text ≡ raw ++ (newline ∷ [])
    → render_directive_line it ≡ ok (raw ++ (newline ∷ []))
unfolding render_directive_line
render_directive it raw h e = rw (e, line_not_empty raw, ended-line raw h) refl

pub render_block_close :
    (raw : Bytes) (line : ℕ)
    → has_byte newline raw ≡ false
    → render_item (raw_item ItemKind.block_close raw line) ≡ ok (raw ++ (newline ∷ []))
unfolding render_item
render_block_close raw line h = rw (line_not_empty raw, ended-line raw h) refl
