-- ===== src/Conf/Blocks.antt =====
-- internal/mosquitto/conf/conf.go: the blocks of a file that `Parse` accepts.
use mcm.Base.{
  ℕ, suc, ◌≡◌, ◌-◌, ◌⊎◌, inl, inr, refl, sym, ◌∙◌, ap, Bool, true, false, ◌&&◌, List, [], ◌∷◌, ◌++◌,
  Option, none, some, is_empty, ◌==◌, ==_iff, leb, length, any, arith, Bool-cases,
}
use mcm.Base.Result.{ok}
use mcm.Text.{Bytes, codes, has_prefix, trim_space, fields, to_lower}
use mcm.Conf.Item.{
  Item, ItemKind, carriage_return, trim_right, indent_of, parse_directive_line, directive_of,
  tokenise, is_block_directive, is_block_start, is_close_brace,
}
use mcm.Conf.Parse.{
  Scan, add_item, add_directive, scan_in_block, scan_fields, scan_trimmed, scan_line, scan_lines,
  empty_scan, max_line, lines_of, parse_string, raw_item,
}

-- Whether a block is open behind an item: nothing when a block opens in a block, or closes outside.
abbrev pub nest : Option Bool → ItemKind → Option Bool
nest o ItemKind.comment = o
nest o ItemKind.directive = o
nest (some false) ItemKind.block_open = some true
nest (some true) ItemKind.block_close = some false
nest _ _ = none

abbrev pub nest_all : Option Bool → List Item → Option Bool
nest_all o [] = o
nest_all o (it ∷ its) = nest_all (nest o it.kind) its

nest_all-append :
    (o : Option Bool) (its : List Item) (it : Item)
    → nest_all o (its ++ (it ∷ [])) ≡ nest (nest_all o its) it.kind
nest_all-append o [] it = refl
nest_all-append o (j ∷ its) it = nest_all-append (nest o j.kind) its it

abbrev IsPlain : ItemKind → Type 0
IsPlain k = (k ≡ ItemKind.comment) ⊎ (k ≡ ItemKind.directive)

nest-plain : (o : Option Bool) (k : ItemKind) → IsPlain k → nest o k ≡ o
nest-plain o k (inl e) = rw e refl
nest-plain o k (inr e) = rw e refl

abbrev depth_of : Bool → ℕ
depth_of true = 1
depth_of false = 0

-- The items read so far nest, and the loop's variables say how.
abbrev IsNested : Scan → Type 0
IsNested s =
    (nest_all (some false) s.items ≡ some s.in_block) × (s.block_depth ≡ depth_of s.in_block)

add_item-IsNested : (s : Scan) (it : Item) → IsPlain it.kind → IsNested s → IsNested (add_item s it)
add_item-IsNested s it plain h = (
  nest_all-append (some false) s.items it
      ∙ ap (λ (o : Option Bool). nest o it.kind) h.0
      ∙ nest-plain (some s.in_block) it.kind plain,
  h.1,
)

directive_of-IsPlain :
    (ts : List Bytes) (raw : Bytes) (line indent : ℕ)
    → IsPlain (directive_of ts raw line indent).0.kind
directive_of-IsPlain [] raw line indent = inl refl
directive_of-IsPlain (t ∷ ts) raw line indent = inr refl

parse_directive_line-IsPlain :
    (raw : Bytes) (line indent : ℕ) (allow_empty : Bool)
    → IsPlain (parse_directive_line raw line indent allow_empty).0.kind
unfolding parse_directive_line
parse_directive_line-IsPlain raw line indent allow_empty =
    elim (Bool-cases (is_empty (trim_space raw))) [
      | inl e ↦ rw e (inl refl)
      | inr e ↦ elim (Bool-cases (has_prefix (codes "#") (trim_space raw))) [
        | inl f ↦ rw (e, f) (inl refl)
        | inr f ↦ rw (e, f) (directive_of-IsPlain (tokenise (trim_space raw)) raw line indent)
      ]
    ]

add_directive-IsNested :
    (s : Scan) (raw : Bytes) (d : Item × Bool)
    → IsPlain d.0.kind
    → IsNested s
    → IsNested (add_directive s raw d)
add_directive-IsNested s raw (it, true) p h = add_item-IsNested s it p h
add_directive-IsNested s raw (it, false) p h =
    add_item-IsNested s (raw_item ItemKind.comment raw s.line_no) (inl refl) h

scan_in_block-IsNested :
    (s : Scan) (raw : Bytes) → s.in_block ≡ true → IsNested s → IsNested (scan_in_block s raw)
unfolding scan_in_block
scan_in_block-IsNested s raw b h = elim (Bool-cases (is_close_brace (trim_space raw))) [
  | inl e ↦ rw e (
    nest_all-append (some false) s.items (raw_item ItemKind.block_close raw s.line_no)
        ∙ ap (λ (o : Option Bool). nest o ItemKind.block_close) (h.0 ∙ ap (λ (c : Bool). some c) b),
    ap (λ (n : ℕ). n - 1) (h.1 ∙ ap depth_of b),
  )
  | inr e ↦ rw e (
      add_directive-IsNested s raw _
        (parse_directive_line-IsPlain raw s.line_no (indent_of raw) true) h)
]

scan_fields-IsNested :
    (s : Scan) (raw : Bytes) (fs : List Bytes)
    → s.in_block ≡ false
    → IsNested s
    → IsNested (scan_fields s raw fs)
scan_fields-IsNested s raw [] b h = h
scan_fields-IsNested s raw (f ∷ fs) b h =
    let d = parse_directive_line raw s.line_no (indent_of raw) false in
    elim (Bool-cases (is_block_directive (to_lower f) && is_block_start raw (f ∷ fs))) [
      | inl e ↦ rw e (
        nest_all-append (some false) s.items (record (d.0) { kind = ItemKind.block_open })
            ∙ ap (λ (o : Option Bool). nest o ItemKind.block_open)
                (h.0 ∙ ap (λ (c : Bool). some c) b),
        ap suc (h.1 ∙ ap depth_of b),
      )
      | inr e ↦ rw e (
          add_directive-IsNested s raw d
            (parse_directive_line-IsPlain raw s.line_no (indent_of raw) false) h)
    ]

scan_trimmed-IsNested : (s : Scan) (raw : Bytes) → IsNested s → IsNested (scan_trimmed s raw)
unfolding scan_trimmed
scan_trimmed-IsNested s raw h =
    let as_comment = add_item-IsNested s (raw_item ItemKind.comment raw s.line_no) (inl refl) h in
    elim (Bool-cases (is_empty (trim_space raw))) [
      | inl e ↦ rw e as_comment
      | inr e ↦ elim (Bool-cases (has_prefix (codes "#") (trim_space raw))) [
        | inl f ↦ rw (e, f) as_comment
        | inr f ↦ elim (Bool-cases s.in_block) [
          | inl b ↦ simp (e, f, b) (scan_in_block-IsNested s raw b h)
          | inr b ↦ simp (e, f, b) (scan_fields-IsNested s raw (fields raw) b h)
        ]
      ]
    ]

scan_lines-IsNested : (s : Scan) (ls : List Bytes) → IsNested s → IsNested (scan_lines s ls)
unfolding scan_lines scan_line
scan_lines-IsNested s [] h = h
scan_lines-IsNested s (l ∷ ls) h =
    scan_lines-IsNested (scan_line s l) ls (
      scan_trimmed-IsNested (record s { line_no = suc s.line_no }) (trim_right carriage_return l) h)

closed : (b : Bool) → depth_of b ≡ 0 → b ≡ false
closed true h = absurd (omega arith)
closed false h = refl

-- In a file that `Parse` accepts, blocks open outside of blocks only, and each one is closed.
pub parse_string-blocks :
    (body : Bytes) (its : List Item)
    → parse_string body ≡ ok its
    → nest_all (some false) its ≡ some false
unfolding parse_string
parse_string-blocks body its e =
    let s = scan_lines empty_scan (lines_of body) in
    let h = scan_lines-IsNested empty_scan (lines_of body) (refl, refl) in
    elim (Bool-cases (any (λ l. leb max_line (length l)) (lines_of body))) [
      | inl long ↦ let f = rw long at e in cc
      | inr short ↦ elim (Bool-cases (s.block_depth == 0)) [
        | inl zero_depth ↦
            let same : s.items ≡ its = (let f = rw (short, zero_depth) at e in cc) in
            let out : s.in_block ≡ false =
              closed s.in_block (sym h.1 ∙ (==_iff s.block_depth 0).0 zero_depth) in
            ap (nest_all (some false)) (sym same) ∙ h.0 ∙ ap (λ (b : Bool). some b) out
        | inr open_depth ↦ let f = rw (short, open_depth) at e in cc
      ]
    ]
