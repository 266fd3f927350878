-- ===== src/Conf/Lossless.antt =====
-- internal/mosquitto/conf/conf.go and render.go: reading a file and rendering it.
use mcm.Base.{
  ℕ, suc, ◌≡◌, refl, sym, ap, ◌∙◌, true, false, ◌&&◌, List, [], ◌∷◌, ◌++◌, any, leb, length,
  is_empty, ◌==◌, Bool-cases, inl, inr, append-nil, append_assoc,
}
use mcm.Base.Members.{All}
use mcm.Base.Result.{Result, ok, err}
use mcm.Text.{Bytes, codes, has_byte, has_prefix, trim_space, fields, to_lower, fields-trim_space}
use mcm.Text.Split.{split, split-no_sep}
use mcm.Conf.Item.{
  Item, ItemKind, newline, carriage_return, trim_right, indent_of, is_block_directive,
  is_block_start, is_close_brace,
}
use mcm.Conf.Parse.{
  Scan, add_item, raw_item, scan_in_block, scan_fields, scan_trimmed, scan_line, scan_lines,
  empty_scan, max_line, drop_empty_last, lines_of, parse_string,
}
use mcm.Conf.Render.{ended, render_item, then_bytes, render_items}
use mcm.Conf.Lines.{
  IsLine, parse_directive_line-IsLine, trim_right-no_newline, ended-line, render_directive,
  render_block_close,
}

then_bytes_assoc :
    (a b : Result ℕ Bytes) (t : Bytes)
    → then_bytes a (then_bytes b (ok t)) ≡ then_bytes (then_bytes a b) (ok t)
then_bytes_assoc (ok a) (ok b) t = ap (λ (x : Bytes). ok x) (sym (append_assoc a b t))
then_bytes_assoc (ok a) (err e) t = refl
then_bytes_assoc (err e) b t = refl

-- An item behind the others.
render_items-add :
    (its : List Item) (it : Item) (t : Bytes)
    → render_item it ≡ ok t
    → render_items (its ++ (it ∷ [])) ≡ then_bytes (render_items its) (ok t)
unfolding render_items
render_items-add [] it t h = rw h (ap (λ (x : Bytes). ok x) (append-nil t))
render_items-add (j ∷ its) it t h =
    rw (render_items-add its it t h) (then_bytes_assoc (render_item j) (render_items its) t)

-- What a round adds to the rendering.
abbrev Adds : Scan → Bytes → Scan → Type 0
Adds s raw s' =
    render_items s'.items ≡ then_bytes (render_items s.items) (ok (raw ++ (newline ∷ [])))

directive-Adds :
    (s : Scan) (it : Item) (raw : Bytes)
    → has_byte newline raw ≡ false
    → IsLine it raw
    → Adds s raw (add_item s it)
unfolding render_item
directive-Adds s it raw h l =
    render_items-add s.items it (raw ++ (newline ∷ [])) (simp l.0 (render_directive it raw h l.1))

in_block-Adds :
    (s : Scan) (raw : Bytes)
    → has_byte newline raw ≡ false
    → is_empty (trim_space raw) ≡ false
    → has_prefix (codes "#") (trim_space raw) ≡ false
    → Adds s raw (scan_in_block s raw)
unfolding scan_in_block
in_block-Adds s raw h e f = elim (Bool-cases (is_close_brace (trim_space raw))) [
  | inl c ↦ rw c (
      render_items-add s.items (raw_item ItemKind.block_close raw s.line_no) _
        (render_block_close raw s.line_no h))
  | inr c ↦
      let (it, made, l) = parse_directive_line-IsLine raw s.line_no (indent_of raw) true e f in
      rw (c, made) (directive-Adds s it raw h l)
]

block_open-Adds :
    (s : Scan) (it : Item) (raw : Bytes)
    → has_byte newline raw ≡ false
    → IsLine it raw
    → Adds s raw (add_item s (record it { kind = ItemKind.block_open }))
unfolding render_item
block_open-Adds s it raw h l =
    render_items-add s.items (record it { kind = ItemKind.block_open }) (raw ++ (newline ∷ []))
      (ap (λ (t : Bytes). ok (ended t)) l.1 ∙ ap (λ (t : Bytes). ok t) (ended-line raw h))

fields-Adds :
    (s : Scan) (raw : Bytes)
    → has_byte newline raw ≡ false
    → is_empty (trim_space raw) ≡ false
    → has_prefix (codes "#") (trim_space raw) ≡ false
    → (fs : List Bytes) → is_empty fs ≡ false
    → Adds s raw (scan_fields s raw fs)
fields-Adds s raw h e f [] g = cc
fields-Adds s raw h e f (w ∷ ws) g =
    let (it, made, l) = parse_directive_line-IsLine raw s.line_no (indent_of raw) false e f in
    elim (Bool-cases (is_block_directive (to_lower w) && is_block_start raw (w ∷ ws))) [
      | inl b ↦ rw (b, made) (block_open-Adds s it raw h l)
      | inr b ↦ rw (b, made) (directive-Adds s it raw h l)
    ]

fields-shown : (raw : Bytes) → is_empty (trim_space raw) ≡ false → is_empty (fields raw) ≡ false
fields-shown raw e = elim (Bool-cases (is_empty (fields raw))) [
  | inl h ↦ let f : true ≡ false = rw (fields-trim_space raw h) at e in cc
  | inr h ↦ h
]

scan_trimmed-Adds :
    (s : Scan) (raw : Bytes) → has_byte newline raw ≡ false → Adds s raw (scan_trimmed s raw)
unfolding scan_trimmed render_item
scan_trimmed-Adds s raw h =
    let as_comment : Adds s raw (add_item s (raw_item ItemKind.comment raw s.line_no)) =
      render_items-add s.items (raw_item ItemKind.comment raw s.line_no) _ refl in
    elim (Bool-cases (is_empty (trim_space raw))) [
      | inl e ↦ rw e as_comment
      | inr e ↦ elim (Bool-cases (has_prefix (codes "#") (trim_space raw))) [
        | inl f ↦ rw (e, f) as_comment
        | inr f ↦ elim (Bool-cases s.in_block) [
          | inl b ↦ simp (e, f, b) (in_block-Adds s raw h e f)
          | inr b ↦ simp (e, f, b) (fields-Adds s raw h e f (fields raw) (fields-shown raw e))
        ]
      ]
    ]

-- The lines without the carriage returns at their ends, each with a newline.
abbrev pub normal_text : List Bytes → Bytes
normal_text [] = []
normal_text (l ∷ ls) = trim_right carriage_return l ++ (newline ∷ normal_text ls)

scan_lines-text :
    (s : Scan) (ls : List Bytes) (out : Bytes)
    → All (λ l. has_byte newline l ≡ false) ls
    → render_items s.items ≡ ok out
    → render_items (scan_lines s ls).items ≡ ok (out ++ normal_text ls)
unfolding scan_lines scan_line
scan_lines-text s [] out h e = e ∙ ap (λ (t : Bytes). ok t) (sym (append-nil out))
scan_lines-text s (l ∷ ls) out h e =
    let raw = trim_right carriage_return l in
    let s' = record s { line_no = suc s.line_no } in
    let step : render_items (scan_trimmed s' raw).items ≡ ok (out ++ (raw ++ (newline ∷ []))) =
      scan_trimmed-Adds s' raw (trim_right-no_newline l h.0)
      ∙ ap (λ (r : Result ℕ Bytes). then_bytes r (ok (raw ++ (newline ∷ [])))) e in
    let regroup : (out ++ (raw ++ (newline ∷ []))) ++ normal_text ls ≡ out ++ normal_text (l ∷ ls) =
      append_assoc out (raw ++ (newline ∷ [])) (normal_text ls)
      ∙ ap (λ (t : Bytes). out ++ t) (append_assoc raw (newline ∷ []) (normal_text ls)) in
    scan_lines-text (scan_trimmed s' raw) ls (out ++ (raw ++ (newline ∷ []))) h.1 step
    ∙ ap (λ (t : Bytes). ok t) regroup

drop_empty_last-All : (P : Bytes → Type 0) (ls : List Bytes) → All P ls → All P (drop_empty_last ls)
unfolding drop_empty_last
drop_empty_last-All P [] h = tt
drop_empty_last-All P ([] ∷ []) h = tt
drop_empty_last-All P ((c ∷ l) ∷ []) h = h
drop_empty_last-All P (l ∷ k ∷ ls) h = (h.0, drop_empty_last-All P (k ∷ ls) h.1)

-- Rendering what is read from a file gives the file back, line for line and nothing left out, except
-- that carriage returns at the ends of lines are gone and the last line has its newline.
pub render-parse_string :
    (body : Bytes) (its : List Item)
    → parse_string body ≡ ok its
    → render_items its ≡ ok (normal_text (lines_of body))
unfolding parse_string lines_of
render-parse_string body its e =
    let s = scan_lines empty_scan (lines_of body) in
    let clean =
      drop_empty_last-All (λ l. has_byte newline l ≡ false) (split newline body)
        (split-no_sep newline body) in
    let text = scan_lines-text empty_scan (lines_of body) [] clean nothing in
    elim (Bool-cases (any (λ l. leb max_line (length l)) (lines_of body))) [
      | inl long ↦ let f = rw long at e in cc
      | inr short ↦ elim (Bool-cases (s.block_depth == 0)) [
        | inl zero_depth ↦
            let same : s.items ≡ its = (let f = rw (short, zero_depth) at e in cc) in
            ap render_items (sym same) ∙ text
        | inr open_depth ↦ let f = rw (short, open_depth) at e in cc
      ]
    ]
  where
    nothing : render_items [] ≡ ok []
    nothing = unfold render_items in refl
