-- ===== src/Conf/Parse.antt =====
-- internal/mosquitto/conf/conf.go: `Parse` on a string, and the blocks of a file.
use mcm.Base.{
  ℕ, suc, ◌-◌, ◌*◌, Bool, true, false, not, ◌&&◌, List, [], ◌∷◌, ◌++◌, is_empty, ◌==◌, leb, length,
  any, if◌then◌else◌,
}
use mcm.Base.Result.{Result, ok, err}
use mcm.Text.{Bytes, codes, has_prefix, trim_space, fields, to_lower}
use mcm.Text.Split.{split}
use mcm.Conf.Item.{
  Item, ItemKind, plain_item, newline, carriage_return, trim_right, indent_of, parse_directive_line,
  is_block_directive, is_block_start, is_close_brace,
}

-- The variables of the loop in `Parse`; `line_no` counts the lines read.
pub record Scan : Type 0 where
  pub items : List Item
  pub line_no : ℕ
  pub block_depth : ℕ
  pub in_block : Bool

-- `append(f.Items, it)`.
abbrev pub add_item : Scan → Item → Scan
add_item s it = record s { items = s.items ++ (it ∷ []) }

abbrev pub raw_item : ItemKind → Bytes → ℕ → Item
raw_item k raw line = plain_item k (raw ++ (newline ∷ [])) line (indent_of raw)

-- A line that is no directive is kept as a comment.
abbrev pub add_directive : Scan → Bytes → Item × Bool → Scan
add_directive s raw (it, true) = add_item s it
add_directive s raw (it, false) = add_item s (raw_item ItemKind.comment raw s.line_no)

-- The two branches of a line that is neither blank nor a comment.
unfoldable pub scan_in_block : Scan → Bytes → Scan
scan_in_block s raw =
    if is_close_brace (trim_space raw)
    then record (add_item s (raw_item ItemKind.block_close raw s.line_no)) {
      in_block = false;
      block_depth = s.block_depth - 1;
    }
    else add_directive s raw (parse_directive_line raw s.line_no (indent_of raw) true)

abbrev pub scan_fields : Scan → Bytes → List Bytes → Scan
scan_fields s raw [] = s
scan_fields s raw (f ∷ fs) =
    let d = parse_directive_line raw s.line_no (indent_of raw) false in
    if is_block_directive (to_lower f) && is_block_start raw (f ∷ fs)
    then record (add_item s (record (d.0) { kind = ItemKind.block_open })) {
      in_block = true;
      block_depth = suc s.block_depth;
    }
    else add_directive s raw d

-- One round of the loop, with the carriage returns cut off.
unfoldable pub scan_trimmed : Scan → Bytes → Scan
scan_trimmed s raw =
    if is_empty (trim_space raw)
    then add_item s (raw_item ItemKind.comment raw s.line_no)
    else if has_prefix (codes "#") (trim_space raw)
    then add_item s (raw_item ItemKind.comment raw s.line_no)
    else if s.in_block
    then scan_in_block s raw
    else scan_fields s raw (fields raw)

unfoldable pub scan_line : Scan → Bytes → Scan
scan_line s line =
    scan_trimmed (record s { line_no = suc s.line_no }) (trim_right carriage_return line)

unfoldable pub scan_lines : Scan → List Bytes → Scan
scan_lines s [] = s
scan_lines s (l ∷ ls) = scan_lines (scan_line s l) ls

-- `bufio.ScanLines`: the lines without their newlines; behind the last newline there is a line only
-- if there is a byte. The carriage return that it cuts off is one of those that `Parse` cuts off.
unfoldable pub drop_empty_last : List Bytes → List Bytes
drop_empty_last [] = []
drop_empty_last ([] ∷ []) = []
drop_empty_last ((c ∷ l) ∷ []) = (c ∷ l) ∷ []
drop_empty_last (l ∷ k ∷ ls) = l ∷ drop_empty_last (k ∷ ls)

unfoldable pub lines_of : Bytes → List Bytes
lines_of body = drop_empty_last (split newline body)

abbrev pub max_line : ℕ
max_line = 1024 * 1024

abbrev pub empty_scan : Scan
empty_scan = record { items = []; line_no = 0; block_depth = 0; in_block = false }

pub data ParseError : Type 0 where
  line_too_long : ParseError
  unclosed_block : ℕ → ParseError

-- `ParseString`, and `Parse` on a reader that does not fail. The path is left out.
unfoldable pub parse_string : Bytes → Result ParseError (List Item)
parse_string body =
    let ls = lines_of body in
    let s = scan_lines empty_scan ls in
    if any (λ l. leb max_line (length l)) ls
    then err ParseError.line_too_long
    else if not (s.block_depth == 0)
    then err (ParseError.unclosed_block s.block_depth)
    else ok s.items
