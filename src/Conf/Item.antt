-- ===== src/Conf/Item.antt =====
-- internal/mosquitto/conf/conf.go: items, tokens and the reading of one directive.
use mcm.Base.{
  ℕ, suc, Bool, true, false, not, ◌&&◌, ◌||◌, List, [], ◌∷◌, ◌++◌, is_empty, ◌==◌, if◌then◌else◌,
}
use mcm.Text.{Bytes, codes, text_eq, has_prefix, trim_space, to_lower}

abbrev pub newline : ℕ
newline = 10

abbrev pub carriage_return : ℕ
carriage_return = 13

pub data ItemKind : Type 0 where
  comment directive block_open block_close : ItemKind

-- `Line` and `Indent` are not negative in what `Parse` returns.
pub record Item : Type 0 where
  pub kind : ItemKind
  pub key : Bytes
  pub values : List Bytes
  pub text : Bytes
  pub line : ℕ
  pub indent : ℕ

abbrev pub plain_item : ItemKind → Bytes → ℕ → ℕ → Item
plain_item k text line indent = record {
  kind = k;
  key = [];
  values = [];
  text = text;
  line = line;
  indent = indent;
}

-- `flush`: the token that was read is put in front of the ones behind it.
abbrev pub flush : Bytes → List Bytes → List Bytes
flush [] out = out
flush (c ∷ cur) out = (c ∷ cur) ∷ out

-- The loop of `tokenise`; a cut is a blank outside quotes.
unfoldable pub tokens_from : Bool → Bytes → Bytes → List Bytes
tokens_from in_quote cur [] = flush cur []
tokens_from in_quote cur (c ∷ s) =
    let cut = (c == b' ' || c == 9) && not in_quote in
    let rest =
      tokens_from (if c == b'"' then not in_quote else in_quote)
        (if cut then [] else cur ++ (c ∷ [])) s in
    if cut then flush cur rest else rest

unfoldable pub tokenise : Bytes → List Bytes
tokenise s = tokens_from false [] s

-- `strings.TrimRight(s, string(c))`.
unfoldable pub trim_right : ℕ → Bytes → Bytes
trim_right c [] = []
trim_right c (x ∷ xs) =
    let rest = trim_right c xs in if is_empty rest && x == c then [] else x ∷ rest

-- `len(raw) - len(strings.TrimLeft(raw, " \t"))`.
unfoldable pub indent_of : Bytes → ℕ
indent_of [] = 0
indent_of (c ∷ s) = let n = indent_of s in if c == b' ' || c == 9 then suc n else 0

abbrev pub directive_of : List Bytes → Bytes → ℕ → ℕ → Item × Bool
directive_of [] raw line indent = (plain_item ItemKind.comment [] 0 0, false)
directive_of (v ∷ vs) raw line indent = (
  record {
    kind = ItemKind.directive;
    key = to_lower v;
    values = vs;
    text = raw ++ (newline ∷ []);
    line = line;
    indent = indent;
  },
  true,
)

unfoldable pub parse_directive_line : Bytes → ℕ → ℕ → Bool → Item × Bool
parse_directive_line raw line indent allow_empty =
    let trimmed = trim_space raw in
    if is_empty trimmed
    then (plain_item ItemKind.comment [] 0 0, allow_empty)
    else if has_prefix (codes "#") trimmed
    then (plain_item ItemKind.comment [] 0 0, false)
    else directive_of (tokenise trimmed) raw line indent

unfoldable pub is_block_directive : Bytes → Bool
is_block_directive name = text_eq name (codes "listener") || text_eq name (codes "bridge")

-- `strings.HasSuffix(s, "{")`.
unfoldable pub ends_in_brace : Bytes → Bool
ends_in_brace [] = false
ends_in_brace (c ∷ []) = c == b'{'
ends_in_brace (c ∷ d ∷ s) = ends_in_brace (d ∷ s)

unfoldable pub last_is_brace : List Bytes → Bool
last_is_brace [] = false
last_is_brace (f ∷ []) = text_eq f (codes "{")
last_is_brace (f ∷ g ∷ fs) = last_is_brace (g ∷ fs)

unfoldable pub is_block_start : Bytes → List Bytes → Bool
is_block_start raw fs = if ends_in_brace (trim_space raw) then true else last_is_brace fs

abbrev pub is_close_brace : Bytes → Bool
is_close_brace [] = false
is_close_brace (c ∷ []) = c == b'}'
is_close_brace (c ∷ d ∷ s) = c == b'}' && (d == b' ' || d == 9 || d == b'#')
