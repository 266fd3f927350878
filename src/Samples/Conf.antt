-- ===== src/Samples/Conf.antt =====
-- Configuration files.
use mcm.Base.{◌≡◌, refl, false, some, List, [], ◌∷◌, ◌++◌}
use mcm.Base.Result.{ok}
use mcm.Text.{Bytes, codes, text_eq, has_prefix, trim_space, fields, to_lower}
use mcm.Text.Split.{split}
use mcm.Conf.Item.{
  Item, ItemKind, newline, plain_item, tokenise, tokens_from, trim_right, indent_of,
  parse_directive_line, is_block_directive, is_block_start, ends_in_brace, last_is_brace,
}
use mcm.Conf.Parse.{
  scan_in_block, scan_trimmed, scan_line, scan_lines, drop_empty_last, lines_of, parse_string,
}
use mcm.Conf.Render.{render_directive_line, render_item, render_items}
use mcm.Conf.Lossless.{normal_text, render-parse_string}
use mcm.Conf.Blocks.{nest_all, parse_string-blocks}

abbrev listener_conf : Bytes
listener_conf = codes "listener 1883 {" ++ (newline ∷ codes " #x" ++ (newline ∷ codes "}"))

abbrev listener_items : List Item
listener_items =
    record {
      kind = ItemKind.block_open;
      key = codes "listener";
      values = codes "1883" ∷ codes "{" ∷ [];
      text = codes "listener 1883 {" ++ (newline ∷ []);
      line = 1;
      indent = 0;
    }
    ∷ plain_item ItemKind.comment (codes " #x" ++ (newline ∷ [])) 2 1
    ∷ plain_item ItemKind.block_close (codes "}" ++ (newline ∷ [])) 3 0
    ∷ []

listener_conf_parsed : parse_string listener_conf ≡ ok listener_items
unfolding parse_string lines_of drop_empty_last split scan_lines scan_line scan_trimmed trim_right
    scan_in_block indent_of parse_directive_line tokenise tokens_from is_block_directive
    is_block_start ends_in_brace last_is_brace text_eq has_prefix trim_space fields to_lower
listener_conf_parsed = refl

parse_string-blocks_example : nest_all (some false) listener_items ≡ some false
parse_string-blocks_example = parse_string-blocks listener_conf listener_items listener_conf_parsed

-- The file came without a newline at its end.
listener_conf_rendered : render_items listener_items ≡ ok (listener_conf ++ (newline ∷ []))
unfolding render_items render_item render_directive_line trim_right
listener_conf_rendered = refl

-- A brace on a line of its own opens no block: the line is read as a directive.
abbrev brace_items : List Item
brace_items =
    record {
      kind = ItemKind.directive;
      key = codes "listener";
      values = codes "1883" ∷ [];
      text = codes "listener 1883" ++ (newline ∷ []);
      line = 1;
      indent = 0;
    }
    ∷ record {
      kind = ItemKind.directive;
      key = codes "{";
      values = [];
      text = codes "{" ++ (newline ∷ []);
      line = 2;
      indent = 0;
    }
    ∷ []

brace_below_header :
    parse_string (codes "listener 1883" ++ (newline ∷ codes "{" ++ (newline ∷ []))) ≡ ok brace_items
unfolding parse_string lines_of drop_empty_last split scan_lines scan_line scan_trimmed trim_right
    scan_in_block indent_of parse_directive_line tokenise tokens_from is_block_directive
    is_block_start ends_in_brace last_is_brace text_eq has_prefix trim_space fields to_lower
brace_below_header = refl

render-parse_string_example :
    render_items listener_items ≡ ok (normal_text (lines_of listener_conf))
render-parse_string_example = render-parse_string listener_conf listener_items listener_conf_parsed
