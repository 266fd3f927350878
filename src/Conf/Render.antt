-- ===== src/Conf/Render.antt =====
-- internal/mosquitto/conf/render.go: `Render`.
use mcm.Base.{ℕ, zero, suc, not, List, [], ◌∷◌, ◌++◌, is_empty, if◌then◌else◌}
use mcm.Base.Result.{Result, ok, err}
use mcm.Text.{Bytes}
use mcm.Conf.Item.{Item, ItemKind, newline, trim_right}

-- The indentation, one blank each.
unfoldable pub blanks : ℕ → Bytes
blanks zero = []
blanks (suc n) = b' ' ∷ blanks n

unfoldable pub spaced : List Bytes → Bytes
spaced [] = []
spaced (v ∷ vs) = (b' ' ∷ v) ++ spaced vs

-- `strings.TrimRight(text, "\n")` and a newline.
abbrev pub ended : Bytes → Bytes
ended text = trim_right newline text ++ (newline ∷ [])

-- The error carries the line of a directive that has no key.
unfoldable pub render_directive_line : Item → Result ℕ Bytes
unfolding blanks spaced
render_directive_line it =
    if not (is_empty it.text)
    then ok (ended it.text)
    else if is_empty it.key
    then err it.line
    else ok (blanks it.indent ++ (it.key ++ (spaced it.values ++ (newline ∷ []))))

abbrev pub render_item_as : ItemKind → Item → Result ℕ Bytes
render_item_as ItemKind.comment it = ok it.text
render_item_as ItemKind.directive it = render_directive_line it
render_item_as ItemKind.block_open it = ok (ended it.text)
render_item_as ItemKind.block_close it =
    if is_empty it.text then ok (blanks it.indent ++ (b'}' ∷ newline ∷ [])) else ok (ended it.text)

unfoldable pub render_item : Item → Result ℕ Bytes
render_item it = render_item_as it.kind it

abbrev pub then_bytes : Result ℕ Bytes → Result ℕ Bytes → Result ℕ Bytes
then_bytes (ok a) (ok b) = ok (a ++ b)
then_bytes (ok a) (err e) = err e
then_bytes (err e) r = err e

unfoldable pub render_items : List Item → Result ℕ Bytes
render_items [] = ok []
render_items (it ∷ its) = then_bytes (render_item it) (render_items its)
