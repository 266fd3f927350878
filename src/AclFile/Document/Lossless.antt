-- ===== src/AclFile/Document/Lossless.antt =====
-- Reading a body and rendering the document gives the body back, byte for byte.
use mcm.Base.{
  true, false, List, [], ◌∷◌, ◌++◌, ◌≡◌, refl, is_empty, inl, inr, Bool-cases, ap, ap₂, sym, ◌∙◌,
  map, ◌==◌, ==_iff, ℕ,
}
use mcm.Text.{Bytes}
use mcm.Text.Split.{split, join, split_cons, join-split, onto_first, join-onto_first}
use mcm.AclFile.Entry.{Entry, parse_acl_entry}
use mcm.AclFile.Entry.Facts.{parse_acl_entry-raw}
use mcm.AclFile.Document.{
  newline, parse_entries, ends_in_newline, drop_last, parse_acl_document, render,
}

parse_entries-raw :
    (scope : Bytes) (raws : List Bytes)
    → map (λ (e : Entry). e.raw) (parse_entries scope raws) ≡ raws
unfolding parse_entries
parse_entries-raw scope [] = refl
parse_entries-raw scope (r ∷ rs) =
    ap₂ ◌∷◌ (parse_acl_entry-raw r scope) (parse_entries-raw (parse_acl_entry r scope).1 rs)

parse_entries-empty :
    (scope : Bytes) (r : Bytes) (rs : List Bytes) → is_empty (parse_entries scope (r ∷ rs)) ≡ false
unfolding parse_entries
parse_entries-empty scope r rs = refl

drop_last-onto_first :
    (c : ℕ) (ls : List Bytes) {w : Bytes} {ws : List Bytes}
    → drop_last ls ≡ w ∷ ws
    → drop_last (onto_first c ls) ≡ (c ∷ w) ∷ ws
unfolding drop_last
drop_last-onto_first c [] e = cc
drop_last-onto_first c (l ∷ []) e = cc
drop_last-onto_first c (l ∷ k ∷ ls) e = cc

drop_last-cons :
    (v : Bytes) (ls : List Bytes) {w : Bytes} {ws : List Bytes}
    → drop_last ls ≡ w ∷ ws
    → drop_last (v ∷ ls) ≡ v ∷ w ∷ ws
unfolding drop_last
drop_last-cons v [] e = cc
drop_last-cons v (l ∷ ls) e = ap (λ (t : List Bytes). v ∷ t) e

-- A text that ends in a newline: the lines without the last, empty one, and the newline.
lines_of_terminated :
    (s : Bytes)
    → ends_in_newline s ≡ true
    → (w : Bytes) × (ws : List Bytes) × (drop_last (split newline s) ≡ w ∷ ws)
      × (join newline (w ∷ ws) ++ (newline ∷ []) ≡ s)
unfolding ends_in_newline split drop_last join
lines_of_terminated [] h = cc
lines_of_terminated (c ∷ []) h =
    ([], [], rw h, ap (λ (n : ℕ). n ∷ []) (sym ((==_iff c newline).0 h)))
lines_of_terminated (c ∷ d ∷ s) h =
    let (w, ws, e, j) = lines_of_terminated (d ∷ s) h in
    elim (Bool-cases (c == newline)) [
      | inl n ↦ (
        [],
        w ∷ ws,
        rw n (drop_last-cons [] (split newline (d ∷ s)) e),
        ap₂ ◌∷◌ (sym ((==_iff c newline).0 n)) j,
      )
      | inr n ↦ (
        c ∷ w,
        ws,
        rw n (drop_last-onto_first c (split newline (d ∷ s)) e),
        ap (λ (t : Bytes). t ++ (newline ∷ [])) (join-onto_first newline c w ws)
            ∙ ap (λ (t : Bytes). c ∷ t) j,
      )
    ]

-- Rendering the document that is read from a body gives the body, whatever its lines are.
pub render-parse_acl_document : (body : Bytes) → render (parse_acl_document body) ≡ body
unfolding render parse_acl_document
render-parse_acl_document [] = refl
render-parse_acl_document (c ∷ s) = elim (Bool-cases (ends_in_newline (c ∷ s))) [
  | inl h ↦
      let (w, ws, e, j) = lines_of_terminated (c ∷ s) h in
      rw (h, e) (rw (parse_entries-empty [] w ws, parse_entries-raw) j)
  | inr h ↦
      let (w, ws, e) = split_cons newline (c ∷ s) in
      rw (h, e)
        (rw (parse_entries-empty [] w ws, parse_entries-raw)
          (rw (← e) (join-split newline (c ∷ s))))
]
