-- ===== src/AclFile/Document.antt =====
-- internal/mosquitto/acldoc.go: whole documents.
pub mod Lossless
pub mod Scopes
use mcm.Base.{
  ◌==◌, ℕ, Bool, true, false, not, ◌&&◌, ◌||◌, List, [], ◌∷◌, ◌++◌, Option, none, some, is_empty,
  if◌then◌else◌, keep, map,
}
use mcm.Text.{Bytes, codes, text_eq, text_lt}
use mcm.Text.Split.{split, join}
use mcm.Acl.Rule.{Rule}
use mcm.AclFile.Entry.{Entry, Kind, parse_acl_entry, semantic_key}

abbrev pub newline : ℕ
newline = 10

pub record Document : Type 0 where
  pub entries : List Entry
  pub ends_with_newline : Bool

unfoldable pub parse_entries : Bytes → List Bytes → List Entry
parse_entries scope [] = []
parse_entries scope (raw ∷ raws) =
    let (e, scope') = parse_acl_entry raw scope in e ∷ parse_entries scope' raws

-- `strings.HasSuffix(body, "\n")`.
unfoldable pub ends_in_newline : Bytes → Bool
ends_in_newline [] = false
ends_in_newline (c ∷ []) = c == newline
ends_in_newline (c ∷ d ∷ s) = ends_in_newline (d ∷ s)

-- `lines[:len(lines)-1]`.
unfoldable pub drop_last : List Bytes → List Bytes
drop_last [] = []
drop_last (l ∷ []) = []
drop_last (l ∷ k ∷ ls) = l ∷ drop_last (k ∷ ls)

unfoldable pub parse_acl_document : Bytes → Document
parse_acl_document body =
    if is_empty body
    then record { entries = []; ends_with_newline = false }
    else if ends_in_newline body
    then record {
      entries = parse_entries (codes "") (drop_last (split newline body));
      ends_with_newline = true;
    }
    else record {
      entries = parse_entries (codes "") (split newline body);
      ends_with_newline = false;
    }

unfoldable pub render : Document → Bytes
render d =
    if is_empty d.entries
    then codes ""
    else (let out = join newline (map (λ (e : Entry). e.raw) d.entries) in
        if d.ends_with_newline then out ++ (newline ∷ []) else out)

abbrev pub onto_rules : Option Rule → List Rule → List Rule
onto_rules none rs = rs
onto_rules (some r) rs = r ∷ rs

unfoldable pub rules_of : List Entry → List Rule
rules_of [] = []
rules_of (e ∷ es) = onto_rules e.rule (rules_of es)

unfoldable pub typed_rules : Document → List Rule
unfolding rules_of
typed_rules d = rules_of d.entries

abbrev pub is_user_kind : Kind → Bool
is_user_kind Kind.user = true
is_user_kind _ = false

abbrev pub is_topic_kind : Kind → Bool
is_topic_kind Kind.topic = true
is_topic_kind _ = false

abbrev pub is_unknown_kind : Kind → Bool
is_unknown_kind Kind.unknown = true
is_unknown_kind _ = false

-- Membership in the map that the source uses as a set.
unfoldable pub contains : Bytes → List Bytes → Bool
contains k [] = false
contains k (j ∷ js) = if text_eq j k then true else contains k js

-- The loop of `Principals` with its set of principals seen.
principals_from : List Bytes → List Entry → List Bytes
principals_from seen [] = []
principals_from seen (e ∷ es) =
    let skip = principals_from seen es in
    let take = e.principal ∷ principals_from (e.principal ∷ seen) es in
    if not (is_user_kind e.kind) || is_empty e.principal || contains e.principal seen
    then skip
    else take

unfoldable pub principals : Document → List Bytes
unfolding principals_from contains
principals d = principals_from [] d.entries

unfoldable pub unknown_entries : Document → List Entry
unknown_entries d = keep (λ (e : Entry). is_unknown_kind e.kind) d.entries

-- The loop of `SemanticKeys` with its set of keys seen.
unfoldable pub keys_from : List Bytes → List Entry → List Bytes
keys_from seen [] = []
keys_from seen (e ∷ es) =
    let skip = keys_from seen es in
    let take = semantic_key e ∷ keys_from (semantic_key e ∷ seen) es in
    if is_empty (semantic_key e) || contains (semantic_key e) seen then skip else take

-- `sort.Strings`.
unfoldable pub insert_text : Bytes → List Bytes → List Bytes
insert_text t [] = t ∷ []
insert_text t (u ∷ us) = if text_lt u t then u ∷ insert_text t us else t ∷ u ∷ us

unfoldable pub sort_texts : List Bytes → List Bytes
unfolding insert_text
sort_texts [] = []
sort_texts (t ∷ ts) = insert_text t (sort_texts ts)

unfoldable pub semantic_keys : Document → List Bytes
unfolding keys_from contains sort_texts
semantic_keys d = sort_texts (keys_from [] d.entries)

unfoldable pub missing_semantic_entries : Document → Document → List Bytes
missing_semantic_entries base next =
    sort_texts (keep (λ (k : Bytes). not (contains k (semantic_keys next))) (semantic_keys base))
