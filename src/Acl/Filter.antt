-- ===== src/Acl/Filter.antt =====
-- internal/acl/effective.go: whether a topic matches a filter and whether a filter covers another.
pub mod Matching
pub mod Covering
use mcm.Base.{
  Bool, true, false, not, ◌&&◌, ◌||◌, ℕ, List, [], ◌∷◌, length, is_empty, if◌then◌else◌, leb, ltb,
  ◌==◌,
}
use mcm.Text.{Bytes, text_eq}
use mcm.Acl.Levels.{hash, plus, levels}

-- The loop of `TopicMatchesFilter` over the levels that both indices have left.
unfoldable pub match_levels : List Bytes → List Bytes → Bool
match_levels [] ts = is_empty ts
match_levels (f ∷ fs) [] = if text_eq f hash then is_empty fs else false
match_levels (f ∷ fs) (t ∷ ts) =
    if text_eq f hash
    then is_empty fs
    else if not (text_eq f plus) && not (text_eq f t)
    then false
    else match_levels fs ts

unfoldable pub topic_matches_filter : Bytes → Bytes → Bool
topic_matches_filter filter topic =
    if is_empty filter || is_empty topic then false else match_levels (levels filter) (levels topic)

unfoldable pub level_covers : Bytes → Bytes → Bool
level_covers deny grant =
    if text_eq deny plus
    then not (text_eq grant hash)
    else if text_eq grant hash
    then false
    else text_eq deny grant

-- The two loops of `FilterCovers`. The callers compare the lengths first, so that the grant has a
-- level for each level of the deny.
unfoldable pub levels_cover : List Bytes → List Bytes → Bool
levels_cover [] gs = true
levels_cover (d ∷ ds) [] = false
levels_cover (d ∷ ds) (g ∷ gs) = if level_covers d g then levels_cover ds gs else false

-- `denyLevels[len-1] == "#"`, and `denyLevels[:len-1]`.
unfoldable pub ends_in_hash : List Bytes → Bool
ends_in_hash [] = false
ends_in_hash (l ∷ []) = text_eq l hash
ends_in_hash (l ∷ k ∷ ls) = ends_in_hash (k ∷ ls)

unfoldable pub without_last : List Bytes → List Bytes
without_last [] = []
without_last (l ∷ []) = []
without_last (l ∷ k ∷ ls) = l ∷ without_last (k ∷ ls)

unfoldable pub cover_levels : List Bytes → List Bytes → Bool
cover_levels ds gs =
    if ends_in_hash ds
    then (let prefix = without_last ds in
        if ltb (length gs) (length prefix) then false else levels_cover prefix gs)
    else if not (length ds == length gs)
    then false
    else levels_cover ds gs

unfoldable pub filter_covers : Bytes → Bytes → Bool
filter_covers deny grant =
    if is_empty deny || is_empty grant then false else cover_levels (levels deny) (levels grant)
