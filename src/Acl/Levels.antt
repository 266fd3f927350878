-- ===== src/Acl/Levels.antt =====
-- Topic levels: the parts of a topic or a filter between slashes.
use mcm.Base.{ℕ, List}
use mcm.Text.{Bytes, codes}
use mcm.Text.Split.{split}

abbrev pub slash : ℕ
slash = b'/'

-- The multi-level and the single-level wildcard.
abbrev pub hash : Bytes
hash = codes "#"

abbrev pub plus : Bytes
plus = codes "+"

abbrev pub levels : Bytes → List Bytes
levels t = split slash t
