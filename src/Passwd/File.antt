-- ===== src/Passwd/File.antt =====
-- What is read back from a rendered password file.
use mcm.Base.{
  ℕ, ◌≡◌, refl, false, List, [], ◌∷◌, ◌++◌, ◌==◌, Bool-cases, inl, inr, arith, some, is_empty,
}
use mcm.Base.Members.{All}
use mcm.Text.{Bytes, codes, has_byte, has_prefix, trim_space}
use mcm.Text.Trim.{trim_space_nil}
use mcm.Text.Split.{split, split-append}
use mathlib.Core.List.{Perm}
use mcm.Passwd.Sorting.{
  IsNamedOnce, IsRising, sort_entries-All, sort_entries-perm, sort_entries-IsRising,
}
use mcm.Passwd.{
  PasswdEntry, sort_entries, passwd_line, newline, write_lines, render_passwd_file, cut,
  parse_passwd_line, parse_passwd_lines, parse_passwd_file,
}

-- The entries that a line of a password file can hold.
pub record IsEntry (e : PasswdEntry) : Type 0 where
  -- The name is not empty, holds no colon and does not begin with a hash sign.
  pub named : is_empty e.username ≡ false
  pub no_colon : has_byte b':' e.username ≡ false
  pub no_hash_sign : has_prefix (codes "#") e.username ≡ false
  pub hashed : is_empty e.hash ≡ false
  -- Neither the name, the hash nor the line begins or ends with a space.
  pub name_trimmed : trim_space e.username ≡ e.username
  pub hash_trimmed : trim_space e.hash ≡ e.hash
  pub line_trimmed : trim_space (passwd_line e) ≡ passwd_line e
  pub one_line : has_byte newline (passwd_line e) ≡ false

cut-append : (c : ℕ) (a b : Bytes) → has_byte c a ≡ false → cut c (a ++ (c ∷ b)) ≡ some (a, b)
unfolding cut has_byte
cut-append c [] b h = ground arith
cut-append c (x ∷ a) b h = elim (Bool-cases (x == c)) [
  | inl e ↦ let f = rw e at h in cc
  | inr e ↦ rw (e, cut-append c a b (rw e at h)) refl
]

filled_line : (a b c : Bytes) → is_empty a ≡ false → is_empty ((a ++ b) ++ c) ≡ false
filled_line [] b c h = cc
filled_line (x ∷ a) b c h = refl

passwd_line-not_empty : (a b : Bytes) → is_empty (a ++ (b':' ∷ b)) ≡ false
passwd_line-not_empty [] b = refl
passwd_line-not_empty (x ∷ a) b = refl

passwd_line-no_comment :
    (a b : Bytes)
    → is_empty a ≡ false
    → has_prefix (codes "#") a ≡ false
    → has_prefix (codes "#") (a ++ (b':' ∷ b)) ≡ false
unfolding has_prefix
passwd_line-no_comment [] b h k = cc
passwd_line-no_comment (x ∷ a) b h k = k

-- A line that holds an entry is read as that entry.
parse-passwd_line : (e : PasswdEntry) → IsEntry e → parse_passwd_line (passwd_line e) ≡ e ∷ []
unfolding parse_passwd_line
parse-passwd_line e h =
    rw
      (
        passwd_line-not_empty e.username e.hash,
        passwd_line-no_comment e.username e.hash h.named h.no_hash_sign,
        cut-append b':' e.username e.hash h.no_colon,
        h.named,
        h.hashed,
        h.name_trimmed,
        h.hash_trimmed,
      )
      refl

parse_passwd_lines-write_lines :
    (es : List PasswdEntry)
    → All IsEntry es
    → parse_passwd_lines (split newline (write_lines es)) ≡ es
unfolding parse_passwd_lines write_lines
parse_passwd_lines-write_lines [] h = unfold split parse_passwd_line in rw trim_space_nil refl
parse_passwd_lines-write_lines (e ∷ es) h =
    let ih = parse_passwd_lines-write_lines es h.1 in
    rw
      (
        split-append newline (passwd_line e) (write_lines es) h.0.one_line,
        h.0.line_trimmed,
        parse-passwd_line e h.0,
        ih,
      )
      refl

-- A file with a line is read line by line.
parse_passwd_file-write_lines :
    (es : List PasswdEntry) → All IsEntry es → parse_passwd_file (write_lines es) ≡ es
unfolding parse_passwd_file
parse_passwd_file-write_lines [] h = unfold write_lines in refl
parse_passwd_file-write_lines (e ∷ es) h =
    let filled : is_empty (write_lines (e ∷ es)) ≡ false =
      unfold write_lines in
      filled_line e.username (b':' ∷ e.hash) (newline ∷ write_lines es) h.0.named in
    rw filled (parse_passwd_lines-write_lines (e ∷ es) h)

-- Let each entry have a name and a hash, both on one line and without spaces around them, let no name
-- hold a colon or begin with a hash sign, and none come twice. The file that is rendered from the
-- entries is read back as the same entries, each as often as before, by rising name.
pub parse-render_passwd_file :
    (es : List PasswdEntry)
    → All IsEntry es
    → IsNamedOnce es
    → Perm (parse_passwd_file (render_passwd_file es)) es
      × IsRising (parse_passwd_file (render_passwd_file es))
unfolding render_passwd_file
parse-render_passwd_file es h once =
    rw (parse_passwd_file-write_lines (sort_entries es) (sort_entries-All IsEntry es h))
      (sort_entries-perm es, sort_entries-IsRising es once)
