-- ===== src/Passwd.antt =====
-- internal/mosquitto/passwd.go: password files. The key derivation and the base64 code are libraries,
-- and the random salt comes from the system: the record Crypto has the functions, IsCrypto what is
-- documented of them. The texts of the errors are left out.
pub mod Hash
pub mod Sorting
pub mod File
use mcm.Base.{
  ℕ, ◌≡◌, Bool, true, false, not, ◌&&◌, ◌||◌, List, [], ◌∷◌, ◌++◌, Option, none, some,
  if◌then◌else◌, is_empty, length, ◌==◌,
}
use mcm.Base.Int.{ℤ}
use mcm.Base.Result.{Result, ok, err}
use mcm.Text.{Bytes, codes, text_eq, text_lt, has_byte, has_prefix, trim_space}
use mcm.Text.Split.{split}
use mcm.Text.Integer.{atoi, format_int}

pub record Crypto : Type 0 where
  -- `pbkdf2.Key` with sha512: of a password, a salt, the iterations and the length of the key.
  pub derive : Bytes → Bytes → ℤ → ℕ → Bytes
  -- `base64.StdEncoding`.
  pub encode : Bytes → Bytes
  pub decode : Bytes → Option Bytes

-- A key has the length asked for, what is encoded is decoded again, and base64 has no dollar sign.
pub record IsCrypto (c : Crypto) : Type 0 where
  pub length-derive :
      (password salt : Bytes) (iterations : ℤ) (n : ℕ)
      → length (c.derive password salt iterations n) ≡ n
  pub decode-encode : (s : Bytes) → c.decode (c.encode s) ≡ some s
  pub encode-no_dollar : (s : Bytes) → has_byte b'$' (c.encode s) ≡ false

pub data HashError : Type 0 where
  no_salt bad_format bad_iterations bad_salt bad_salt_length bad_key bad_key_length : HashError

pub record HashParts : Type 0 where
  pub iterations : ℤ
  pub salt : Bytes
  pub key : Bytes

-- `HashPassword`, by the salt that `rand.Read` gives, or its error.
unfoldable pub hash_password : Crypto → Option Bytes → Bytes → ℤ → Result HashError Bytes
hash_password c none password iterations = err no_salt
hash_password c (some salt) password iterations = ok (
    b'$'
    ∷ b'7'
    ∷ b'$'
    ∷ (format_int iterations
        ++ (b'$' ∷ (c.encode salt ++ (b'$' ∷ c.encode (c.derive password salt iterations 64))))))

abbrev pub checked_key : ℤ → Bytes → Option Bytes → Result HashError HashParts
checked_key i salt none = err bad_key
checked_key i salt (some key) =
    if length key == 64
    then ok (record { iterations = i; salt = salt; key = key })
    else err bad_key_length

abbrev pub checked_salt : Crypto → ℤ → Option Bytes → Bytes → Result HashError HashParts
checked_salt c i none k = err bad_salt
checked_salt c i (some salt) k =
    if length salt == 12 then checked_key i salt (c.decode k) else err bad_salt_length

abbrev pub checked_iterations : Crypto → Option ℤ → Bytes → Bytes → Result HashError HashParts
checked_iterations c none s k = err bad_iterations
checked_iterations c (some i) s k = checked_salt c i (c.decode s) k

abbrev pub hash_parts : Crypto → List Bytes → Result HashError HashParts
hash_parts c (a ∷ b ∷ i ∷ s ∷ k ∷ []) =
    if is_empty a && text_eq b (codes "7")
    then checked_iterations c (atoi i) s k
    else err bad_format
hash_parts c _ = err bad_format

unfoldable pub parse_hash : Crypto → Bytes → Result HashError HashParts
parse_hash c hash = hash_parts c (split b'$' hash)

abbrev pub key_matches : Crypto → Bytes → Result HashError HashParts → Result HashError Bool
key_matches c password (err e) = err e
key_matches c password (ok p) = ok (text_eq (c.derive password p.salt p.iterations 64) p.key)

unfoldable pub verify_password : Crypto → Bytes → Bytes → Result HashError Bool
unfolding parse_hash
verify_password c hash password = key_matches c password (parse_hash c hash)

pub record PasswdEntry : Type 0 where
  pub username : Bytes
  pub hash : Bytes

unfoldable pub insert_entry : PasswdEntry → List PasswdEntry → List PasswdEntry
insert_entry e [] = e ∷ []
insert_entry e (f ∷ fs) =
    let rest = insert_entry e fs in if text_lt f.username e.username then f ∷ rest else e ∷ f ∷ fs

-- `sort.Slice` by the name. Go leaves the order of entries with the same name open; what is said of the
-- result is said of entries with names of their own, which have one order only.
unfoldable pub sort_entries : List PasswdEntry → List PasswdEntry
unfolding insert_entry
sort_entries [] = []
sort_entries (e ∷ es) = insert_entry e (sort_entries es)

abbrev pub passwd_line : PasswdEntry → Bytes
passwd_line e = e.username ++ (b':' ∷ e.hash)

abbrev pub newline : ℕ
newline = 10

unfoldable pub write_lines : List PasswdEntry → Bytes
write_lines [] = []
write_lines (e ∷ es) = passwd_line e ++ (newline ∷ write_lines es)

unfoldable pub render_passwd_file : List PasswdEntry → Bytes
unfolding sort_entries write_lines
render_passwd_file es = write_lines (sort_entries es)

-- What stands in front of the first such byte and behind it.
unfoldable pub cut : ℕ → Bytes → Option (Bytes × Bytes)
cut c [] = none
cut c (x ∷ s) =
    let rest = cut c s in
    if x == c then some ([], s) else elim rest [ none ↦ none | some (a, b) ↦ some (x ∷ a, b) ]

abbrev pub entry_of : Option (Bytes × Bytes) → List PasswdEntry
entry_of none = []
entry_of (some (a, b)) =
    if is_empty a || is_empty b
    then []
    else record { username = trim_space a; hash = trim_space b } ∷ []

-- One round of the loop of `ParsePasswdFile`, by the trimmed line.
unfoldable pub parse_passwd_line : Bytes → List PasswdEntry
unfolding cut
parse_passwd_line line =
    if is_empty line || has_prefix (codes "#") line then [] else entry_of (cut b':' line)

unfoldable pub parse_passwd_lines : List Bytes → List PasswdEntry
unfolding parse_passwd_line
parse_passwd_lines [] = []
parse_passwd_lines (l ∷ ls) = parse_passwd_line (trim_space l) ++ parse_passwd_lines ls

unfoldable pub parse_passwd_file : Bytes → List PasswdEntry
unfolding parse_passwd_lines
parse_passwd_file body = if is_empty body then [] else parse_passwd_lines (split newline body)
