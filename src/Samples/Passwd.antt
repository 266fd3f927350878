-- ===== src/Samples/Passwd.antt =====
-- A password file with two users, and a code for bytes in which no dollar sign occurs.
use mcm.Base.{
  ℕ, zero, suc, ◌≡◌, refl, Bool-cases, inl, inr, ==_iff, true, false, List, [], ◌∷◌, some, arith,
  ◌==◌, length, if◌then◌else◌, ◌∙◌, ap, ◌++◌,
}
use mcm.Base.Int.{ℤ}
use mcm.Base.Result.{ok}
use mcm.Text.{Bytes, codes, text_eq, has_byte, has_prefix, text_lt, trim_space}
use mcm.Text.Split.{split}
use mcm.Base.Members.{All}
use mcm.Passwd.{
  Crypto, IsCrypto, hash_password, verify_password, PasswdEntry, parse_passwd_file,
  render_passwd_file, sort_entries,
}
use mathlib.Core.List.{Perm}
use mcm.Passwd.Sorting.{IsNamedOnce, IsRising}
use mcm.Passwd.Hash.{verify-hash_password}
use mcm.Passwd.File.{IsEntry, parse-render_passwd_file}

-- The dollar sign is written as `AB`, an `A` as `AA`.
encode : Bytes → Bytes
encode [] = []
encode (x ∷ s) =
    let rest = encode s in
    if x == b'$' then b'A' ∷ b'B' ∷ rest else if x == b'A' then b'A' ∷ b'A' ∷ rest else x ∷ rest

decode : Bytes → Bytes
decode [] = []
decode (x ∷ []) = x ∷ []
decode (x ∷ y ∷ s) =
    let rest = decode s in
    let onward = decode (y ∷ s) in
    if x == b'A' then (if y == b'B' then b'$' ∷ rest else b'A' ∷ rest) else x ∷ onward

decode_cons : (x : ℕ) (s : Bytes) → (x == b'A') ≡ false → decode (x ∷ s) ≡ x ∷ decode s
unfolding decode
decode_cons x [] h = refl
decode_cons x (y ∷ s) h = rw h refl

decode_dollar : (s : Bytes) → decode (b'A' ∷ b'B' ∷ s) ≡ b'$' ∷ decode s
unfolding decode
decode_dollar s = refl

decode_letter : (s : Bytes) → decode (b'A' ∷ b'A' ∷ s) ≡ b'A' ∷ decode s
unfolding decode
decode_letter s = refl

decode-encode : (s : Bytes) → decode (encode s) ≡ s
unfolding encode
decode-encode [] = unfold decode in refl
decode-encode (x ∷ s) = elim (Bool-cases (x == b'$')) [
  | inl e ↦
      let same : x ≡ b'$' = (==_iff x b'$').0 e in
      rw (e, same) (decode_dollar (encode s) ∙ ap (λ (t : Bytes). b'$' ∷ t) (decode-encode s))
  | inr e ↦ elim (Bool-cases (x == b'A')) [
    | inl f ↦
        let same : x ≡ b'A' = (==_iff x b'A').0 f in
        rw (e, f, same) (decode_letter (encode s) ∙ ap (λ (t : Bytes). b'A' ∷ t) (decode-encode s))
    | inr f ↦ rw (e, f, decode_cons x (encode s) f, decode-encode s) refl
  ]
]

encode-no_dollar : (s : Bytes) → has_byte b'$' (encode s) ≡ false
unfolding encode has_byte
encode-no_dollar [] = refl
encode-no_dollar (x ∷ s) = ground (arith, encode-no_dollar s)

-- The first `n` bytes, filled up.
filled : ℕ → Bytes → Bytes
filled zero s = []
filled (suc n) [] = b'=' ∷ filled n []
filled (suc n) (x ∷ s) = x ∷ filled n s

length-filled : (n : ℕ) (s : Bytes) → length (filled n s) ≡ n
unfolding filled
length-filled zero s = refl
length-filled (suc n) [] = ap suc (length-filled n [])
length-filled (suc n) (x ∷ s) = ap suc (length-filled n s)

abbrev plain : Crypto
plain = record {
  derive = λ p s i n. filled n (p ++ s);
  encode = encode;
  decode = λ s. some (decode s);
}

plain-IsCrypto : IsCrypto plain
plain-IsCrypto = record {
  length-derive = λ p s i n. length-filled n (p ++ s);
  decode-encode = λ s. ap some (decode-encode s);
  encode-no_dollar = encode-no_dollar;
}

abbrev salt : Bytes
salt = codes "abcdefghijkl"

-- Another password has another key here.
verify-hash_password_example :
    (h : Bytes) × (hash_password plain (some salt) (codes "secret") (ℤ.pos 101) ≡ ok h)
    × (verify_password plain h (codes "secret") ≡ ok true)
    × (verify_password plain h (codes "guess")
        ≡ ok (
            text_eq
              (plain.derive (codes "guess") salt (ℤ.pos 101) 64)
              (plain.derive (codes "secret") salt (ℤ.pos 101) 64)))
verify-hash_password_example =
    verify-hash_password plain plain-IsCrypto salt (codes "secret") (ℤ.pos 101) refl (omega arith)
      (codes "guess")

abbrev user : Bytes → PasswdEntry
user name = record { username = name; hash = codes "$7$101$abc$def" }

abbrev users : List PasswdEntry
users = user (codes "bob") ∷ user (codes "alice") ∷ []

users-IsEntry : All IsEntry users
unfolding has_byte has_prefix trim_space
users-IsEntry = (
  record {
    named = refl;
    no_colon = refl;
    no_hash_sign = refl;
    hashed = refl;
    name_trimmed = refl;
    hash_trimmed = refl;
    line_trimmed = refl;
    one_line = refl;
  },
  (
    record {
      named = refl;
      no_colon = refl;
      no_hash_sign = refl;
      hashed = refl;
      name_trimmed = refl;
      hash_trimmed = refl;
      line_trimmed = refl;
      one_line = refl;
    },
    tt,
  ),
)

users-IsNamedOnce : IsNamedOnce users
unfolding text_eq
users-IsNamedOnce = ((refl, tt), (tt, tt))

parse-render_passwd_file_example :
    Perm (parse_passwd_file (render_passwd_file users)) users
    × IsRising (parse_passwd_file (render_passwd_file users))
parse-render_passwd_file_example = parse-render_passwd_file users users-IsEntry users-IsNamedOnce

sorted : sort_entries users ≡ user (codes "alice") ∷ user (codes "bob") ∷ []
unfolding sort_entries text_lt
sorted = refl

-- A name that begins with a hash sign is rendered as a comment.
lost : parse_passwd_file (render_passwd_file (user (codes "#1") ∷ [])) ≡ []
unfolding parse_passwd_file render_passwd_file split has_prefix trim_space
lost = refl
