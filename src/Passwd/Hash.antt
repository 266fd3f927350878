-- ===== src/Passwd/Hash.antt =====
-- A password is accepted by the hash that was made of it.
use mcm.Base.{
  ℕ, zero, suc, ◌+◌, ◌/◌, ◌%◌, ◌≡◌, refl, true, false, List, [], ◌∷◌, ◌++◌, ◌==◌, Bool-cases, inl,
  inr, arith, some, ◌∙◌, ap, length,
}
use mcm.Base.Int.{ℤ}
use mcm.Base.Result.{ok}
use mcm.Text.{Bytes, codes, text_eq, text_eq_refl, has_byte}
use mcm.Text.Decimal.{digits, format_uint}
use mcm.Text.Integer.{format_int, atoi-format_int, IsInt64}
use mcm.Text.Split.{split, split-append, split_of_no_sep}
use mcm.Passwd.{Crypto, IsCrypto, hash_password, parse_hash, verify_password}

digits-no_dollar :
    (fuel n : ℕ) (out : Bytes)
    → has_byte b'$' out ≡ false
    → has_byte b'$' (digits fuel n out) ≡ false
unfolding digits has_byte
digits-no_dollar zero n out h = h
digits-no_dollar (suc fuel) n out h =
    let ih = digits-no_dollar fuel (n / 10) ((b'0' + n % 10) ∷ out) (ground arith) in
    elim (Bool-cases (n == 0)) [ inl e ↦ rw e h | inr e ↦ rw e ih ]

format_uint-no_dollar : (n : ℕ) → has_byte b'$' (format_uint n) ≡ false
unfolding format_uint
format_uint-no_dollar n = elim (Bool-cases (n == 0)) [
  | inl e ↦ rw e (unfold has_byte in ground arith)
  | inr e ↦ rw e (digits-no_dollar 20 n [] (unfold has_byte in refl))
]

format_int-no_dollar : (i : ℤ) → has_byte b'$' (format_int i) ≡ false
unfolding format_int has_byte
format_int-no_dollar (ℤ.pos n) = format_uint-no_dollar n
format_int-no_dollar (ℤ.negsuc n) = ground (arith, format_uint-no_dollar (n + 1))

-- The five parts of a hash.
split-hash :
    (a s k : Bytes)
    → has_byte b'$' a ≡ false
    → has_byte b'$' s ≡ false
    → has_byte b'$' k ≡ false
    → split b'$' (b'$' ∷ b'7' ∷ b'$' ∷ (a ++ (b'$' ∷ (s ++ (b'$' ∷ k)))))
      ≡ [] ∷ codes "7" ∷ a ∷ s ∷ k ∷ []
split-hash a s k ha hs hk =
    split-append b'$' [] _ (unfold has_byte in refl)
    ∙ ap (λ (r : List Bytes). [] ∷ r)
        (split-append b'$' (codes "7") _ (unfold has_byte in ground arith)
          ∙ ap (λ (r : List Bytes). codes "7" ∷ r)
              (split-append b'$' a _ ha
                ∙ ap (λ (r : List Bytes). a ∷ r)
                    (split-append b'$' s k hs
                      ∙ ap (λ (r : List Bytes). s ∷ r) (split_of_no_sep b'$' k hk))))

module _ (c : Crypto) (is : IsCrypto c) (salt password : Bytes) (i : ℤ) (twelve : length salt ≡ 12)
    (small : IsInt64 i) where
  parse-hash :
      parse_hash c (
        b'$'
        ∷ b'7'
        ∷ b'$'
        ∷ (format_int i
            ++ (b'$' ∷ (c.encode salt ++ (b'$' ∷ c.encode (c.derive password salt i 64))))))
      ≡ ok (record { iterations = i; salt = salt; key = c.derive password salt i 64 })
  unfolding parse_hash
  parse-hash =
      let seven : text_eq (codes "7") (codes "7") ≡ true = unfold text_eq in ground arith in
      let sized = is.length-derive password salt i 64 in
      rw
        (
          split-hash (format_int i) (c.encode salt) (c.encode (c.derive password salt i 64))
              (format_int-no_dollar i) (is.encode-no_dollar salt)
              (is.encode-no_dollar (c.derive password salt i 64)),
          seven,
          atoi-format_int i small,
          is.decode-encode salt,
          twelve,
          is.decode-encode (c.derive password salt i 64),
          sized,
        )
        refl

  -- Let a derived key have the length asked for, what is encoded decode to itself, and no code hold
  -- a dollar sign. With a salt of twelve bytes and a 64-bit number of iterations, hashing a
  -- password succeeds; the hash accepts that password, and answers for any other one whether the
  -- key derived from it is the same.
  pub verify-hash_password :
      (other : Bytes)
      → (h : Bytes) × (hash_password c (some salt) password i ≡ ok h)
        × (verify_password c h password ≡ ok true)
        × (verify_password c h other
            ≡ ok (text_eq (c.derive other salt i 64) (c.derive password salt i 64)))
  unfolding hash_password verify_password
  verify-hash_password other = (
    _,
    refl,
    rw (parse-hash, text_eq_refl (c.derive password salt i 64)) refl,
    rw parse-hash refl,
  )
