-- ===== src/Text/Decimal.antt =====
-- `strconv.FormatUint(n, 10)` and `strconv.ParseUint(s, 10, 64)`.
use native.Mathlib.Nat.{pow-suc}
use mcm.Base.{
  ℕ, zero, suc, ◌+◌, ◌-◌, ◌*◌, ◌/◌, ◌%◌, ◌^◌, ◌<◌, ◌≡◌, refl, ◌||◌, [], ◌∷◌, arith, ltb, ◌==◌,
  if◌then◌else◌, Bool-cases, inl, inr, ◌∙◌,
}
use mcm.Text.Strings.{Bytes}

-- The digits of `n` in front of `out`, in at most `fuel` rounds.
unfoldable pub digits : ℕ → ℕ → Bytes → Bytes
digits zero n out = out
digits (suc fuel) n out =
    let more = digits fuel (n / 10) ((b'0' + n % 10) ∷ out) in if n == 0 then out else more

-- A uint64 has at most twenty digits.
unfoldable pub format_uint : ℕ → Bytes
format_uint n = if n == 0 then b'0' ∷ [] else digits 20 n []

-- The value that `ParseUint` returns beside its error: 0 for a bad character, 2^64 - 1 out of range.
parse_from : ℕ → Bytes → ℕ
parse_from n [] = n
parse_from n (c ∷ s) =
    let onward = parse_from (n * 10 + (c - b'0')) s in
    if ltb c b'0' || ltb b'9' c
    then 0
    else if ltb (2 ^ 64 - 1) (n * 10 + (c - b'0'))
    then 2 ^ 64 - 1
    else onward

unfoldable pub parse_uint : Bytes → ℕ
unfolding parse_from
parse_uint s = parse_from 0 s

parse_from-digits :
    (fuel n : ℕ) (out : Bytes)
    → n < 10 ^ fuel
    → n < 2 ^ 64
    → parse_from 0 (digits fuel n out) ≡ parse_from n out
unfolding digits parse_from
parse_from-digits zero n out h k = let e : n ≡ 0 = omega arith in rw e
parse_from-digits (suc fuel) n out h k =
    ground (arith, pow-suc 10 fuel, parse_from-digits fuel (n / 10) ((b'0' + n % 10) ∷ out))

parse_uint-digits : (n : ℕ) → n < 2 ^ 64 → parse_from 0 (digits 20 n []) ≡ n
parse_uint-digits n h = parse_from-digits 20 n [] (omega arith) h ∙ unfold parse_from in refl

-- Reading a printed number gives it back.
pub parse_uint-format_uint : (n : ℕ) → n < 2 ^ 64 → parse_uint (format_uint n) ≡ n
unfolding parse_uint format_uint
parse_uint-format_uint n h = elim (Bool-cases (n == 0)) [
  | inl e ↦ let z : n ≡ 0 = ground arith in rw z
  | inr e ↦ rw e (parse_uint-digits n h)
]
