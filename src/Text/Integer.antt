-- ===== src/Text/Integer.antt =====
-- `strconv.Atoi` and the decimal form of an `int`, which has 64 bits.
use native.Mathlib.Nat.{pow-suc}
use mcm.Base.{
  ℕ, zero, suc, ◌+◌, ◌-◌, ◌*◌, ◌/◌, ◌%◌, ◌^◌, ◌<◌, ◌≤◌, ◌≡◌, refl, [], ◌∷◌, Option, none, some,
  Bool, false, arith, ltb, leb, ◌==◌, if◌then◌else◌, Bool-cases, inl, inr, ◌∙◌, ap,
}
use mcm.Base.Int.{ℤ}
use mcm.Text.Strings.{Bytes}
use mcm.Text.Decimal.{digits, format_uint}

abbrev pub is_digit : ℕ → Bool
is_digit c = if ltb c b'0' then false else leb c b'9'

-- The value of digits behind a number.
unfoldable pub parse_digits : ℕ → Bytes → Option ℕ
parse_digits n [] = some n
parse_digits n (c ∷ s) =
    let rest = parse_digits (n * 10 + (c - b'0')) s in if is_digit c then rest else none

abbrev pub positive : Option ℕ → Option ℤ
positive none = none
positive (some n) = if ltb n (2 ^ 63) then some (ℤ.pos n) else none

abbrev pub negated : ℕ → Option ℤ
negated zero = some (ℤ.pos 0)
negated (suc n) = if leb (suc n) (2 ^ 63) then some (ℤ.negsuc n) else none

abbrev pub negative : Option ℕ → Option ℤ
negative none = none
negative (some n) = negated n

-- The digits behind a sign, which are not none.
abbrev pub unsigned : Bytes → Option ℕ
unsigned [] = none
unsigned (c ∷ s) = parse_digits 0 (c ∷ s)

unfoldable pub atoi : Bytes → Option ℤ
unfolding parse_digits
atoi [] = none
atoi (c ∷ s) =
    if c == b'-'
    then negative (unsigned s)
    else if c == b'+'
    then positive (unsigned s)
    else positive (unsigned (c ∷ s))

unfoldable pub format_int : ℤ → Bytes
format_int (ℤ.pos n) = format_uint n
format_int (ℤ.negsuc n) = b'-' ∷ format_uint (n + 1)

-- The numbers that 64 bits hold.
abbrev pub IsInt64 : ℤ → Type 0
IsInt64 (ℤ.pos n) = n < 2 ^ 63
IsInt64 (ℤ.negsuc n) = n < 2 ^ 63

parse_digits-digits :
    (fuel n : ℕ) (out : Bytes)
    → n < 10 ^ fuel
    → parse_digits 0 (digits fuel n out) ≡ parse_digits n out
unfolding digits parse_digits
parse_digits-digits zero n out h = let e : n ≡ 0 = omega arith in rw e
parse_digits-digits (suc fuel) n out h =
    ground (arith, pow-suc 10 fuel, parse_digits-digits fuel (n / 10) ((b'0' + n % 10) ∷ out))

parse_digits-format_uint : (n : ℕ) → n < 2 ^ 64 → parse_digits 0 (format_uint n) ≡ some n
unfolding format_uint
parse_digits-format_uint n h = elim (Bool-cases (n == 0)) [
  | inl e ↦ let z : n ≡ 0 = ground arith in rw z (unfold parse_digits in refl)
  | inr e ↦ rw e (parse_digits-digits 20 n [] (omega arith) ∙ unfold parse_digits in refl)
]

-- The first byte is a digit.
abbrev StartsWithDigit : Bytes → Type 0
StartsWithDigit [] = ⊥
StartsWithDigit (c ∷ s) = (b'0' ≤ c) × (c ≤ b'9')

digits-StartsWithDigit :
    (fuel n : ℕ) (c : ℕ) (out : Bytes)
    → b'0' ≤ c
    → c ≤ b'9'
    → StartsWithDigit (digits fuel n (c ∷ out))
unfolding digits
digits-StartsWithDigit zero n c out h k = (h, k)
digits-StartsWithDigit (suc fuel) n c out h k =
    let ih =
      digits-StartsWithDigit fuel (n / 10) (b'0' + n % 10) (c ∷ out) (omega arith) (omega arith) in
    elim (Bool-cases (n == 0)) [ inl e ↦ rw e (h, k) | inr e ↦ rw e ih ]

format_uint-StartsWithDigit : (n : ℕ) → StartsWithDigit (format_uint n)
unfolding format_uint
format_uint-StartsWithDigit n = elim (Bool-cases (n == 0)) [
  | inl e ↦ rw e (omega arith, omega arith)
  | inr e ↦ rw e (start n e)
]
  where
    start : (n : ℕ) → (n == 0) ≡ false → StartsWithDigit (digits 20 n [])
    start n e =
        unfold digits in
        rw e (digits-StartsWithDigit 19 (n / 10) (b'0' + n % 10) [] (omega arith) (omega arith))

signed :
    (s : Bytes) (n : ℕ)
    → StartsWithDigit s
    → parse_digits 0 s ≡ some n
    → (atoi s ≡ positive (some n)) × (atoi (b'-' ∷ s) ≡ negative (some n))
unfolding atoi
signed [] n h e = absurd h
signed (c ∷ s) n h e =
    let minus : (c == b'-') ≡ false = ground arith in
    let plus : (c == b'+') ≡ false = ground arith in
    (rw (minus, plus) (ap positive e), ap negative e)

-- Reading a printed number gives it back.
pub atoi-format_int : (i : ℤ) → IsInt64 i → atoi (format_int i) ≡ some i
unfolding format_int
atoi-format_int (ℤ.pos n) h =
    (signed (format_uint n) n (format_uint-StartsWithDigit n)
      (parse_digits-format_uint n (omega (arith, h)))).0
    ∙ ground arith
atoi-format_int (ℤ.negsuc n) h =
    (signed (format_uint (n + 1)) (n + 1) (format_uint-StartsWithDigit (n + 1))
      (parse_digits-format_uint (n + 1) (omega (arith, h)))).1
    ∙ (let e : n + 1 ≡ suc n = omega arith in rw e (ground arith))
