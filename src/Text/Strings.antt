-- ===== src/Text/Strings.antt =====
-- Byte strings: literals, equality, order, prefixes and searches.
use Prim.Native.Char.{code}
use mcm.Base.Members.{Memᴰ}
use mcm.Base.{Bool-cases, inl, inr, sym, ==_iff}
use mcm.Base.{
  ℕ, ◌≡◌, refl, ◌↔◌, Bool, true, false, List, [], ◌∷◌, String, arith, ltb, ◌==◌, if◌then◌else◌,
}

abbrev pub Bytes : Type 0
Bytes = List ℕ

-- The bytes of an ASCII literal.
abbrev pub codes : String → Bytes
codes String.[] = []
codes (String.◌∷◌ c s) = code c ∷ codes s

-- `a == b` on strings.
unfoldable pub text_eq : Bytes → Bytes → Bool
text_eq [] [] = true
text_eq (x ∷ xs) (y ∷ ys) = if x == y then text_eq xs ys else false
text_eq _ _ = false

text_eq_sound : (a b : Bytes) → text_eq a b ≡ true → a ≡ b
unfolding text_eq
text_eq_sound [] [] h = refl
text_eq_sound (x ∷ xs) (y ∷ ys) h = ground (arith, text_eq_sound xs ys)
text_eq_sound _ _ h = cc

pub text_eq_refl : (a : Bytes) → text_eq a a ≡ true
unfolding text_eq
text_eq_refl [] = refl
text_eq_refl (x ∷ xs) = ground (arith, text_eq_refl xs)

pub text_eq_iff : (a b : Bytes) → (text_eq a b ≡ true) ↔ (a ≡ b)
text_eq_iff a b = (text_eq_sound a b, λ e. rw e (text_eq_refl b))

pub text_eq-false : (a b : Bytes) → text_eq a b ≡ false → text_eq b a ≡ false
text_eq-false a b h = ground (arith, text_eq_iff a b, text_eq_iff b a)

-- `a < b` on strings: the order of the bytes, a prefix first.
unfoldable pub text_lt : Bytes → Bytes → Bool
text_lt [] [] = false
text_lt [] (y ∷ ys) = true
text_lt (x ∷ xs) [] = false
text_lt (x ∷ xs) (y ∷ ys) = if ltb x y then true else if x == y then text_lt xs ys else false

-- `strings.Contains(s, string(c))` for an ASCII `c`.
unfoldable pub has_byte : ℕ → Bytes → Bool
has_byte c [] = false
has_byte c (x ∷ xs) = if x == c then true else has_byte c xs

-- `strings.HasPrefix(s, p)`.
unfoldable pub has_prefix : Bytes → Bytes → Bool
has_prefix [] s = true
has_prefix (p ∷ ps) [] = false
has_prefix (p ∷ ps) (x ∷ xs) = if x == p then has_prefix ps xs else false

-- `strings.Contains(s, p)`.
unfoldable pub has_text : Bytes → Bytes → Bool
unfolding has_prefix
has_text p [] = has_prefix p []
has_text p (x ∷ xs) = if has_prefix p (x ∷ xs) then true else has_text p xs

-- `strings.ContainsAny(s, chars)` for ASCII `chars`.
unfoldable pub has_any : Bytes → Bytes → Bool
unfolding has_byte
has_any chars [] = false
has_any chars (x ∷ xs) = if has_byte x chars then true else has_any chars xs

-- `strings.ReplaceAll(s, old, new)` for single bytes.
unfoldable pub replace_byte : ℕ → ℕ → Bytes → Bytes
replace_byte old new [] = []
replace_byte old new (x ∷ xs) = (if x == old then new else x) ∷ replace_byte old new xs

pub replace_byte-gone :
    (old new : ℕ) (s : Bytes) → (new == old) ≡ false → has_byte old (replace_byte old new s) ≡ false
unfolding replace_byte has_byte
replace_byte-gone old new [] h = refl
replace_byte-gone old new (x ∷ xs) h = ground (arith, replace_byte-gone old new xs h)

has_byte→mem : (c : ℕ) (s : Bytes) → has_byte c s ≡ true → Memᴰ c s
unfolding has_byte
has_byte→mem c [] h = cc
has_byte→mem c (x ∷ xs) h = elim (Bool-cases (x == c)) [
  | inl e ↦ Memᴰ.head (sym ((==_iff x c).0 e))
  | inr e ↦ Memᴰ.tail (has_byte→mem c xs (rw e at h))
]

mem→has_byte : (c : ℕ) (s : Bytes) → Memᴰ c s → has_byte c s ≡ true
unfolding has_byte
mem→has_byte c [] m = elim m [ ]
mem→has_byte c (x ∷ xs) (Memᴰ.head e) = ground arith
mem→has_byte c (x ∷ xs) (Memᴰ.tail m) = ground (arith, mem→has_byte c xs m)

pub has_byte_iff : (c : ℕ) (s : Bytes) → (has_byte c s ≡ true) ↔ Memᴰ c s
has_byte_iff c s = (has_byte→mem c s, mem→has_byte c s)

-- The order of texts is asymmetric.
pub text_lt_asymm : (a b : Bytes) → text_lt a b ≡ true → text_lt b a ≡ false
unfolding text_lt
text_lt_asymm [] [] h = refl
text_lt_asymm [] (y ∷ ys) h = refl
text_lt_asymm (x ∷ xs) [] h = cc
text_lt_asymm (x ∷ xs) (y ∷ ys) h = ground (arith, text_lt_asymm xs ys)

pub text_lt_trans : (a b c : Bytes) → text_lt a b ≡ true → text_lt b c ≡ true → text_lt a c ≡ true
unfolding text_lt
text_lt_trans [] [] c h k = cc
text_lt_trans [] (y ∷ ys) [] h k = cc
text_lt_trans [] (y ∷ ys) (z ∷ zs) h k = refl
text_lt_trans (x ∷ xs) [] c h k = cc
text_lt_trans (x ∷ xs) (y ∷ ys) [] h k = cc
text_lt_trans (x ∷ xs) (y ∷ ys) (z ∷ zs) h k = ground (arith, text_lt_trans xs ys zs)

-- Of two texts that differ one is less.
pub text_lt_total : (a b : Bytes) → text_eq a b ≡ false → text_lt b a ≡ false → text_lt a b ≡ true
unfolding text_lt text_eq
text_lt_total [] [] h k = cc
text_lt_total [] (y ∷ ys) h k = refl
text_lt_total (x ∷ xs) [] h k = cc
text_lt_total (x ∷ xs) (y ∷ ys) h k = ground (arith, text_lt_total xs ys)
