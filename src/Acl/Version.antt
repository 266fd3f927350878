-- ===== src/Acl/Version.antt =====
-- internal/acl/acl.go: dotted version numbers.
use mcm.Base.{
  ℕ, ◌+◌, ◌-◌, ◌*◌, ◌%◌, ◌^◌, Bool, true, false, ◌||◌, List, [], ◌∷◌, Option, none, some, ltb, ◌==◌,
  if◌then◌else◌, is_empty, ◌≡◌, refl,
}
use mcm.Text.{Bytes, codes, trim_space, runes}
use mcm.Text.Split.{split}

-- `int` is 64 bits wide: a bit pattern below 2^64, whose order is the signed one.
abbrev signed_gt : ℕ → ℕ → Bool
signed_gt a b = ltb ((b + 2 ^ 63) % 2 ^ 64) ((a + 2 ^ 63) % 2 ^ 64)

parse_number : ℕ → List ℕ → Option ℕ
parse_number n [] = some n
parse_number n (r ∷ rs) =
    if ltb r b'0' || ltb b'9' r then none else parse_number ((n * 10 + (r - b'0')) % 2 ^ 64) rs

abbrev prepend : Option ℕ → Option (List ℕ) → Option (List ℕ)
prepend (some n) (some ns) = some (n ∷ ns)
prepend _ _ = none

parse_parts : List Bytes → Option (List ℕ)
parse_parts [] = some []
parse_parts (p ∷ ps) =
    let rest = parse_parts ps in
    if is_empty p then none else prepend (parse_number 0 (runes p)) rest

unfoldable pub parse_mosquitto_version : Bytes → Option (List ℕ)
unfolding parse_parts parse_number
parse_mosquitto_version version =
    let trimmed = trim_space version in
    if is_empty trimmed then none else parse_parts (split b'.' trimmed)

-- The loop over both lists of numbers; the shorter one goes on with zeros.
unfoldable pub numbers_at_least : List ℕ → List ℕ → Bool
numbers_at_least [] [] = true
numbers_at_least (c ∷ cs) [] = if c == 0 then numbers_at_least cs [] else signed_gt c 0
numbers_at_least [] (r ∷ rs) = if 0 == r then numbers_at_least [] rs else signed_gt 0 r
numbers_at_least (c ∷ cs) (r ∷ rs) = if c == r then numbers_at_least cs rs else signed_gt c r

abbrev at_least : Option (List ℕ) → Option (List ℕ) → Bool
at_least (some c) (some r) = numbers_at_least c r
at_least _ _ = false

unfoldable pub mosquitto_version_at_least : Bytes → Bytes → Bool
unfolding parse_mosquitto_version numbers_at_least
mosquitto_version_at_least version minimum =
    at_least (parse_mosquitto_version version) (parse_mosquitto_version minimum)

supported_deny : mosquitto_version_at_least (codes "2.0") (codes "2.0") ≡ true
unfolding mosquitto_version_at_least trim_space runes split
supported_deny = refl

old_no_deny : mosquitto_version_at_least (codes "1.6.12") (codes "2.0") ≡ false
unfolding mosquitto_version_at_least trim_space runes split
old_no_deny = refl
