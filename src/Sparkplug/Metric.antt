-- ===== src/Sparkplug/Metric.antt =====
-- internal/sparkplug/decode.go: the types, the loop over wire fields, and `decodeMetric`.
use mcm.Base.{
  ℕ, zero, suc, ◌-◌, ◌^◌, Bool, false, List, [], ◌∷◌, Option, none, some, ltb, leb, length, drop,
  if◌then◌else◌,
}
use mcm.Base.Int.{ℤ}
use mcm.Base.Result.{Result, ok, err}
use mcm.Text.{Bytes, codes}

-- `protowire`, which is third-party code: each function returns what it read and the number of
-- bytes that it took; nothing stands for its negative numbers.
pub record Wire : Type 0 where
  pub varint_type : ℕ
  pub fixed32_type : ℕ
  pub fixed64_type : ℕ
  pub bytes_type : ℕ
  pub consume_tag : Bytes → Option ((ℕ × ℕ) × ℕ)
  pub consume_varint : Bytes → Option (ℕ × ℕ)
  pub consume_fixed32 : Bytes → Option (ℕ × ℕ)
  pub consume_fixed64 : Bytes → Option (ℕ × ℕ)
  pub consume_bytes : Bytes → Option (Bytes × ℕ)
  pub consume_field_value : ℕ → ℕ → Bytes → Option ℕ

-- The part of a payload or a metric that an error names.
pub data Part : Type 0 where
  payload_tag timestamp seq metric unknown_field : Part
  metric_tag name alias metric_timestamp datatype is_null int_value float_value : Part
  double_value boolean_value string_value bytes_value metric_field : Part

-- The errors, with one for a slice out of range, on which Go panics, and one for rounds that ran out.
pub data DecodeError : Type 0 where
  empty_payload oversized_payload : DecodeError
  corrupt : Part → DecodeError
  out_of_range unfinished : DecodeError

-- `int64(v)` of a uint64.
unfoldable pub to_int64 : ℕ → ℤ
to_int64 v = if ltb v (2 ^ 63) then ℤ.pos v else ℤ.negsuc (2 ^ 64 - 1 - v)

-- The dynamic types of `DecodedMetric.Value`; a float is its bits.
pub data Value : Type 0 where
  nil : Value
  uint64 float32 float64 : ℕ → Value
  boolean : Bool → Value
  string bytes : Bytes → Value

pub record DecodedMetric : Type 0 where
  pub name : Bytes
  pub alias : ℕ
  pub datatype : Bytes
  pub value : Value
  pub timestamp : ℤ
  pub is_null : Bool

abbrev pub zero_metric : DecodedMetric
zero_metric = record {
  name = [];
  alias = 0;
  datatype = [];
  value = Value.nil;
  timestamp = ℤ.pos 0;
  is_null = false;
}

-- `datatypeNames` from 1 on.
abbrev datatype_names : List Bytes
datatype_names =
    codes "Int8"
    ∷ codes "Int16"
    ∷ codes "Int32"
    ∷ codes "Int64"
    ∷ codes "UInt8"
    ∷ codes "UInt16"
    ∷ codes "UInt32"
    ∷ codes "UInt64"
    ∷ codes "Float"
    ∷ codes "Double"
    ∷ codes "Boolean"
    ∷ codes "String"
    ∷ codes "DateTime"
    ∷ codes "Text"
    ∷ codes "UUID"
    ∷ codes "DataSet"
    ∷ codes "Bytes"
    ∷ codes "Template"
    ∷ []

abbrev name_at : ℕ → List Bytes → Bytes
name_at n [] = codes "Unknown"
name_at zero (t ∷ ts) = t
name_at (suc n) (t ∷ ts) = name_at n ts

unfoldable pub datatype_name : ℕ → Bytes
datatype_name zero = codes "Unknown"
datatype_name (suc n) = name_at n datatype_names

-- `if n < 0 { return err }; b = b[n:]`, with what is done with the bytes left.
abbrev pub skip {ℓ} :
    {A : Type ℓ} → ℕ → Bytes → (Bytes → Result DecodeError A) → Result DecodeError A
skip n b go = if leb n (length b) then go (drop n b) else err DecodeError.out_of_range

-- One field: its value goes into the state.
unfoldable pub consumed :
    {A S : Type 0} → Part → Option (A × ℕ) → Bytes → (A → S) → Result DecodeError (Bytes × S)
consumed part none b set = err (DecodeError.corrupt part)
consumed part (some (v, n)) b set = skip n b (λ b'. ok (b', set v))

-- A field that is not read.
unfoldable pub skipped : {S : Type 0} → Part → Option ℕ → Bytes → S → Result DecodeError (Bytes × S)
skipped part none b s = err (DecodeError.corrupt part)
skipped part (some n) b s = skip n b (λ b'. ok (b', s))

-- The tag in front of a field.
abbrev pub tagged :
    {S : Type 0}
    → Part
    → Option ((ℕ × ℕ) × ℕ)
    → Bytes
    → (ℕ → ℕ → Bytes → Result DecodeError (Bytes × S))
    → Result DecodeError (Bytes × S)
tagged part none b field = err (DecodeError.corrupt part)
tagged part (some ((num, typ), n)) b field = skip n b (field num typ)

abbrev pub continue_with :
    {S : Type 0}
    → (Bytes → S → Result DecodeError S)
    → Result DecodeError (Bytes × S)
    → Result DecodeError S
continue_with go (ok (b, s)) = go b s
continue_with go (err e) = err e

-- `for len(b) > 0`, in at most so many rounds.
unfoldable pub run_fields :
    {S : Type 0}
    → (Bytes → S → Result DecodeError (Bytes × S))
    → ℕ
    → Bytes
    → S
    → Result DecodeError S
run_fields field n [] s = ok s
run_fields field zero (c ∷ b) s = err DecodeError.unfinished
run_fields field (suc n) (c ∷ b) s = continue_with (run_fields field n) (field (c ∷ b) s)
