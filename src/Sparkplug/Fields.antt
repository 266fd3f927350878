-- ===== src/Sparkplug/Fields.antt =====
-- internal/sparkplug/decode.go: `decodeMetric`.
pub mod Null
pub mod Progress
use mcm.Base.{
  ℕ, zero, suc, Bool, true, false, not, ◌&&◌, ◌%◌, ◌^◌, List, [], ◌∷◌, ◌==◌, length, if◌then◌else◌,
}
use mcm.Base.Result.{Result, ok, err}
use mcm.Text.{Bytes}
use mcm.Sparkplug.Metric.{
  Wire, Part, DecodeError, Value, DecodedMetric, zero_metric, to_int64, datatype_name, consumed,
  skipped, tagged, run_fields,
}

-- `if !m.IsNull { m.Value = v }`.
abbrev pub set_value : DecodedMetric → Value → DecodedMetric
set_value m v = if not m.is_null then record m { value = v } else m

-- The switch over the field number and the wire type.
unfoldable pub metric_field :
    Wire → DecodedMetric → ℕ → ℕ → Bytes → Result DecodeError (Bytes × DecodedMetric)
unfolding to_int64 datatype_name
metric_field w m num typ b =
    if (num == 1) && (typ == w.bytes_type)
    then consumed Part.name (w.consume_bytes b) b (λ v. record m { name = v })
    else if (num == 2) && (typ == w.varint_type)
    then consumed Part.alias (w.consume_varint b) b (λ v. record m { alias = v })
    else if (num == 3) && (typ == w.varint_type)
    then consumed Part.metric_timestamp (w.consume_varint b) b
        (λ v. record m { timestamp = to_int64 v })
    else if (num == 4) && (typ == w.varint_type)
    then consumed Part.datatype (w.consume_varint b) b
        (λ v. record m { datatype = datatype_name (v % 2 ^ 32) })
    else if (num == 7) && (typ == w.varint_type)
    then consumed Part.is_null (w.consume_varint b) b (λ v. record m { is_null = not (v == 0) })
    else if (num == 8) && (typ == w.varint_type)
    then consumed Part.int_value (w.consume_varint b) b (λ v. set_value m (Value.uint64 v))
    else if (num == 10) && (typ == w.fixed32_type)
    then consumed Part.float_value (w.consume_fixed32 b) b (λ v. set_value m (Value.float32 v))
    else if (num == 11) && (typ == w.fixed64_type)
    then consumed Part.double_value (w.consume_fixed64 b) b (λ v. set_value m (Value.float64 v))
    else if (num == 12) && (typ == w.varint_type)
    then consumed Part.boolean_value (w.consume_varint b) b
        (λ v. set_value m (Value.boolean (not (v == 0))))
    else if (num == 13) && (typ == w.bytes_type)
    then consumed Part.string_value (w.consume_bytes b) b (λ v. set_value m (Value.string v))
    else if (num == 14) && (typ == w.bytes_type)
    then consumed Part.bytes_value (w.consume_bytes b) b (λ v. set_value m (Value.bytes v))
    else skipped Part.metric_field (w.consume_field_value num typ b) b m

unfoldable pub metric_step :
    Wire → Bytes → DecodedMetric → Result DecodeError (Bytes × DecodedMetric)
metric_step w b m = tagged Part.metric_tag (w.consume_tag b) b (metric_field w m)

-- Null metrics must not carry a value.
abbrev pub clear_null : DecodedMetric → DecodedMetric
clear_null m = if m.is_null then record m { value = Value.nil } else m

abbrev pub finish_metric : Result DecodeError DecodedMetric → Result DecodeError DecodedMetric
finish_metric (ok m) = ok (clear_null m)
finish_metric (err e) = err e

-- `decodeMetric`: a round takes a byte at least, so the length of the data is enough rounds.
unfoldable pub decode_metric : Wire → Bytes → Result DecodeError DecodedMetric
decode_metric w body = finish_metric (run_fields (metric_step w) (length body) body zero_metric)
