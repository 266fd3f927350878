-- ===== src/Sparkplug/Decode.antt =====
-- internal/sparkplug/decode.go: `DecodePayload`.
pub mod Limit
pub mod Total
use mcm.Base.{
  ℕ, zero, suc, ◌*◌, Bool, true, false, not, ◌&&◌, List, [], ◌∷◌, ◌++◌, ◌==◌, ltb, length, take,
  is_empty, if◌then◌else◌,
}
use mcm.Base.Result.{Result, ok, err}
use mcm.Text.{Bytes}
use mcm.Sparkplug.Metric.{
  Wire, Part, DecodeError, to_int64, DecodedMetric, consumed, skipped, tagged, run_fields,
}
use mcm.Base.Int.{ℤ}
use mcm.Sparkplug.Fields.{decode_metric}

abbrev pub max_payload_size : ℕ
max_payload_size = 1024 * 1024

pub record DecodedPayload : Type 0 where
  pub timestamp : ℤ
  pub seq : ℕ
  pub metrics : List DecodedMetric
  pub truncated : Bool

-- The payload's own fields, and the variable `rawMetrics`.
pub record Header : Type 0 where
  pub timestamp : ℤ
  pub seq : ℕ
  pub raw_metrics : List Bytes

unfoldable pub payload_field : Wire → Header → ℕ → ℕ → Bytes → Result DecodeError (Bytes × Header)
unfolding to_int64
payload_field w h num typ b =
    if (num == 2) && (typ == w.varint_type)
    then consumed Part.timestamp (w.consume_varint b) b (λ v. record h { timestamp = to_int64 v })
    else if (num == 4) && (typ == w.varint_type)
    then consumed Part.seq (w.consume_varint b) b (λ v. record h { seq = v })
    else if (num == 1) && (typ == w.bytes_type)
    then consumed Part.metric (w.consume_bytes b) b
        (λ v. record h { raw_metrics = h.raw_metrics ++ (v ∷ []) })
    else skipped Part.unknown_field (w.consume_field_value num typ b) b h

unfoldable pub payload_step : Wire → Bytes → Header → Result DecodeError (Bytes × Header)
payload_step w b h = tagged Part.payload_tag (w.consume_tag b) b (payload_field w h)

unfoldable pub read_header : Wire → Bytes → Result DecodeError Header
read_header w body =
    run_fields (payload_step w) (length body) body
      (record { timestamp = ℤ.pos 0; seq = 0; raw_metrics = [] })

-- A metric with an error is skipped. A slice out of range is a panic, and a loop without an end never
-- comes back: neither is an error that the source could skip.
abbrev pub onto_decoded :
    Result DecodeError DecodedMetric
    → Result DecodeError (List DecodedMetric)
    → Result DecodeError (List DecodedMetric)
onto_decoded (ok m) (ok ms) = ok (m ∷ ms)
onto_decoded (ok m) (err e) = err e
onto_decoded (err DecodeError.out_of_range) r = err DecodeError.out_of_range
onto_decoded (err DecodeError.unfinished) r = err DecodeError.unfinished
onto_decoded (err e) r = r

-- The loop over the metrics.
unfoldable pub decode_metrics : Wire → List Bytes → Result DecodeError (List DecodedMetric)
decode_metrics w [] = ok []
decode_metrics w (raw ∷ raws) = onto_decoded (decode_metric w raw) (decode_metrics w raws)

-- `if maxMetrics <= 0 { maxMetrics = 50 }`.
abbrev pub metric_limit : ℤ → ℕ
metric_limit (ℤ.pos zero) = 50
metric_limit (ℤ.pos (suc n)) = suc n
metric_limit (ℤ.negsuc n) = 50

abbrev pub is_truncated : ℕ → Header → Bool
is_truncated limit h = ltb limit (length h.raw_metrics)

abbrev pub limited : ℕ → Header → List Bytes
limited limit h = if is_truncated limit h then take limit h.raw_metrics else h.raw_metrics

abbrev pub payload_with :
    ℕ → Header → Result DecodeError (List DecodedMetric) → Result DecodeError DecodedPayload
payload_with limit h (err e) = err e
payload_with limit h (ok ms) = ok (record {
  timestamp = h.timestamp;
  seq = h.seq;
  metrics = ms;
  truncated = is_truncated limit h;
})

abbrev pub finish_payload : Wire → ℕ → Result DecodeError Header → Result DecodeError DecodedPayload
finish_payload w limit (ok h) = payload_with limit h (decode_metrics w (limited limit h))
finish_payload w limit (err e) = err e

unfoldable pub decode_payload : Wire → Bytes → ℤ → Result DecodeError DecodedPayload
decode_payload w body max_metrics =
    if is_empty body
    then err DecodeError.empty_payload
    else if ltb max_payload_size (length body)
    then err DecodeError.oversized_payload
    else finish_payload w (metric_limit max_metrics) (read_header w body)
