-- ===== src/Sparkplug/Decode/Total.antt =====
-- internal/sparkplug/decode.go: the payload's decoder ends, and stays within its data.
use mcm.Base.{◌==◌, ◌&&◌, ℕ, List, [], ◌∷◌, length, arith, inl, inr, Bool-cases, is_empty, ltb}
use mcm.Base.Result.{Result, ok, err}
use mcm.Text.{Bytes}
use mcm.Sparkplug.Metric.{Wire, Part, DecodeError, DecodedMetric}
use mcm.Sparkplug.Fields.{decode_metric}
use mcm.Base.Int.{ℤ}
use mcm.Sparkplug.Fields.Progress.{
  IsWire, Returns, Shrinks, if-Shrinks, consumed-Shrinks, skipped-Shrinks, tagged-Shrinks,
  run_fields-Returns, decode_metric-Returns,
}
use mcm.Sparkplug.Decode.{
  Header, payload_field, payload_step, read_header, decode_payload, finish_payload, onto_decoded,
  decode_metrics, payload_with, limited, max_payload_size, metric_limit,
}

module _ (w : Wire) (lawful : IsWire w) where
  payload_field-Shrinks :
      (h : Header) (num typ : ℕ) (b : Bytes) → Shrinks (length b) (payload_field w h num typ b)
  unfolding payload_field
  payload_field-Shrinks h num typ b =
      if-Shrinks _ _ _ ((num == 2) && (typ == w.varint_type))
        (consumed-Shrinks _ _ b _ (lawful.varint_within b))
        (if-Shrinks _ _ _ ((num == 4) && (typ == w.varint_type))
          (consumed-Shrinks _ _ b _ (lawful.varint_within b))
          (if-Shrinks _ _ _ ((num == 1) && (typ == w.bytes_type))
            (consumed-Shrinks _ _ b _ (lawful.bytes_within b))
            (skipped-Shrinks _ _ b h (lawful.field_within num typ b))))

  read_header-Returns : (body : Bytes) → Returns (read_header w body)
  unfolding read_header payload_step
  read_header-Returns body =
      run_fields-Returns (payload_step w)
        (λ c b h.
          tagged-Shrinks Part.payload_tag (w.consume_tag (c ∷ b)) c b (payload_field w h)
            (lawful.tag_within (c ∷ b)) (payload_field-Shrinks h))
        (length body) body _ (omega arith)

  onto_decoded-Returns :
      (r : Result DecodeError DecodedMetric) (ms : Result DecodeError (List DecodedMetric))
      → Returns r
      → Returns ms
      → Returns (onto_decoded r ms)
  onto_decoded-Returns (ok m) (ok ms) h k = tt
  onto_decoded-Returns (ok m) (err e) h k = k
  onto_decoded-Returns (err DecodeError.out_of_range) r h k = absurd h
  onto_decoded-Returns (err DecodeError.unfinished) r h k = absurd h
  onto_decoded-Returns (err DecodeError.empty_payload) r h k = k
  onto_decoded-Returns (err DecodeError.oversized_payload) r h k = k
  onto_decoded-Returns (err (DecodeError.corrupt part)) r h k = k

  decode_metrics-Returns : (raws : List Bytes) → Returns (decode_metrics w raws)
  unfolding decode_metrics
  decode_metrics-Returns [] = tt
  decode_metrics-Returns (raw ∷ raws) =
      onto_decoded-Returns (decode_metric w raw) (decode_metrics w raws)
        (decode_metric-Returns w lawful raw) (decode_metrics-Returns raws)

  payload_with-Returns :
      (n : ℕ) (h : Header) (ms : Result DecodeError (List DecodedMetric))
      → Returns ms
      → Returns (payload_with n h ms)
  payload_with-Returns n h (ok ms) k = tt
  payload_with-Returns n h (err e) k = k

  finish-Returns :
      (n : ℕ) (r : Result DecodeError Header) → Returns r → Returns (finish_payload w n r)
  finish-Returns n (ok h) k =
      payload_with-Returns n h (decode_metrics w (limited n h))
        (decode_metrics-Returns (limited n h))
  finish-Returns n (err e) k = k

  -- With a `protowire` that stays within its bytes and takes one at least for a tag, the decoder of
  -- a payload ends, for every text and every limit, with a payload or one of the errors of the
  -- source: neither the loop over its fields nor the one over the fields of any of its metrics slices
  -- out of range or runs out of rounds.
  pub decode_payload-Returns : (body : Bytes) (k : ℤ) → Returns (decode_payload w body k)
  unfolding decode_payload
  decode_payload-Returns body k = elim (Bool-cases (is_empty body)) [
    | inl e ↦ rw e tt
    | inr e ↦ elim (Bool-cases (ltb max_payload_size (length body))) [
      | inl f ↦ rw (e, f) tt
      | inr f ↦ rw (e, f) (finish-Returns (metric_limit k) _ (read_header-Returns body))
    ]
  ]
