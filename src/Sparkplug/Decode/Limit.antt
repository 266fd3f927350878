-- ===== src/Sparkplug/Decode/Limit.antt =====
-- internal/sparkplug/decode.go: the limit on the number of metrics.
use mcm.Base.{
  ℕ, zero, suc, List, [], ◌∷◌, length, arith, ◌≤◌, true, false, inl, inr, ◌⊎◌, length-take-le, sym,
  ◌∙◌, Bool-cases, is_empty, ltb, take, ◌≡◌, refl, ◌++◌, ap, if◌then◌else◌,
}
use mcm.Base.Members.{All}
use mcm.Base.Result.{Result, ok, err}
use mcm.Text.{Bytes}
use mcm.Sparkplug.Metric.{Wire, DecodeError, DecodedMetric}
use mcm.Base.Int.{ℤ}
use mcm.Sparkplug.Fields.{decode_metric}
use mcm.Sparkplug.Fields.Progress.{IsWire, Returns, decode_metric-Returns}
use mcm.Sparkplug.Fields.Null.{IsNullClean, decode_metric-IsNullClean}
use mcm.Sparkplug.Decode.{
  is_truncated, limited, onto_decoded, DecodedPayload, Header, read_header, decode_payload,
  decode_metrics, finish_payload, max_payload_size, metric_limit,
}

-- The metrics of a list that decode.
abbrev onto_kept : Result DecodeError DecodedMetric → List DecodedMetric → List DecodedMetric
onto_kept (ok m) ms = m ∷ ms
onto_kept (err e) ms = ms

unfoldable kept : Wire → List Bytes → List DecodedMetric
kept w [] = []
kept w (raw ∷ raws) = onto_kept (decode_metric w raw) (kept w raws)

abbrev kept_payload : Wire → ℕ → Header → DecodedPayload
kept_payload w n h = record {
  timestamp = h.timestamp;
  seq = h.seq;
  metrics = kept w (limited n h);
  truncated = is_truncated n h;
}

module _ (w : Wire) (lawful : IsWire w) where
  -- The loop gives the metrics that decode, since no metric makes it panic or go on for ever.
  decode_metrics-kept : (raws : List Bytes) → decode_metrics w raws ≡ ok (kept w raws)
  unfolding decode_metrics kept
  decode_metrics-kept [] = refl
  decode_metrics-kept (raw ∷ raws) =
      rw (decode_metrics-kept raws)
        (step (decode_metric w raw) (decode_metric-Returns w lawful raw))
    where
      step :
          (r : Result DecodeError DecodedMetric)
          → Returns r
          → onto_decoded r (ok (kept w raws)) ≡ ok (onto_kept r (kept w raws))
      step (ok m) h = refl
      step (err DecodeError.out_of_range) h = absurd h
      step (err DecodeError.unfinished) h = absurd h
      step (err DecodeError.empty_payload) h = refl
      step (err DecodeError.oversized_payload) h = refl
      step (err (DecodeError.corrupt part)) h = refl

  length-kept-le : (raws : List Bytes) → length (kept w raws) ≤ length raws
  unfolding kept
  length-kept-le [] = omega arith
  length-kept-le (raw ∷ raws) = step-le (decode_metric w raw) (length-kept-le raws)
    where
      step-le :
          (r : Result DecodeError DecodedMetric)
          → length (kept w raws) ≤ length raws
          → length (onto_kept r (kept w raws)) ≤ suc (length raws)
      step-le (ok m) h = omega arith
      step-le (err e) h = omega arith

  kept-IsNullClean : (raws : List Bytes) → All IsNullClean (kept w raws)
  unfolding kept
  kept-IsNullClean [] = tt
  kept-IsNullClean (raw ∷ raws) = step-All (decode_metric w raw) refl (kept-IsNullClean raws)
    where
      step-All :
          (r : Result DecodeError DecodedMetric)
          → decode_metric w raw ≡ r
          → All IsNullClean (kept w raws)
          → All IsNullClean (onto_kept r (kept w raws))
      step-All (ok m) e h = (decode_metric-IsNullClean w raw m e, h)
      step-All (err x) e h = h

  kept-append : (raws rest : List Bytes) → kept w (raws ++ rest) ≡ kept w raws ++ kept w rest
  unfolding kept
  kept-append [] rest = refl
  kept-append (raw ∷ raws) rest = step-append (decode_metric w raw) (kept-append raws rest)
    where
      step-append :
          (r : Result DecodeError DecodedMetric)
          → kept w (raws ++ rest) ≡ kept w raws ++ kept w rest
          → onto_kept r (kept w (raws ++ rest)) ≡ onto_kept r (kept w raws) ++ kept w rest
      step-append (ok m) h = ap (λ (ms : List DecodedMetric). m ∷ ms) h
      step-append (err e) h = h

  take-le :
      (m n : ℕ) (raws : List Bytes)
      → m ≤ n
      → (rest : List Bytes) × (take n raws ≡ take m raws ++ rest)
  take-le zero n raws h = (take n raws, refl)
  take-le (suc m) zero raws h = absurd (omega arith)
  take-le (suc m) (suc n) [] h = ([], refl)
  take-le (suc m) (suc n) (raw ∷ raws) h =
      let (rest, e) = take-le m n raws (omega arith) in (rest, ap (λ (l : List Bytes). raw ∷ l) e)

  take-all : (n : ℕ) (raws : List Bytes) → length raws ≤ n → take n raws ≡ raws
  take-all zero [] h = refl
  take-all zero (raw ∷ raws) h = absurd (omega arith)
  take-all (suc n) [] h = refl
  take-all (suc n) (raw ∷ raws) h = ap (λ (l : List Bytes). raw ∷ l) (take-all n raws (omega arith))

  -- The limited list is the list's first elements, whether it is truncated or not.
  kept_payload-metrics :
      (n : ℕ) (h : Header) → (kept_payload w n h).metrics ≡ kept w (take n h.raw_metrics)
  kept_payload-metrics n h = elim (Bool-cases (ltb n (length h.raw_metrics))) [
    | inl e ↦ rw e refl
    | inr e ↦ rw (e, take-all n h.raw_metrics (ground arith)) refl
  ]

  kept_payload-more :
      (m n : ℕ) (h : Header)
      → m ≤ n
      → (rest : List DecodedMetric) × ((kept_payload w n h).metrics
          ≡ (kept_payload w m h).metrics ++ rest)
  kept_payload-more m n h le =
      let (rest, e) = take-le m n h.raw_metrics le in
      (
        kept w rest,
        kept_payload-metrics n h
            ∙ ap (kept w) e
            ∙ kept-append (take m h.raw_metrics) rest
            ∙ ap (λ (ms : List DecodedMetric). ms ++ kept w rest) (sym (kept_payload-metrics m h)),
      )

  kept_payload-same :
      (m n : ℕ) (h : Header)
      → m ≤ n
      → ((kept_payload w m h).truncated ≡ true) ⊎ (kept_payload w n h ≡ kept_payload w m h)
  kept_payload-same m n h le = elim (Bool-cases (ltb m (length h.raw_metrics))) [
    | inl e ↦ inl e
    | inr e ↦
        let below : ltb n (length h.raw_metrics) ≡ false = ground arith in inr (rw (e, below) refl)
  ]

  -- What is decoded without its limit: the checks on the size and the header.
  unfoldable checked_header : Bytes → Result DecodeError Header
  checked_header body =
      if is_empty body
      then err DecodeError.empty_payload
      else if ltb max_payload_size (length body)
      then err DecodeError.oversized_payload
      else read_header w body

  decode_payload_lem :
      (body : Bytes) (k : ℤ)
      → decode_payload w body k ≡ finish_payload w (metric_limit k) (checked_header body)
  unfolding decode_payload checked_header
  decode_payload_lem body k = elim (Bool-cases (is_empty body)) [
    | inl e ↦ rw e refl
    | inr e ↦ elim (Bool-cases (ltb max_payload_size (length body))) [
      | inl f ↦ rw (e, f) refl
      | inr f ↦ rw (e, f) refl
    ]
  ]

  finish-limits :
      (n : ℕ) (r : Result DecodeError Header) (p : DecodedPayload)
      → finish_payload w n r ≡ ok p
      → (h : Header) × (r ≡ ok h) × (p ≡ kept_payload w n h)
  finish-limits n (ok h) p e =
      let g : ok (kept_payload w n h) ≡ ok p = rw (decode_metrics-kept (limited n h)) at e in
      (h, refl, cc)
  finish-limits n (err x) p e = cc

  -- A decoded payload has at most as many metrics as the limit says, and none that is marked null
  -- has a value.
  pub decode_payload-metrics :
      (body : Bytes) (k : ℤ) (p : DecodedPayload)
      → decode_payload w body k ≡ ok p
      → (length p.metrics ≤ metric_limit k) × All IsNullClean p.metrics
  decode_payload-metrics body k p e =
      let n = metric_limit k in
      let (h, _, at) =
        finish-limits n (checked_header body) p (sym (decode_payload_lem body k) ∙ e) in
      let same : p.metrics ≡ kept w (take n h.raw_metrics) =
        ap (λ (q : DecodedPayload). q.metrics) at ∙ kept_payload-metrics n h in
      (
        omega (
          arith,
          ap length same,
          length-kept-le (take n h.raw_metrics),
          length-take-le n h.raw_metrics,
        ),
        rw same (kept-IsNullClean (take n h.raw_metrics)),
      )

  -- With a `protowire` that stays within its bytes and takes one at least for a tag: with a greater
  -- limit, a payload that decodes still decodes, with the same timestamp and
  -- sequence number and with further metrics behind the ones that the lower limit gave; where the
  -- lower limit did not truncate, the two payloads are the same.
  pub decode_payload-limit :
      (body : Bytes) (j k : ℤ) (p : DecodedPayload)
      → metric_limit j ≤ metric_limit k
      → decode_payload w body j ≡ ok p
      → (q : DecodedPayload) × (rest : List DecodedMetric) × (decode_payload w body k ≡ ok q)
        × (q.timestamp ≡ p.timestamp)
        × (q.seq ≡ p.seq)
        × (q.metrics ≡ p.metrics ++ rest)
        × ((p.truncated ≡ true) ⊎ (q ≡ p))
  decode_payload-limit body j k p le e =
      let (h, read, at) =
        finish-limits (metric_limit j) (checked_header body) p
          (sym (decode_payload_lem body j) ∙ e) in
      let (rest, more) = kept_payload-more (metric_limit j) (metric_limit k) h le in
      (
        kept_payload w (metric_limit k) h,
        rest,
        decode_payload_lem body k
            ∙ ap (finish_payload w (metric_limit k)) read
            ∙ rw (decode_metrics-kept (limited (metric_limit k) h)) refl,
        ap (λ (q : DecodedPayload). q.timestamp) (sym at),
        ap (λ (q : DecodedPayload). q.seq) (sym at),
        more ∙ ap (λ (q : DecodedPayload). q.metrics ++ rest) (sym at),
        rw at (kept_payload-same (metric_limit j) (metric_limit k) h le),
      )
