-- ===== src/Sparkplug/Fields/Progress.antt =====
-- internal/sparkplug/decode.go: the loop over wire fields ends, and stays within its data.
use mcm.Base.{Bool}
use mcm.Base.{
  ℕ, zero, suc, ◌≡◌, ◌≤◌, ◌+◌, ◌&&◌, ◌==◌, [], ◌∷◌, Option, none, some, length, drop, leb, arith,
  true, false, if◌then◌else◌,
}
use mcm.Base.Result.{Result, ok, err}
use mcm.Text.{Bytes}
use mcm.Sparkplug.Metric.{
  Wire, Part, DecodeError, DecodedMetric, consumed, skipped, tagged, continue_with, run_fields,
}
use mcm.Sparkplug.Fields.{metric_field, metric_step, decode_metric, finish_metric}

-- What a function of `protowire` may return for some bytes: no more bytes than there are.
abbrev pub Within : {A : Type 0} → Option (A × ℕ) → Bytes → Type 0
Within none b = Unit
Within (some (v, n)) b = n ≤ length b

abbrev pub WithinField : Option ℕ → Bytes → Type 0
WithinField none b = Unit
WithinField (some n) b = n ≤ length b

-- A tag takes a byte at least.
abbrev pub WithinTag : Option ((ℕ × ℕ) × ℕ) → Bytes → Type 0
WithinTag none b = Unit
WithinTag (some (t, n)) b = (1 ≤ n) × (n ≤ length b)

-- What `protowire` documents of the number of bytes that its functions take.
pub record IsWire (w : Wire) : Type 0 where
  pub tag_within : (b : Bytes) → WithinTag (w.consume_tag b) b
  pub varint_within : (b : Bytes) → Within (w.consume_varint b) b
  pub fixed32_within : (b : Bytes) → Within (w.consume_fixed32 b) b
  pub fixed64_within : (b : Bytes) → Within (w.consume_fixed64 b) b
  pub bytes_within : (b : Bytes) → Within (w.consume_bytes b) b
  pub field_within : (num typ : ℕ) (b : Bytes) → WithinField (w.consume_field_value num typ b) b

-- An error that the source returns: neither a panic nor a loop without an end.
abbrev pub IsReturned : DecodeError → Type 0
IsReturned DecodeError.out_of_range = ⊥
IsReturned DecodeError.unfinished = ⊥
IsReturned _ = Unit

-- A result of the source.
abbrev pub Returns : {A : Type 0} → Result DecodeError A → Type 0
Returns (ok a) = Unit
Returns (err e) = IsReturned e

-- A field's step: it ends, with no more bytes than it was given.
unfoldable pub Shrinks : {S : Type 0} → ℕ → Result DecodeError (Bytes × S) → Type 0
Shrinks n (ok (b, s)) = length b ≤ n
Shrinks n (err e) = IsReturned e

length-drop-le : (n : ℕ) (b : Bytes) → length (drop n b) ≤ length b
length-drop-le zero b = omega arith
length-drop-le (suc n) [] = omega arith
length-drop-le (suc n) (c ∷ b) = omega (arith, length-drop-le n b)

length-drop : (n : ℕ) (b : Bytes) → n ≤ length b → n + length (drop n b) ≡ length b
length-drop zero b h = omega arith
length-drop (suc n) [] h = omega arith
length-drop (suc n) (c ∷ b) h = omega (arith, length-drop n b)

module _ {A S : Type 0} where
  pub consumed-Shrinks :
      (part : Part) (o : Option (A × ℕ)) (b : Bytes) (set : A → S)
      → Within o b
      → Shrinks (length b) (consumed part o b set)
  unfolding Shrinks consumed
  consumed-Shrinks part none b set h = tt
  consumed-Shrinks part (some (v, n)) b set h =
      let within : leb n (length b) ≡ true = ground arith in rw within (length-drop-le n b)

module _ {S : Type 0} where
  pub skipped-Shrinks :
      (part : Part) (o : Option ℕ) (b : Bytes) (s : S)
      → WithinField o b
      → Shrinks (length b) (skipped part o b s)
  unfolding Shrinks skipped
  skipped-Shrinks part none b s h = tt
  skipped-Shrinks part (some n) b s h =
      let within : leb n (length b) ≡ true = ground arith in rw within (length-drop-le n b)

  Shrinks-le : {m n : ℕ} (r : Result DecodeError (Bytes × S)) → m ≤ n → Shrinks m r → Shrinks n r
  unfolding Shrinks
  Shrinks-le (ok (b, s)) h k = omega arith
  Shrinks-le (err e) h k = k

  -- A tag and its field take a byte at least.
  pub tagged-Shrinks :
      (part : Part) (o : Option ((ℕ × ℕ) × ℕ)) (c : ℕ) (b : Bytes)
      (field : ℕ → ℕ → Bytes → Result DecodeError (Bytes × S))
      → WithinTag o (c ∷ b)
      → ((num typ : ℕ) (b' : Bytes) → Shrinks (length b') (field num typ b'))
      → Shrinks (length b) (tagged part o (c ∷ b) field)
  unfolding Shrinks
  tagged-Shrinks part none c b field h k = tt
  tagged-Shrinks part (some ((num, typ), n)) c b field h k =
      let within : leb n (length (c ∷ b)) ≡ true = ground arith in
      let left : length (drop n (c ∷ b)) ≤ length b =
        omega (arith, h.0, length-drop n (c ∷ b) h.1) in
      rw within (Shrinks-le (field num typ (drop n (c ∷ b))) left (k num typ (drop n (c ∷ b))))

  continue-Returns :
      {m : ℕ} (go : Bytes → S → Result DecodeError S) (r : Result DecodeError (Bytes × S))
      → Shrinks m r
      → ((b : Bytes) (s : S) → length b ≤ m → Returns (go b s))
      → Returns (continue_with go r)
  unfolding Shrinks
  continue-Returns go (ok (b, s)) h k = k b s h
  continue-Returns go (err e) h k = h

  -- A loop whose steps take a byte each ends within as many rounds as there are bytes.
  pub run_fields-Returns :
      (field : Bytes → S → Result DecodeError (Bytes × S))
      → ((c : ℕ) (b : Bytes) (s : S) → Shrinks (length b) (field (c ∷ b) s))
      → (n : ℕ) (b : Bytes) (s : S) → length b ≤ n
      → Returns (run_fields field n b s)
  unfolding run_fields
  run_fields-Returns field k n [] s h = tt
  run_fields-Returns field k zero (c ∷ b) s h = absurd (omega arith)
  run_fields-Returns field k (suc n) (c ∷ b) s h =
      continue-Returns (run_fields field n) (field (c ∷ b) s) (k c b s)
        (λ b' s' q. run_fields-Returns field k n b' s' (omega arith))

  pub if-Shrinks :
      (n : ℕ) (x y : Result DecodeError (Bytes × S)) (t : Bool)
      → Shrinks n x
      → Shrinks n y
      → Shrinks n (if t then x else y)
  if-Shrinks n x y true h k = h
  if-Shrinks n x y false h k = k

module _ (w : Wire) (lawful : IsWire w) where
  metric_field-Shrinks :
      (m : DecodedMetric) (num typ : ℕ) (b : Bytes)
      → Shrinks (length b) (metric_field w m num typ b)
  unfolding metric_field
  metric_field-Shrinks m num typ b =
      let varint = lawful.varint_within b in
      let bytes = lawful.bytes_within b in
      if-Shrinks _ _ _ ((num == 1) && (typ == w.bytes_type)) (consumed-Shrinks _ _ b _ bytes) (
        if-Shrinks _ _ _ ((num == 2) && (typ == w.varint_type)) (consumed-Shrinks _ _ b _ varint) (
          if-Shrinks _ _ _ ((num == 3) && (typ == w.varint_type)) (consumed-Shrinks _ _ b _ varint)
            (if-Shrinks _ _ _ ((num == 4) && (typ == w.varint_type))
              (consumed-Shrinks _ _ b _ varint)
              (if-Shrinks _ _ _ ((num == 7) && (typ == w.varint_type))
                (consumed-Shrinks _ _ b _ varint)
                (if-Shrinks _ _ _ ((num == 8) && (typ == w.varint_type))
                  (consumed-Shrinks _ _ b _ varint)
                  (if-Shrinks _ _ _ ((num == 10) && (typ == w.fixed32_type))
                    (consumed-Shrinks _ _ b _ (lawful.fixed32_within b))
                    (if-Shrinks _ _ _ ((num == 11) && (typ == w.fixed64_type))
                      (consumed-Shrinks _ _ b _ (lawful.fixed64_within b))
                      (if-Shrinks _ _ _ ((num == 12) && (typ == w.varint_type))
                        (consumed-Shrinks _ _ b _ varint)
                        (if-Shrinks _ _ _ ((num == 13) && (typ == w.bytes_type))
                          (consumed-Shrinks _ _ b _ bytes)
                          (if-Shrinks _ _ _ ((num == 14) && (typ == w.bytes_type))
                            (consumed-Shrinks _ _ b _ bytes)
                            (skipped-Shrinks _ _ b m (lawful.field_within num typ b))))))))))))

  -- With a `protowire` that stays within its bytes and takes one at least for a tag, the decoder of
  -- a metric ends with a metric or one of the errors of the source.
  pub decode_metric-Returns : (body : Bytes) → Returns (decode_metric w body)
  unfolding decode_metric metric_step
  decode_metric-Returns body = finish-Returns _ (
      run_fields-Returns (metric_step w)
        (λ c b m.
          tagged-Shrinks Part.metric_tag (w.consume_tag (c ∷ b)) c b (metric_field w m)
            (lawful.tag_within (c ∷ b)) (metric_field-Shrinks m))
        (length body) body _ (omega arith))
    where
      finish-Returns :
          (r : Result DecodeError DecodedMetric) → Returns r → Returns (finish_metric r)
      finish-Returns (ok m) h = tt
      finish-Returns (err e) h = h
