-- ===== src/Samples/Sparkplug.antt =====
-- Sparkplug topics and payloads, with a wire format of one-byte numbers.
use mcm.Base.{
  ℕ, suc, ◌+◌, ◌*◌, ◌/◌, ◌%◌, ◌≡◌, ◌↔◌, ◌⊎◌, refl, true, false, List, [], ◌∷◌, ◌++◌, Option, none,
  some, leb, length, take, if◌then◌else◌, arith, Bool-cases, inl, inr,
}
use mcm.Base.Result.{ok}
use mcm.Text.{Bytes, codes, text_eq, has_any, has_byte}
use mcm.Text.Split.{split, join}
use mcm.Acl.Levels.{slash}
use mcm.Sparkplug.Topic.{
  Metadata, parse_topic, is_node_message_type, is_bad_part, IsMetadata, topic_parts,
  parse_topic_iff,
}
use mcm.Sparkplug.Metric.{
  Wire, Value, DecodedMetric, zero_metric, run_fields, consumed, skipped, to_int64,
}
use mcm.Base.Int.{ℤ}
use mcm.Sparkplug.Fields.{metric_field, metric_step, decode_metric}
use mcm.Sparkplug.Fields.Progress.{IsWire, Returns, Within, WithinField, WithinTag}
use mcm.Sparkplug.Decode.{
  DecodedPayload, payload_field, payload_step, read_header, decode_metrics, decode_payload,
}
use mcm.Sparkplug.Decode.Total.{decode_payload-Returns}
use mcm.Sparkplug.Decode.Limit.{decode_payload-limit}

abbrev edge_topic : Bytes
edge_topic = codes "spBv1.0/plant/NDATA/edge1"

abbrev edge_metadata : Metadata
edge_metadata = record {
  namespace = codes "spBv1.0";
  group_id = codes "plant";
  message_type = codes "NDATA";
  edge_node_id = codes "edge1";
  device_id = [];
}

parse_topic_iff_example :
    (parse_topic edge_topic ≡ some edge_metadata)
    ↔ IsMetadata edge_metadata × (edge_topic ≡ join slash (topic_parts edge_metadata))
parse_topic_iff_example = parse_topic_iff edge_topic edge_metadata

edge_topic_parsed : parse_topic edge_topic ≡ some edge_metadata
unfolding parse_topic split text_eq is_bad_part has_any has_byte is_node_message_type
edge_topic_parsed = refl

device_topic_without_device : parse_topic (codes "spBv1.0/plant/DDATA/edge1") ≡ none
unfolding parse_topic split text_eq is_bad_part has_any has_byte is_node_message_type
device_topic_without_device = refl

abbrev toy_tag : Bytes → Option ((ℕ × ℕ) × ℕ)
toy_tag [] = none
toy_tag (c ∷ b) = some ((c / 8, c % 8), 1)

abbrev toy_varint : Bytes → Option (ℕ × ℕ)
toy_varint [] = none
toy_varint (c ∷ b) = some (c, 1)

abbrev toy_fixed32 : Bytes → Option (ℕ × ℕ)
toy_fixed32 (c ∷ d ∷ e ∷ f ∷ b) = some (c + 256 * (d + 256 * (e + 256 * f)), 4)
toy_fixed32 _ = none

abbrev toy_fixed64 : Bytes → Option (ℕ × ℕ)
toy_fixed64 (c ∷ d ∷ e ∷ f ∷ g ∷ h ∷ i ∷ j ∷ b) = some (c + 256 * d, 8)
toy_fixed64 _ = none

abbrev toy_bytes : Bytes → Option (Bytes × ℕ)
toy_bytes [] = none
toy_bytes (c ∷ b) = if leb c (length b) then some (take c b, suc c) else none

abbrev toy_field : ℕ → ℕ → Bytes → Option ℕ
toy_field num typ [] = none
toy_field num typ (c ∷ b) = some 1

abbrev toy_wire : Wire
toy_wire = record {
  varint_type = 0;
  fixed32_type = 5;
  fixed64_type = 1;
  bytes_type = 2;
  consume_tag = toy_tag;
  consume_varint = toy_varint;
  consume_fixed32 = toy_fixed32;
  consume_fixed64 = toy_fixed64;
  consume_bytes = toy_bytes;
  consume_field_value = toy_field;
}

toy_tag-WithinTag : (b : Bytes) → WithinTag (toy_tag b) b
toy_tag-WithinTag [] = tt
toy_tag-WithinTag (c ∷ b) = (omega arith, omega arith)

toy_varint-Within : (b : Bytes) → Within (toy_varint b) b
toy_varint-Within [] = tt
toy_varint-Within (c ∷ b) = omega arith

toy_fixed32-Within : (b : Bytes) → Within (toy_fixed32 b) b
toy_fixed32-Within (c ∷ d ∷ e ∷ f ∷ b) = omega arith
toy_fixed32-Within _ = tt

toy_fixed64-Within : (b : Bytes) → Within (toy_fixed64 b) b
toy_fixed64-Within (c ∷ d ∷ e ∷ f ∷ g ∷ h ∷ i ∷ j ∷ b) = omega arith
toy_fixed64-Within _ = tt

toy_bytes-Within : (b : Bytes) → Within (toy_bytes b) b
toy_bytes-Within [] = tt
toy_bytes-Within (c ∷ b) = elim (Bool-cases (leb c (length b))) [
  | inl e ↦ rw e (ground arith)
  | inr e ↦ rw e tt
]

toy_field-WithinField : (num typ : ℕ) (b : Bytes) → WithinField (toy_field num typ b) b
toy_field-WithinField num typ [] = tt
toy_field-WithinField num typ (c ∷ b) = omega arith

toy_wire-IsWire : IsWire toy_wire
toy_wire-IsWire = record {
  tag_within = toy_tag-WithinTag;
  varint_within = toy_varint-Within;
  fixed32_within = toy_fixed32-Within;
  fixed64_within = toy_fixed64-Within;
  bytes_within = toy_bytes-Within;
  field_within = toy_field-WithinField;
}

-- A metric named a with the value 5, and one named b that is null after its value.
abbrev two_metrics : Bytes
two_metrics =
    16 ∷ 7 ∷ 10 ∷ 5 ∷ 10 ∷ 1 ∷ b'a' ∷ 64 ∷ 5 ∷ 10 ∷ 7 ∷ 10 ∷ 1 ∷ b'b' ∷ 64 ∷ 6 ∷ 56 ∷ 1 ∷ 32 ∷ 9
    ∷ []

abbrev first_metric : DecodedMetric
first_metric = record zero_metric { name = codes "a"; value = Value.uint64 5 }

abbrev second_metric : DecodedMetric
second_metric = record zero_metric { name = codes "b"; is_null = true }

abbrev one_decoded : DecodedPayload
one_decoded = record { timestamp = ℤ.pos 7; seq = 9; metrics = first_metric ∷ []; truncated = true }

two_metrics_decoded :
    decode_payload toy_wire two_metrics (ℤ.pos 2)
    ≡ ok (record one_decoded { metrics = first_metric ∷ second_metric ∷ []; truncated = false })
unfolding decode_payload read_header run_fields payload_step payload_field consumed skipped to_int64
    decode_metrics decode_metric metric_step metric_field
two_metrics_decoded = refl

one_metric_decoded : decode_payload toy_wire two_metrics (ℤ.pos 1) ≡ ok one_decoded
unfolding decode_payload read_header run_fields payload_step payload_field consumed skipped to_int64
    decode_metrics decode_metric metric_step metric_field
one_metric_decoded = refl

decode_payload-Returns_example : Returns (decode_payload toy_wire two_metrics (ℤ.pos 1))
decode_payload-Returns_example =
    decode_payload-Returns toy_wire toy_wire-IsWire two_metrics (ℤ.pos 1)

decode_payload-limit_example :
    (q : DecodedPayload) × (rest : List DecodedMetric) × (decode_payload toy_wire two_metrics
        (ℤ.pos 2)
      ≡ ok q)
    × (q.timestamp ≡ ℤ.pos 7)
    × (q.seq ≡ 9)
    × (q.metrics ≡ (first_metric ∷ []) ++ rest)
    × ((true ≡ true) ⊎ (q ≡ one_decoded))
decode_payload-limit_example =
    decode_payload-limit toy_wire toy_wire-IsWire two_metrics (ℤ.pos 1) (ℤ.pos 2) one_decoded
      (omega arith) one_metric_decoded
