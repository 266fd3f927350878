-- ===== src/Sparkplug/Topic.antt =====
-- internal/sparkplug/topic.go: `ParseTopic`.
use mcm.Base.{
  ◌≡◌, ◌↔◌, sym, Bool, true, false, not, ◌||◌, List, [], ◌∷◌, Option, none, some, is_empty, any,
  if◌then◌else◌, arith,
}
use mcm.Base.Members.{All}
use mcm.Text.{Bytes, codes, text_eq, text_eq_iff, has_any, has_byte}
use mcm.Text.Split.{split, join, join-split, split-join, split-no_sep}
use mcm.Acl.Levels.{slash}

abbrev pub sparkplug_namespace : Bytes
sparkplug_namespace = codes "spBv1.0"

pub record Metadata : Type 0 where
  pub namespace : Bytes
  pub group_id : Bytes
  pub message_type : Bytes
  pub edge_node_id : Bytes
  pub device_id : Bytes

unfoldable pub is_node_message_type : Bytes → Bool
unfolding text_eq
is_node_message_type t =
    any (text_eq t) (codes "NBIRTH" ∷ codes "NDEATH" ∷ codes "NDATA" ∷ codes "NCMD" ∷ [])

unfoldable pub is_device_message_type : Bytes → Bool
unfolding text_eq
is_device_message_type t =
    any (text_eq t) (codes "DBIRTH" ∷ codes "DDEATH" ∷ codes "DDATA" ∷ codes "DCMD" ∷ [])

-- The condition in the loop over the parts.
unfoldable pub is_bad_part : Bytes → Bool
is_bad_part p = is_empty p || has_any (codes "+#") p

-- A node topic has no device.
abbrev node_topic : Bytes → Bytes → Bytes → Bytes → Metadata
node_topic n g t e = record {
  namespace = n;
  group_id = g;
  message_type = t;
  edge_node_id = e;
  device_id = codes "";
}

abbrev parse_parts : List Bytes → Option Metadata
parse_parts (n ∷ g ∷ t ∷ e ∷ []) =
    if not (text_eq n sparkplug_namespace)
    then none
    else if any is_bad_part (n ∷ g ∷ t ∷ e ∷ [])
    then none
    else if not (is_node_message_type t)
    then none
    else some (node_topic n g t e)
parse_parts (n ∷ g ∷ t ∷ e ∷ d ∷ []) =
    if not (text_eq n sparkplug_namespace)
    then none
    else if any is_bad_part (n ∷ g ∷ t ∷ e ∷ d ∷ [])
    then none
    else if not (is_device_message_type t)
    then none
    else some (record (node_topic n g t e) { device_id = d })
parse_parts _ = none

unfoldable pub parse_topic : Bytes → Option Metadata
parse_topic topic = parse_parts (split slash topic)

abbrev topic_tail : Metadata → List Bytes
topic_tail m =
    m.group_id
    ∷ m.message_type
    ∷ m.edge_node_id
    ∷ (if is_empty m.device_id then [] else m.device_id ∷ [])

-- The levels of the topic that metadata stands for.
abbrev pub topic_parts : Metadata → List Bytes
topic_parts m = m.namespace ∷ topic_tail m

-- A level that a topic, not a filter, can have.
abbrev pub IsPart : Bytes → Type 0
IsPart p = (is_bad_part p ≡ false) × (has_byte slash p ≡ false)

-- Metadata of the namespace, of a node without a device or of a device with one.
abbrev pub IsMetadata : Metadata → Type 0
IsMetadata m =
    (m.namespace ≡ sparkplug_namespace)
    × All IsPart (topic_parts m)
    × (if is_empty m.device_id
        then is_node_message_type m.message_type
        else is_device_message_type m.message_type)
      ≡ true

parse_parts_sound :
    (ps : List Bytes) (m : Metadata)
    → All (λ p. has_byte slash p ≡ false) ps
    → parse_parts ps ≡ some m
    → IsMetadata m × (topic_parts m ≡ ps)
unfolding is_bad_part
parse_parts_sound (n ∷ g ∷ t ∷ e ∷ []) m h eq = ground (arith, text_eq_iff n sparkplug_namespace)
parse_parts_sound (n ∷ g ∷ t ∷ e ∷ [] ∷ []) m h eq =
    ground (arith, text_eq_iff n sparkplug_namespace)
parse_parts_sound (n ∷ g ∷ t ∷ e ∷ (c ∷ d) ∷ []) m h eq =
    ground (arith, text_eq_iff n sparkplug_namespace)
parse_parts_sound _ m h eq = cc

parse_parts_complete : (m : Metadata) → IsMetadata m → parse_parts (topic_parts m) ≡ some m
parse_parts_complete m h = ground (arith, text_eq_iff m.namespace sparkplug_namespace)

no_slash : (ps : List Bytes) → All IsPart ps → All (λ p. has_byte slash p ≡ false) ps
no_slash [] h = tt
no_slash (p ∷ ps) h = (h.0.1, no_slash ps h.1)

-- A topic is read as some metadata exactly when it is the levels of that metadata, and the metadata
-- names the Sparkplug namespace, has only non-empty levels without wildcards and slashes, and has a
-- node's message type without a device or a device's message type with one.
pub parse_topic_iff :
    (topic : Bytes) (m : Metadata)
    → (parse_topic topic ≡ some m) ↔ IsMetadata m × (topic ≡ join slash (topic_parts m))
unfolding parse_topic
parse_topic_iff topic m = (
  λ e.
      let (h, same) = parse_parts_sound (split slash topic) m (split-no_sep slash topic) e in
      (h, rw same (sym (join-split slash topic))),
  λ h.
      rw (h.1, split-join slash m.namespace (topic_tail m) (no_slash (topic_parts m) h.0.1))
        (parse_parts_complete m h.0),
)
