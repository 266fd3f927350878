-- ===== src/Sparkplug.antt =====
-- internal/sparkplug: the topics of Sparkplug B and the decoder of its payloads.
pub mod Topic
pub mod Metric
pub mod Fields
pub mod Decode
