-- ===== src/Acl.antt =====
-- internal/acl: the rules of a Mosquitto access control list, their validation, what they grant to
-- a client, and the in-memory store.
pub mod Rule
pub mod Levels
pub mod Filter
pub mod Validate
pub mod Version
pub mod Effective
pub mod Store
