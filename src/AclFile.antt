-- ===== src/AclFile.antt =====
-- internal/mosquitto/acl.go and acldoc.go: Mosquitto ACL files, as a lossless document of lines, as
-- a rendering of rules, and the composition of managed rules into a document.
pub mod Entry
pub mod Document
pub mod Compose
pub mod Body
