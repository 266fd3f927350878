-- ===== src/Dynsec.antt =====
-- internal/dynsec: the security database of the broker's dynamic security plugin.
pub mod Model
pub mod Command
pub mod Updates
pub mod Plan
pub mod Effect
pub mod Run
pub mod Reconcile
pub mod Table
pub mod Issue
pub mod Verify
pub mod Validate
pub mod Plugin
pub mod Guard
pub mod Protocol
pub mod Sort
pub mod Service
pub mod Adapter
