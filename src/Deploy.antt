-- ===== src/Deploy.antt =====
-- internal/deploy: the part of the deployment that keeps track of the access files of single listeners.
pub mod Registry
pub mod Wiring
pub mod Files
use mcm.Base.{Bool, true, false, List, Option, keep}
use mcm.Text.{Bytes}
use mcm.Acl.Rule.{Scope, is_listener}

-- `ACLFileRender`.
pub record AclFileRender : Type 0 where
  pub scope : Scope
  pub listener_id : Bytes
  pub path : Bytes
  pub body : Bytes

-- The files of listeners, which several loops pick out of a render.
abbrev pub listener_files : List AclFileRender → List AclFileRender
listener_files files = keep (λ f. is_listener f.scope) files
