-- ===== src/Handling/Version.antt =====
-- event_sidecar/src/api_version_manager.rs: the newest version of any node.
pub mod Laws
use casper_sidecar.Prelude.{if◌then◌else◌, Bool, true, false, Option, none, some}

pub record ApiVersionManager (V : Type 0) : Type 0 where
  pub newest_protocol_version : Option V

unfoldable pub new_inner : {V : Type 0} → ApiVersionManager V
new_inner = record { newest_protocol_version = none }

-- The order of versions is a parameter.
module _ {V : Type 0} (gt : V → V → Bool) where
  unfoldable pub store_version : V → ApiVersionManager V → Bool × ApiVersionManager V
  store_version protocol_version manager = elim manager.newest_protocol_version [
    | some current ↦
        if gt protocol_version current
        then (true, record { newest_protocol_version = some protocol_version })
        else (false, manager)
    | none ↦ (true, record { newest_protocol_version = some protocol_version })
  ]
