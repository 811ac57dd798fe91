-- ===== src/Protocol/Id.antt =====
-- crates/omp-control-protocol/src/id.rs. An identifier is its string: the newtypes that the macro
-- makes have the one field, and only `new` checks it.
use omp_remote.Prelude.{String, String_discrete, Result, ok, err}
use mathlib.Core.Logic.{ite}

abbrev pub AgentId : Type 0
AgentId = String

abbrev pub RunId : Type 0
RunId = String

abbrev pub LeaseHolderId : Type 0
LeaseHolderId = String

abbrev pub ServerId : Type 0
ServerId = String

abbrev pub DeviceId : Type 0
DeviceId = String

abbrev pub PairingId : Type 0
PairingId = String

abbrev pub RequestId : Type 0
RequestId = String

abbrev pub OperationId : Type 0
OperationId = String

pub data IdentifierError : Type 0 where
  identifier_error : String → IdentifierError

-- `$name::new` at the macro's label.
unfoldable pub new_identifier : String → String → Result IdentifierError String
unfolding String_discrete
new_identifier label value =
    ite (String_discrete value "") (err (identifier_error label)) (ok value)
