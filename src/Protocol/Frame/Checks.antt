-- ===== src/Protocol/Frame/Checks.antt =====
-- `negotiate_version`, `negotiate_client_hello`, `ServerCapabilities::negotiate` and the checks of a
-- request.
use mathlib.Core.List.{reverse}
use omp_remote.Prelude.{
  ℕ, Bool, true, false, ◌&&◌, ◌||◌, not, Option, none, some, List, [], ◌∷◌, Result, ok, err, ◌>>=◌,
  ok_or, ◌==◌, if◌then◌else◌, is_some, reject_if,
}
use omp_remote.Prelude.BTreeMap.{contains_key, get}
use omp_remote.Protocol.Frame.Types.{
  Payloads, ProtocolVersion, ClientHello, ClientFrame, hello, ClientCapabilities,
  ServerCapabilities, BTreeSet, ControlRequest, RequestEnvelope,
}

abbrev pub supported_protocol_versions : List ProtocolVersion
supported_protocol_versions = 1 ∷ []

pub data ProtocolNegotiationError : Type 0 where
  unsupported_versions expected_hello : ProtocolNegotiationError

pub data RequestValidationError : Type 0 where
  missing_operation_id unexpected_operation_id : RequestValidationError

-- `client_versions.contains(version)`.
unfoldable pub offers : List ProtocolVersion → ProtocolVersion → Bool
offers [] v = false
offers (w ∷ ws) v = v == w || offers ws v

-- `find`: the first of the versions that the client offers.
unfoldable pub first_offered : List ProtocolVersion → List ProtocolVersion → Option ProtocolVersion
unfolding offers
first_offered client [] = none
first_offered client (v ∷ vs) =
    let later = first_offered client vs in if offers client v then some v else later

unfoldable pub negotiate_version :
    List ProtocolVersion → Result ProtocolNegotiationError ProtocolVersion
unfolding first_offered
negotiate_version client =
    ok_or (first_offered client (reverse supported_protocol_versions)) unsupported_versions

unfoldable pub negotiate_client_hello :
    {P : Payloads} → ClientFrame P → Result ProtocolNegotiationError (ClientHello × ProtocolVersion)
unfolding negotiate_version
negotiate_client_hello (hello h) = negotiate_version h.supported_versions >>= λ v. ok (h, v)
negotiate_client_hello _ = err expected_hello

-- `available.intersection(&requested.requested)`.
unfoldable pub intersection : BTreeSet → BTreeSet → BTreeSet
unfolding get
intersection [] other = []
intersection ((k, u) ∷ rest) other =
    let common = intersection rest other in if contains_key k other then (k, u) ∷ common else common

-- `ServerCapabilities::negotiate`.
unfoldable pub negotiate_capabilities : BTreeSet → ClientCapabilities → ℕ → ServerCapabilities
unfolding intersection
negotiate_capabilities available capabilities max_frame_bytes = record {
  enabled = intersection available capabilities.requested;
  max_frame_bytes = max_frame_bytes;
}

module _ {P : Payloads} where
  unfoldable pub is_mutating : ControlRequest P → Bool
  is_mutating ControlRequest.list_agents = false
  is_mutating (ControlRequest.get_agent agent_id) = false
  is_mutating ControlRequest.list_devices = false
  is_mutating _ = true

  -- `RequestEnvelope::validate`.
  unfoldable pub validate : RequestEnvelope P → Result RequestValidationError (Unit {0})
  unfolding is_mutating
  validate e =
      reject_if (is_mutating e.request && not (is_some e.operation_id)) missing_operation_id
      >>= λ _.
          reject_if (not (is_mutating e.request) && is_some e.operation_id) unexpected_operation_id
