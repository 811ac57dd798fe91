-- ===== src/Protocol/Frame/Agreement.antt =====
-- What the two sides of frame.rs agree on in a hello, and which requests pass the check.
use omp_remote.Prelude.{
  ℕ, ◌≡◌, ◌↔◌, refl, String, Bool, true, false, ◌&&◌, not, [], ◌∷◌, ok, ◌>>=◌, arith, is_some,
  reject_if,
}
use omp_remote.Prelude.BTreeMap.{contains_key, get}
use omp_remote.Protocol.Frame.Types.{
  Payloads, ProtocolVersion, ClientFrame, hello, ClientHello, ClientCapabilities, RequestEnvelope,
  BTreeSet,
}
use omp_remote.Protocol.Frame.Checks.{
  offers, negotiate_client_hello, intersection, negotiate_capabilities, is_mutating, validate,
  missing_operation_id, unexpected_operation_id,
}

-- A first frame is accepted exactly if it is a hello that offers version 1, which is then the one
-- in use.
negotiate_client_hello_exact :
    {P : Payloads} (frame : ClientFrame P) (h : ClientHello) (v : ProtocolVersion)
    → (negotiate_client_hello frame ≡ ok (h, v))
      ↔ ((frame ≡ hello h) × (offers h.supported_versions 1 ≡ true) × (v ≡ 1))
unfolding negotiate_client_hello
negotiate_client_hello_exact (hello k) h v = (λ e. ground arith, λ e. ground arith)
negotiate_client_hello_exact _ h v = (λ e. cc, λ e. cc)

checked :
    (b s : Bool)
    → ((reject_if (b && not s) missing_operation_id >>= λ _.
          reject_if (not b && s) unexpected_operation_id)
        ≡ ok tt)
      ↔ (b ≡ s)
checked true true = (λ h. refl, λ h. refl)
checked true false = (λ h. cc, λ h. cc)
checked false true = (λ h. cc, λ h. cc)
checked false false = (λ h. refl, λ h. refl)

-- A request passes the check exactly if it has an operation ID just when it changes something.
pub validate_exact :
    {P : Payloads} (e : RequestEnvelope P)
    → (validate e ≡ ok tt) ↔ (is_mutating e.request ≡ is_some e.operation_id)
unfolding validate
validate_exact e = checked (is_mutating e.request) (is_some e.operation_id)

contains-intersection :
    (k : String) (a b : BTreeSet)
    → contains_key k (intersection a b) ≡ (contains_key k a && contains_key k b)
unfolding intersection get
contains-intersection k [] b = refl
contains-intersection k ((j, u) ∷ a) b = ground (arith, contains-intersection k a b)

-- The enabled capabilities are those that the server has and the client asked for.
pub negotiate_capabilities_exact :
    (available : BTreeSet) (c : ClientCapabilities) (limit : ℕ) (k : String)
    → contains_key k (negotiate_capabilities available c limit).enabled
      ≡ (contains_key k available && contains_key k c.requested)
unfolding negotiate_capabilities
negotiate_capabilities_exact available c limit k = contains-intersection k available c.requested
