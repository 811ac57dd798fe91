-- ===== src/Client/Connection/Backoff.antt =====
-- The delays between the attempts of crates/omp-control-client/src/client.rs to connect.
use omp_remote.Prelude.{ℕ, ◌≤◌, ◌≡◌, Option, none, some, List, ok}
use omp_remote.Protocol.Frame.Types.{Payloads, ServerFrame, ServerShutdown}
use omp_remote.Client.Connection.Types.{Link, ClientConfig, SessionEnd}
use omp_remote.Client.Connection.Session.{Stage, Session, decoded}

module _ {P : Payloads} (link : Link P) (config : ClientConfig) (bound : ℕ)
    (initial : config.reconnect.initial_delay ≤ bound)
    (maximum : config.reconnect.maximum_delay ≤ bound)
    (named : (max after : ℕ) (bytes : List ℕ) (s : ServerShutdown)
      → decoded link config max bytes ≡ ok (ServerFrame.server_shutdown s)
      → s.reconnect_after_ms ≡ some after
      → after ≤ bound) where
  -- A sleep, and the delay that it leaves, are within the bound.
  abbrev pub Later : Stage link → Type 0
  Later (Stage.sleeping duration later) = (duration ≤ bound) × (later ≤ bound)
  Later _ = Unit

  abbrev pub IsPaced : Session link → Type 0
  IsPaced s = (s.reconnect_delay ≤ bound) × Later s.stage

  -- A time that the end of a session names is within the bound.
  abbrev IsSoon : SessionEnd → Type 0
  IsSoon (SessionEnd.reconnect reason (some after)) = after ≤ bound
  IsSoon _ = Unit

  abbrev AreSoon : Option SessionEnd → Type 0
  AreSoon none = Unit
  AreSoon (some end) = IsSoon end
