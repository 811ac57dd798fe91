-- ===== src/Daemon/Store/Columns.antt =====
-- How values of store.rs stand in the columns.
use Prim.Native.String.{◌++◌ as str_append}
use mathlib.Core.Logic.{ite}
use omp_remote.Prelude.{
  ℕ, ℤ, pos, negsuc, String, Bool, Option, none, some, Result, ok, err, ◌>>=◌, ok_or, leb, i64_max,
  if◌then◌else◌, String_discrete, ◌≡◌, refl,
}
use omp_remote.Protocol.State.{AgentLifecycle}
use omp_remote.Protocol.Frame.Types.{ClientPlatform, web, mobile, desktop, cli, service}
use omp_remote.Daemon.Store.Types.{StoreError, integer_overflow, corrupt_data}

unfoldable pub sql_u64 : ℕ → String → Result StoreError ℤ
sql_u64 value field = if leb value i64_max then ok (pos value) else err (integer_overflow field)

unfoldable pub wire_u64 : ℤ → String → Result StoreError ℕ
wire_u64 (pos n) field = ok n
wire_u64 (negsuc n) field = err (corrupt_data (str_append "negative " field))

unfoldable pub encode_lifecycle : AgentLifecycle → String × Option String
encode_lifecycle AgentLifecycle.starting = ("starting", none)
encode_lifecycle AgentLifecycle.idle = ("idle", none)
encode_lifecycle AgentLifecycle.running = ("running", none)
encode_lifecycle AgentLifecycle.stopping = ("stopping", none)
encode_lifecycle AgentLifecycle.stopped = ("stopped", none)
encode_lifecycle AgentLifecycle.interrupted = ("interrupted", none)
encode_lifecycle (AgentLifecycle.failed reason) = ("failed", some reason)

abbrev pub same : String → String → Bool
same a b = ite (String_discrete a b) Bool.true Bool.false

unfoldable pub decode_lifecycle : String → Option String → Result StoreError AgentLifecycle
unfolding String_discrete
decode_lifecycle lifecycle failure_reason =
    if same lifecycle "starting"
    then ok AgentLifecycle.starting
    else if same lifecycle "idle"
    then ok AgentLifecycle.idle
    else if same lifecycle "running"
    then ok AgentLifecycle.running
    else if same lifecycle "stopping"
    then ok AgentLifecycle.stopping
    else if same lifecycle "stopped"
    then ok AgentLifecycle.stopped
    else if same lifecycle "interrupted"
    then ok AgentLifecycle.interrupted
    else if same lifecycle "failed"
    then (ok_or failure_reason (corrupt_data "failed agent has no failure reason") >>= λ reason.
        ok (AgentLifecycle.failed reason))
    else err (corrupt_data (str_append "unknown agent lifecycle " lifecycle))

unfoldable pub encode_platform : ClientPlatform → String
encode_platform web = "web"
encode_platform mobile = "mobile"
encode_platform desktop = "desktop"
encode_platform cli = "cli"
encode_platform service = "service"

unfoldable pub decode_platform : String → Result StoreError ClientPlatform
unfolding String_discrete
decode_platform platform =
    if same platform "web"
    then ok web
    else if same platform "mobile"
    then ok mobile
    else if same platform "desktop"
    then ok desktop
    else if same platform "cli"
    then ok cli
    else if same platform "service"
    then ok service
    else err (corrupt_data (str_append "unknown device platform " platform))

-- What the store writes of a lifecycle is read back as it was.
pub decode-encode_lifecycle :
    (l : AgentLifecycle) → decode_lifecycle (encode_lifecycle l).0 (encode_lifecycle l).1 ≡ ok l
unfolding decode_lifecycle encode_lifecycle
decode-encode_lifecycle AgentLifecycle.starting = refl
decode-encode_lifecycle AgentLifecycle.idle = refl
decode-encode_lifecycle AgentLifecycle.running = refl
decode-encode_lifecycle AgentLifecycle.stopping = refl
decode-encode_lifecycle AgentLifecycle.stopped = refl
decode-encode_lifecycle AgentLifecycle.interrupted = refl
decode-encode_lifecycle (AgentLifecycle.failed reason) = refl

-- What the store writes of a platform is read back as it was.
pub decode-encode_platform : (p : ClientPlatform) → decode_platform (encode_platform p) ≡ ok p
unfolding decode_platform encode_platform
decode-encode_platform web = refl
decode-encode_platform mobile = refl
decode-encode_platform desktop = refl
decode-encode_platform cli = refl
decode-encode_platform service = refl
