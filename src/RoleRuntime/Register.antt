-- ===== src/RoleRuntime/Register.antt =====
-- server.go: the patterns that `Run` registers at its mux, and the routes of the other roles. Each `switch`
-- over the capabilities of a role is a table. A pattern stands for itself here: Routes has the handlers.
use Prim.Native.String.{◌++◌ as text_append}
use gateway_runtime.Prelude.{
  String, ◌&&◌, not, List, [], ◌∷◌, ◌++◌, Option, none, some, contains_str, str_eq, if◌then◌else◌,
}
use gateway_runtime.Prelude.Dict.{Dict, lookup}
use gateway_runtime.Text.Trim.{trim_right_of}
use gateway_runtime.RuntimeCfg.{Selection, role_storage, role_streaming, role_websocket, or_empty}
use gateway_runtime.RoleRuntime.{Config}

-- the patterns that a mux has; `HandleFunc` panics (`none`) at one that it has already. No pattern here has a
-- wildcard, so two of them conflict where they are the same.
abbrev pub Mux : Type 0
Mux = List String

unfoldable pub handle_func : String → Mux → Option Mux
handle_func pattern mux = if contains_str mux pattern then none else some (mux ++ pattern ∷ [])

abbrev then_each : (Mux → Option Mux) → Option Mux → Option Mux
then_each f none = none
then_each f (some mux) = f mux

unfoldable pub handle_all : List String → Mux → Option Mux
unfolding handle_func
handle_all [] mux = some mux
handle_all (pattern ∷ rest) mux = then_each (handle_all rest) (handle_func pattern mux)

-- `registerSystem`
abbrev pub system_patterns : List String
system_patterns = "GET /health/live" ∷ "GET /health/ready" ∷ "GET /runtime" ∷ []

-- `registerStorageCapability` with `registerMultipartRoutes`; the arms of `routePattern` for this role are not reached
abbrev pub storage_patterns : Dict (List String)
storage_patterns =
    ("upload", "POST /storage/upload" ∷ "POST /storage/intents/upload" ∷ [])
    ∷ ("download", "GET /storage/download" ∷ "POST /storage/intents/download" ∷ [])
    ∷ ("presign", "POST /storage/presign" ∷ [])
    ∷ (
      "multipart",
      "POST /storage/multipart/initiate" ∷ "POST /storage/multipart/part"
          ∷ "POST /storage/multipart/complete" ∷ "POST /storage/multipart/abort" ∷ [],
    )
    ∷ (
      "metadata",
      "GET /storage/metadata" ∷ "POST /storage/intents/verify" ∷ "GET /storage/references/metadata"
          ∷ [],
    )
    ∷ []

-- `routePattern`, where it is not empty
abbrev pub streaming_patterns : Dict (List String)
streaming_patterns =
    ("playback", "POST /streaming/playback" ∷ [])
    ∷ ("manifest", "GET /streaming/manifest" ∷ [])
    ∷ ("token", "POST /streaming/token" ∷ [])
    ∷ ("origin-select", "POST /streaming/origin-select" ∷ [])
    ∷ []

abbrev pub websocket_patterns : Dict (List String)
websocket_patterns =
    ("connect", "GET /websocket/connect" ∷ [])
    ∷ ("publish", "POST /websocket/publish" ∷ [])
    ∷ ("subscribe", "POST /websocket/subscribe" ∷ [])
    ∷ ("presence", "GET /websocket/presence" ∷ [])
    ∷ ("heartbeat", "POST /websocket/heartbeat" ∷ [])
    ∷ []

abbrev pub table_of : String → Dict (List String)
table_of role =
    if str_eq role role_storage
    then storage_patterns
    else if str_eq role role_streaming
    then streaming_patterns
    else if str_eq role role_websocket
    then websocket_patterns
    else []

-- the patterns of a capability of a role
unfoldable pub patterns_of : String → String → List String
unfolding lookup
patterns_of role cap = or_empty (lookup cap (table_of role))

-- `registerRole`
unfoldable pub role_patterns : String → List String → List String
unfolding patterns_of
role_patterns role [] = []
role_patterns role (cap ∷ caps) = patterns_of role cap ++ role_patterns role caps

unfoldable pub selected_patterns : List String → Dict (List String) → List String
unfolding role_patterns lookup
selected_patterns [] caps = []
selected_patterns (role ∷ roles) caps =
    role_patterns role (or_empty (lookup role caps)) ++ selected_patterns roles caps

-- the mux of `Run`
unfoldable pub register : Selection → Option Mux
unfolding handle_all selected_patterns
register sel = handle_all (system_patterns ++ selected_patterns sel.roles sel.capabilities) []

-- the pattern under which the mux is mounted, where there is a base path
unfoldable pub mount : Config → Option String
unfolding trim_right_of
mount cfg =
    if not (str_eq cfg.base_path "") && not (str_eq cfg.base_path "/")
    then some (text_append (trim_right_of "/" cfg.base_path) "/")
    else none
