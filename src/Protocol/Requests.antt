-- ===== src/Protocol/Requests.antt =====
-- `Request` and its version (portus-window-protocol/src/lib.rs).
use portus_window.Base.{ℕ, Bool, Option, List, Text}
use portus_window.Base.Int.{ℤ}
use portus_window.Protocol.Limits.{protocol_version}
use portus_window.Protocol.Windows.{
  MediaAction, WebVideoAction, WindowStateAction, WorkspaceTarget, ConfigAction, OpenSource,
  WindowGeometrySpec, WindowSpec, WorkspaceSpec,
}
use portus_window.Protocol.Auth.{AuthSessionAction}
use portus_window.Protocol.Interaction.{InteractionAction, InteractionScreenshot}

pub data Request : Type 0 where
  ping : (version : ℕ) → Request
  open_batch : (version : ℕ) → (windows : List WindowSpec) → Request
  open_source :
      (version : ℕ)
      → (source : OpenSource) → (description profile : Option Text)
      → (geometry : Option WindowGeometrySpec) → Request
  apply : (version : ℕ) → (spec : WorkspaceSpec) → (prune : Bool) → Request
  export : (version : ℕ) → Request
  list : (version : ℕ) → Request
  history : (version : ℕ) → (query : Option Text) → (clear : Bool) → Request
  config : (version : ℕ) → (action : ConfigAction) → Request
  workspaces : (version : ℕ) → Request
  status : (version : ℕ) → (target : Text) → Request
  console : (version : ℕ) → (target : Option Text) → (all : Bool) → Request
  screenshot :
      (version : ℕ) → (target : Option Text) → (out : Text) → (overwrite all : Bool) → Request
  record_video :
      (version : ℕ) → (target out : Text) → (duration_seconds : ℕ) → (overwrite : Bool) → Request
  media : (version : ℕ) → (target : Option Text) → (action : MediaAction) → (all : Bool) → Request
  web_video : (version : ℕ) → (target : Text) → (action : WebVideoAction) → Request
  auth_session : (version : ℕ) → (action : AuthSessionAction) → Request
  interact :
      (version : ℕ)
      → (target : Text) → (actions : List InteractionAction) → (timeout_ms : ℕ)
      → (screenshot : Option InteractionScreenshot) → Request
  tag : (version : ℕ) → (target : Option Text) → (description : Text) → (all : Bool) → Request
  focus : (version : ℕ) → (target : Text) → Request
  resize :
      (version : ℕ)
      → (target : Option Text) → (width height : Option ℕ) → (x y : Option ℤ)
      → (state : Option WindowStateAction) → (always_on_top : Option Bool)
      → (workspace : Option WorkspaceTarget) → (all : Bool) → Request
  close : (version : ℕ) → (target : Option Text) → (all : Bool) → Request

-- `Request::version`
unfoldable pub request_version : Request → ℕ
request_version (ping v) = v
request_version (open_batch v _) = v
request_version (open_source v _ _ _ _) = v
request_version (apply v _ _) = v
request_version (export v) = v
request_version (list v) = v
request_version (history v _ _) = v
request_version (config v _) = v
request_version (workspaces v) = v
request_version (status v _) = v
request_version (console v _ _) = v
request_version (screenshot v _ _ _ _) = v
request_version (record_video v _ _ _ _) = v
request_version (media v _ _ _) = v
request_version (web_video v _ _) = v
request_version (auth_session v _) = v
request_version (interact v _ _ _ _) = v
request_version (tag v _ _ _) = v
request_version (focus v _) = v
request_version (resize v _ _ _ _ _ _ _ _ _) = v
request_version (close v _ _) = v

-- `Request::ping`
abbrev pub ping_request : Request
ping_request = ping protocol_version
