-- ===== src/Cli/Args.antt =====
-- What clap makes of the command line (portus-window-cli/src/args.rs). An `f64` is its bit pattern.
use portus_window.Base.{ℕ, Bool, Option, List, Text}
use portus_window.Base.Int.{ℤ}
use portus_window.Cli.Paths.{PathBuf}

pub data MediaCommands : Type 0 where
  play pause : MediaCommands
  seek : (seconds : ℕ) → MediaCommands
  set_volume : (level : ℕ) → MediaCommands

pub data AuthSessionCommands : Type 0 where
  request :
      (domain window : Option Text)
      → (browser scope : Text) → (reason presentation_window : Option Text) → AuthSessionCommands
  status : (domain window : Option Text) → AuthSessionCommands
  apply : (domain window : Option Text) → (window_session_id : Text) → AuthSessionCommands
  revoke : (domain window : Option Text) → AuthSessionCommands

-- The flags of a window's state.
pub record StateFlags : Type 0 where
  pub maximize : Bool
  pub minimize : Bool
  pub restore : Bool
  pub fullscreen : Bool

pub data Commands : Type 0 where
  ping : Commands
  open_batch : (file : Option PathBuf) → Commands
  open_source :
      (source : Text)
      → (description profile : Option Text) → (wait_loaded : Bool) → (width height : Option ℕ)
      → (x y : Option ℤ) → (flags : StateFlags) → (always_on_top : Option Bool)
      → (workspace : Option Text) → Commands
  apply : (file : Option PathBuf) → (prune : Bool) → Commands
  export : (out : Option PathBuf) → Commands
  list : Commands
  history : (query : Option Text) → (clear : Bool) → Commands
  config : (show : Bool) → (set : Option Text) → Commands
  auth_session : (action : AuthSessionCommands) → Commands
  workspaces : Commands
  status : (target : Text) → Commands
  console : (target : Option Text) → (all : Bool) → Commands
  screenshot : (target : Option Text) → (out : Option PathBuf) → (overwrite all : Bool) → Commands
  record_video :
      (target : Text) → (out : PathBuf) → (duration_seconds : ℕ) → (overwrite : Bool) → Commands
  media : (target : Option Text) → (action : MediaCommands) → (all : Bool) → Commands
  interact :
      (target : Text)
      → (actions : List Text) → (interaction_timeout_ms : ℕ) → (screenshot_out : Option PathBuf)
      → (screenshot_overwrite : Bool) → Commands
  tag : (target description : Option Text) → (all : Bool) → Commands
  focus : (target : Text) → Commands
  resize :
      (target : Option Text)
      → (width height : Option ℕ) → (x y : Option ℤ) → (flags : StateFlags)
      → (always_on_top : Option Bool) → (workspace : Option Text) → (all : Bool) → Commands
  close : (target : Option Text) → (all : Bool) → Commands
