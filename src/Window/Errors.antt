-- ===== src/Window/Errors.antt =====
-- `WindowCoreError` and the results of the core's functions (portus-window/src/window_core.rs).
use portus_window.Base.{Text, Result}

pub data WindowCoreError : Type 0 where
  validation : (message : Text) → WindowCoreError
  target_not_found : (target : Text) → WindowCoreError
  target_ambiguous : (target : Text) → WindowCoreError
  capacity_exhausted : WindowCoreError
  state : (message : Text) → WindowCoreError
  operation : (message : Text) → WindowCoreError

abbrev pub Checked : Type 0 → Type 0
Checked = Result WindowCoreError
