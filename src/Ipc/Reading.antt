-- ===== src/Ipc/Reading.antt =====
-- `read_frame` (portus-window/src/ipc.rs). A stream is the bytes that arrive before the deadline of
-- five seconds that `handle_connection` sets, and what comes after them.
pub mod Frames
use portus_window.Base.{ℕ, List, [], ◌∷◌, ◌++◌, if◌then◌else◌, ◌==◌, ltb, length, Result, ok, err}
use portus_window.Protocol.Limits.{max_frame_bytes}
use portus_window.Protocol.Frame.{Bytes, FrameError}

-- `io::Error`: one that this code makes from a frame's error, or one of the system.
pub data IoError : Type 0 where
  invalid_data : (cause : FrameError) → IoError
  system : (code : ℕ) → IoError

-- The peer closes, the read fails, or nothing more comes until the deadline.
pub data Ending : Type 0 where
  closed : Ending
  broken : (cause : IoError) → Ending
  stalled : Ending

pub data FrameReadError : Type 0 where
  empty missing_terminator timeout too_large : FrameReadError
  io : (cause : IoError) → FrameReadError

-- What the loop makes of a read that brings no byte.
unfoldable pub at_end : Bytes → Ending → FrameReadError
at_end [] closed = empty
at_end (b ∷ frame) closed = missing_terminator
at_end frame (broken e) = io e
at_end frame stalled = timeout

-- The loop, over the bytes to come and the frame so far.
unfoldable pub read_loop : Bytes → Bytes → Ending → Result FrameReadError Bytes
unfolding at_end
read_loop [] frame ending = err (at_end frame ending)
read_loop (b ∷ rest) frame ending =
    let pushed = frame ++ b ∷ [] in
    let more = read_loop rest pushed ending in
    if b == 10
    then ok pushed
    else if ltb max_frame_bytes (length pushed)
    then err too_large
    else more

unfoldable pub read_frame : Bytes → Ending → Result FrameReadError Bytes
unfolding read_loop
read_frame bytes ending = read_loop bytes [] ending
