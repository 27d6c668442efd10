-- ===== src/Ipc/Reading/Frames.antt =====
-- Which streams `read_frame` takes, and what it returns for the others.
use mathlib.Core.List.{append_assoc, append-nil}
use portus_window.Base.{
  ℕ, ◌+◌, ◌≤◌, ◌<◌, ◌≡◌, ◌≢◌, refl, ◌∙◌, ap, [], ◌∷◌, ◌++◌, arith, ltb, length, length-append, ok,
  err, All, Bool-cases, inl, inr, ltb→le, ltb→lt,
}
use portus_window.Protocol.Limits.{max_frame_bytes}
use portus_window.Protocol.Frame.{Bytes}
use portus_window.Ipc.Reading.{Ending, too_large, at_end, read_loop, read_frame}

abbrev pub IsLine : Bytes → Type 0
IsLine = All (λ c. c ≢ 10)

-- One round: a byte that ends neither the line nor the room is pushed.
read_loop-cons :
    (b : ℕ) (rest frame : Bytes) (ending : Ending)
    → b ≢ 10
    → length frame < max_frame_bytes
    → read_loop (b ∷ rest) frame ending ≡ read_loop rest (frame ++ b ∷ []) ending
unfolding read_loop
read_loop-cons b rest frame ending h room = ground (arith, length-append frame (b ∷ []))

read_loop-full :
    (b : ℕ) (rest frame : Bytes) (ending : Ending)
    → b ≢ 10
    → max_frame_bytes ≤ length frame
    → read_loop (b ∷ rest) frame ending ≡ err too_large
unfolding read_loop
read_loop-full b rest frame ending h full = ground (arith, length-append frame (b ∷ []))

-- With the frame so far: a line that fits is returned with its newline.
read_loop-line :
    (line frame rest : Bytes) (ending : Ending)
    → IsLine line
    → length frame + length line ≤ max_frame_bytes
    → read_loop (line ++ 10 ∷ rest) frame ending ≡ ok (frame ++ (line ++ 10 ∷ []))
read_loop-line [] frame rest ending h fits = unfold read_loop in refl
read_loop-line (b ∷ line) frame rest ending h fits =
    read_loop-cons b (line ++ 10 ∷ rest) frame ending h.0 (omega arith)
    ∙ read_loop-line line (frame ++ b ∷ []) rest ending h.1
        (omega (arith, length-append frame (b ∷ [])))
    ∙ ap ok (append_assoc frame (b ∷ []) (line ++ 10 ∷ []))

-- A line longer than the limit is refused, whatever follows.
read_loop-long :
    (line frame rest : Bytes) (ending : Ending)
    → IsLine line
    → length frame ≤ max_frame_bytes
    → max_frame_bytes < length frame + length line
    → read_loop (line ++ rest) frame ending ≡ err too_large
read_loop-long [] frame rest ending h le long = absurd (omega arith)
read_loop-long (b ∷ line) frame rest ending h le long =
    elim (Bool-cases (ltb (length frame) max_frame_bytes)) [
      | inl room ↦
          read_loop-cons b (line ++ rest) frame ending h.0 (ltb→lt _ _ room)
          ∙ read_loop-long line (frame ++ b ∷ []) rest ending h.1
              (omega
                (arith, length-append frame (b ∷ []), ltb→lt (length frame) max_frame_bytes room))
              (omega (arith, length-append frame (b ∷ [])))
      | inr full ↦ read_loop-full b (line ++ rest) frame ending h.0 (ltb→le _ _ full)
    ]

-- A stream that ends before its newline, within the limit.
read_loop-cut :
    (line frame : Bytes) (ending : Ending)
    → IsLine line
    → length frame + length line ≤ max_frame_bytes
    → read_loop line frame ending ≡ err (at_end (frame ++ line) ending)
read_loop-cut [] frame ending h fits = unfold read_loop in rw (append-nil frame)
read_loop-cut (b ∷ line) frame ending h fits =
    read_loop-cons b line frame ending h.0 (omega arith)
    ∙ read_loop-cut line (frame ++ b ∷ []) ending h.1 (omega (arith, length-append frame (b ∷ [])))
    ∙ ap (λ f. err (at_end f ending)) (append_assoc frame (b ∷ []) line)

-- A stream that starts with a line of at most 65536 bytes and its newline gives exactly that frame:
-- neither the bytes behind the newline nor the way the stream ends change the result.
pub read_frame-line :
    (line rest : Bytes) (ending : Ending)
    → IsLine line
    → length line ≤ max_frame_bytes
    → read_frame (line ++ 10 ∷ rest) ending ≡ ok (line ++ 10 ∷ [])
unfolding read_frame
read_frame-line line rest ending h fits = read_loop-line line [] rest ending h (omega arith)

-- A stream with no newline among its first 65537 bytes is refused as too large, however it goes on.
pub read_frame-long :
    (line rest : Bytes) (ending : Ending)
    → IsLine line
    → max_frame_bytes < length line
    → read_frame (line ++ rest) ending ≡ err too_large
unfolding read_frame
read_frame-long line rest ending h long =
    read_loop-long line [] rest ending h (omega arith) (omega arith)

-- A stream of at most 65536 bytes with no newline: nothing at all and a close is an empty frame, a
-- close behind some bytes a missing terminator, a failed read its error, a stall the timeout.
pub read_frame-cut :
    (line : Bytes) (ending : Ending)
    → IsLine line
    → length line ≤ max_frame_bytes
    → read_frame line ending ≡ err (at_end line ending)
unfolding read_frame
read_frame-cut line ending h fits = read_loop-cut line [] ending h (omega arith)
