-- ===== src/Cli/Transport/Outcomes.antt =====
-- The exit codes, and which frames the client reads (portus-window-cli/src/transport.rs).
use portus_window.Base.{
  ◌≡◌, refl, ap, Bool, true, false, [], ◌∷◌, ◌++◌, if◌then◌else◌, ◌==◌, ltb, length, Text, Result,
  ok, err,
}
use portus_window.Protocol.Limits.{protocol_version, max_frame_bytes}
use portus_window.Protocol.Interaction.{InteractionResult}
use portus_window.Protocol.Responses
use portus_window.Protocol.Responses.{Response}
use portus_window.Protocol.Frame.{Bytes}
use portus_window.Ipc.Reading.{
  Ending, IoError, closed, broken, stalled, FrameReadError, at_end, read_loop, read_frame,
}
use portus_window.Cli.Transport.{
  ReplyError, no_response, unterminated, exceeded, late, io, no_more, receive_loop, receive_frame,
}

-- The client's word for an error of the host's `read_frame`.
abbrev in_client : FrameReadError → ReplyError
in_client FrameReadError.empty = no_response
in_client FrameReadError.missing_terminator = unterminated
in_client FrameReadError.timeout = late
in_client FrameReadError.too_large = exceeded
in_client (FrameReadError.io cause) = io cause

abbrev pub as_client : Result FrameReadError Bytes → Result ReplyError Bytes
as_client (ok frame) = ok frame
as_client (err e) = err (in_client e)

no_more-at_end :
    (frame : Bytes) (ending : Ending) → no_more frame ending ≡ in_client (at_end frame ending)
unfolding no_more at_end
no_more-at_end [] closed = refl
no_more-at_end (b ∷ frame) closed = refl
no_more-at_end [] (broken e) = refl
no_more-at_end (b ∷ frame) (broken e) = refl
no_more-at_end [] stalled = refl
no_more-at_end (b ∷ frame) stalled = refl

receive_loop-read_loop :
    (bytes frame : Bytes) (ending : Ending)
    → receive_loop bytes frame ending ≡ as_client (read_loop bytes frame ending)
unfolding receive_loop read_loop
receive_loop-read_loop [] frame ending = ap err (no_more-at_end frame ending)
receive_loop-read_loop (b ∷ rest) frame ending =
    either (b == 10) (ltb max_frame_bytes (length (frame ++ b ∷ []))) (frame ++ b ∷ [])
      (receive_loop rest (frame ++ b ∷ []) ending) (read_loop rest (frame ++ b ∷ []) ending)
      (receive_loop-read_loop rest (frame ++ b ∷ []) ending)
  where
    either :
        (ends full : Bool) (pushed : Bytes) (x : Result ReplyError Bytes)
        (y : Result FrameReadError Bytes)
        → x ≡ as_client y
        → (if ends then ok pushed else if full then err exceeded else x)
          ≡ as_client (if ends then ok pushed else if full then err FrameReadError.too_large else y)
    either true full pushed x y h = refl
    either false true pushed x y h = refl
    either false false pushed x y h = h

-- The client and the host read the same frames from the same bytes, and refuse the same ones, each
-- with its own word for the reason.
pub receive_frame-read_frame :
    (bytes : Bytes) (ending : Ending)
    → receive_frame bytes ending ≡ as_client (read_frame bytes ending)
unfolding receive_frame read_frame
receive_frame-read_frame bytes ending = receive_loop-read_loop bytes [] ending

module _ {V : Type 0} (from_value : V → Result Text InteractionResult)
    (io_text : IoError → Text) where
  -- Of the host's version, and for an interaction one that was completed.
  abbrev pub IsSuccess : Response V → Bool → Type 0
  IsSuccess (Responses.error version error) interaction = ⊥
  IsSuccess (Responses.ok version value) false = version ≡ protocol_version
  IsSuccess (Responses.ok version value) true =
      (version ≡ protocol_version)
      × ((result : InteractionResult) × (from_value value ≡ ok result) × (result.completed ≡ true))

  abbrev IsComplete : V → Type 0
  IsComplete value =
      (result : InteractionResult) × (from_value value ≡ ok result) × (result.completed ≡ true)
