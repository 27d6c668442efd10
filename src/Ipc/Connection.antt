-- ===== src/Ipc/Connection.antt =====
-- `process_frame` and `handle_connection` (portus-window/src/ipc.rs, as built for Linux), over any
-- `CommandHandler`, any JSON values `V` and the serializer of serde_json.
pub mod Replies
use portus_window.Base.{
  ℕ, Option, none, some, if◌then◌else◌, ◌==◌, ◌++◌, Text, text, decimal, Result, ok, err,
}
use portus_window.Protocol.Limits.{protocol_version, max_frame_bytes}
use portus_window.Protocol.Requests.{Request, request_version}
use portus_window.Protocol.Responses.{
  Response, ErrorCode, failure, validation_failed, version_mismatch, timeout, frame_too_large,
}
use portus_window.Protocol.Frame.{
  Bytes, FrameError, too_large, invalid_json, Json, encode_frame, decode_frame,
}
use portus_window.Ipc.Reading.{
  IoError, invalid_data, Ending, FrameReadError, empty, missing_terminator, io, read_frame,
}

-- `Display` of `FrameError`.
abbrev pub frame_error_text : FrameError → Text
frame_error_text (too_large _ _) = text "payload exceeds maximum frame size"
frame_error_text (invalid_json message) = text "payload is invalid JSON: " ++ message

abbrev pub version_text : ℕ → Text
version_text v =
    text "protocol version "
    ++ (decimal v ++ (text " is unsupported; expected " ++ decimal protocol_version))

-- What a `CommandHandler` answers.
abbrev pub Handler : Type 0 → Type 0
Handler V = Request → Response V

module _ {V : Type 0} (requests : Json Request) (responses : Json (Response V)) where
  unfoldable pub process_frame : Bytes → Handler V → Response V
  process_frame frame handle = elim (decode_frame requests frame) [
    | err (too_large _ _) ↦ failure frame_too_large (text "request frame was too large")
    | err (invalid_json message) ↦
        failure validation_failed
          (text "could not decode request: " ++ frame_error_text (invalid_json message))
    | ok request ↦
        if request_version request == protocol_version
        then handle request
        else failure version_mismatch (version_text (request_version request))
  ]

  -- The response to what was read, unless the read failed.
  answer : Result FrameReadError Bytes → Handler V → Result IoError (Response V)
  unfolding process_frame
  answer (ok frame) handle = ok (process_frame frame handle)
  answer (err FrameReadError.too_large) handle = ok (
      failure frame_too_large
        (text "request exceeded the " ++ (decimal max_frame_bytes ++ text "-byte frame limit")))
  answer (err empty) handle = ok (failure validation_failed (text "request frame was empty"))
  answer (err missing_terminator) handle =
      ok (failure validation_failed (text "request frame was not newline terminated"))
  answer (err FrameReadError.timeout) handle =
      ok (failure timeout (text "request frame read timed out"))
  answer (err (io e)) handle = err e

  -- Encode, write and flush. The stream takes the bytes, or refuses them with an error.
  unfoldable pub send : Option IoError → Response V → Result IoError Bytes
  send refusal response = elim (encode_frame responses response) [
    | err e ↦ err (invalid_data e)
    | ok payload ↦ elim refusal [ none ↦ ok payload | some e ↦ err e ]
  ]

  send_answer : Option IoError → Result IoError (Response V) → Result IoError Bytes
  unfolding send
  send_answer refusal (ok response) = send refusal response
  send_answer refusal (err e) = err e

  -- The bytes that the connection's task writes, or the error that it ends with.
  unfoldable pub handle_connection :
      Bytes → Ending → Option IoError → Handler V → Result IoError Bytes
  unfolding answer send_answer
  handle_connection incoming ending refusal handle =
      send_answer refusal (answer (read_frame incoming ending) handle)
