-- ===== src/Ipc/Connection/Replies.antt =====
-- What a client receives: the handler's answer, or an error that the handler has no part in.
use mathlib.Core.List.{append_assoc}
use portus_window.Base.{
  ◌≡◌, ◌≢◌, ◌∙◌, Option, none, ap, [], ◌∷◌, ◌++◌, arith, length-append, ok, err, if◌then◌else◌,
  ◌==◌,
}
use portus_window.Protocol.Limits.{protocol_version}
use portus_window.Protocol.Requests.{Request, request_version}
use portus_window.Protocol.Responses.{Response, failure, version_mismatch}
use portus_window.Protocol.Frame.{Bytes, FrameError, Json, IsFaithful, encode_frame, decode_frame}
use portus_window.Protocol.Frame.RoundTrip.{encode_frame-eq-ok, decode_frame-encode_frame}
use portus_window.Ipc.Reading.{Ending, IoError, invalid_data, read_frame}
use portus_window.Ipc.Reading.Frames.{read_frame-line}
use portus_window.Ipc.Connection.{Handler, process_frame, send, handle_connection, version_text}

-- The host reads back the frame that a client encoded, and nothing of what follows it.
pub read_frame-encode_frame :
    {A : Type 0} (j : Json A) (a : A) (frame rest : Bytes) (ending : Ending)
    → IsFaithful j a
    → encode_frame j a ≡ ok frame
    → read_frame (frame ++ rest) ending ≡ ok frame
read_frame-encode_frame j a frame rest ending faithful h =
    let (b, e, shape, fits) = encode_frame-eq-ok j a frame h in
    rw (shape, append_assoc b (10 ∷ []) rest)
      (read_frame-line b rest ending (faithful.one_line b e)
        (omega (arith, length-append b (10 ∷ []))))

module _ {V : Type 0} (requests : Json Request) (responses : Json (Response V)) where
  process_frame-encode_frame :
      (r : Request) (frame : Bytes) (handle : Handler V)
      → IsFaithful requests r
      → encode_frame requests r ≡ ok frame
      → process_frame requests responses frame handle ≡ (
          if request_version r == protocol_version
          then handle r
          else failure version_mismatch (version_text (request_version r)))
  unfolding process_frame
  process_frame-encode_frame r frame handle faithful h =
      rw (decode_frame-encode_frame requests r frame faithful h, process_frame)

  handle_connection-read :
      (frame incoming : Bytes) (ending : Ending) (refusal : Option IoError) (handle : Handler V)
      → read_frame incoming ending ≡ ok frame
      → handle_connection requests responses incoming ending refusal handle
        ≡ send requests responses refusal (process_frame requests responses frame handle)
  unfolding handle_connection
  handle_connection-read frame incoming ending refusal handle h = rw (h, handle_connection)

  -- The task sends the response to the request, whatever follows on the stream.
  handle_connection-encode_frame :
      (r : Request) (frame rest : Bytes) (ending : Ending) (refusal : Option IoError)
      (handle : Handler V)
      → IsFaithful requests r
      → encode_frame requests r ≡ ok frame
      → handle_connection requests responses (frame ++ rest) ending refusal handle
        ≡ send requests responses refusal (
            if request_version r == protocol_version
            then handle r
            else failure version_mismatch (version_text (request_version r)))
  handle_connection-encode_frame r frame rest ending refusal handle faithful h =
      handle_connection-read frame _ ending refusal handle
        (read_frame-encode_frame requests r frame rest ending faithful h)
      ∙ ap (send requests responses refusal) (process_frame-encode_frame r frame handle faithful h)

  -- A request of this protocol version that the client encodes, with whatever it sends behind it, is
  -- answered by one frame, which decodes to the handler's response, if that response fits a frame and
  -- serde_json reads back both this request and this response, each written on one line.
  pub handle_connection-answers :
      (r : Request) (frame reply rest : Bytes) (ending : Ending) (handle : Handler V)
      → IsFaithful requests r
      → IsFaithful responses (handle r)
      → request_version r ≡ protocol_version
      → encode_frame requests r ≡ ok frame
      → encode_frame responses (handle r) ≡ ok reply
      → (handle_connection requests responses (frame ++ rest) ending none handle ≡ ok reply)
        × (decode_frame responses reply ≡ ok (handle r))
  unfolding send
  handle_connection-answers r frame reply rest ending handle fq fr version h k = (
    handle_connection-encode_frame r frame rest ending none handle fq h ∙ rw (version, k, send),
    decode_frame-encode_frame responses (handle r) reply fr k,
  )

  -- A request of another version that the client encodes is answered by a version mismatch that names
  -- the version, and the handler has no part in it, if serde_json reads back this request, written on
  -- one line.
  pub handle_connection-version_mismatch :
      (r : Request) (frame rest : Bytes) (ending : Ending) (refusal : Option IoError)
      (handle : Handler V)
      → IsFaithful requests r
      → request_version r ≢ protocol_version
      → encode_frame requests r ≡ ok frame
      → handle_connection requests responses (frame ++ rest) ending refusal handle
        ≡ send requests responses refusal
            (failure version_mismatch (version_text (request_version r)))
  handle_connection-version_mismatch r frame rest ending refusal handle faithful other h =
      handle_connection-encode_frame r frame rest ending refusal handle faithful h
      ∙ ap (send requests responses refusal) (ground arith)

  -- To a request of this protocol version that the client encodes, a response of the handler that does
  -- not fit a frame is not sent at all: the task ends with an error. This is so if serde_json reads
  -- back this request, written on one line.
  pub handle_connection-unanswered :
      (r : Request) (frame rest : Bytes) (ending : Ending) (handle : Handler V) (e : FrameError)
      → IsFaithful requests r
      → request_version r ≡ protocol_version
      → encode_frame requests r ≡ ok frame
      → encode_frame responses (handle r) ≡ err e
      → handle_connection requests responses (frame ++ rest) ending none handle
        ≡ err (invalid_data e)
  unfolding send
  handle_connection-unanswered r frame rest ending handle e faithful version h k =
      handle_connection-encode_frame r frame rest ending none handle faithful h
      ∙ rw (version, k, send)
