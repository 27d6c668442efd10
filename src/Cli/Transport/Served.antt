-- ===== src/Cli/Transport/Served.antt =====
-- The command line and the host together (portus-window-cli/src/transport.rs and
-- portus-window/src/ipc.rs): what a command comes to.
use mathlib.Core.List.{append-nil}
use portus_window.Base.{
  ℕ, Bool, ◌≡◌, refl, ◌∙◌, ap, none, [], ◌++◌, Result, ok, err, Result-cases, inl, inr, Text, text,
}
use portus_window.Protocol.Limits.{protocol_version}
use portus_window.Protocol.Interaction.{InteractionResult}
use portus_window.Protocol.Requests.{Request, request_version}
use portus_window.Protocol.Responses.{Response, invalid_response}
use portus_window.Protocol.Frame.{Bytes, Json, IsFaithful, encode_frame}
use portus_window.Ipc.Reading.{Ending, IoError, closed, read_frame}
use portus_window.Ipc.Connection.{Handler, handle_connection}
use portus_window.Ipc.Connection.Replies.{
  handle_connection-answers, handle_connection-unanswered, read_frame-encode_frame,
}
use portus_window.Cli.Paths.{Surroundings}
use portus_window.Cli.Request.{Parsers, request_for}
use portus_window.Cli.Request.Accepted.{request_for-IsAccepted}
use portus_window.Cli.Transport.{
  Cli, CliOutcome, Peer, Progress, hasty, fail, is_interaction, received, written, receive_frame,
  receive_loop, no_more, execute_on_stream, connected, execute, outcome_from_daemon_response_for,
  reply_text,
}
use portus_window.Cli.Transport.Outcomes.{as_client, receive_frame-read_frame}

module _ {V : Type 0} (from_value : V → Result Text InteractionResult) (io_text : IoError → Text)
    (requests : Json Request) (responses : Json (Response V)) where
  -- The bytes that a connection's task sends, and the close behind them.
  abbrev sent : Result IoError Bytes → Bytes × Ending
  sent (ok reply) = (reply, closed)
  sent (err e) = ([], closed)

  -- The host at the other end, with this handler.
  abbrev pub daemon : Handler V → Peer
  daemon handle = record {
    connecting = Progress.done;
    writing = Progress.done;
    replying = λ payload. sent (handle_connection requests responses payload closed none handle);
  }

  -- What the command line makes of a response, if it fits a frame; else nothing is sent.
  abbrev pub served : Response V → Bool → CliOutcome V
  served response interaction = elim (encode_frame responses response) [
    | ok reply ↦ outcome_from_daemon_response_for from_value io_text response interaction
    | err e ↦ fail from_value io_text invalid_response (
        text
          "failed to read daemon response: daemon closed the connection before sending a response")
  ]

  execute_on_stream-served :
      (handle : Handler V) (timeout_ms : ℕ) (r : Request) (frame : Bytes)
      → IsFaithful requests r
      → IsFaithful responses (handle r)
      → request_version r ≡ protocol_version
      → encode_frame requests r ≡ ok frame
      → execute_on_stream from_value io_text requests responses (daemon handle) timeout_ms r
        ≡ served (handle r) (is_interaction r)
  unfolding execute_on_stream written
  execute_on_stream-served handle timeout_ms r frame fq fr version encoded =
      elim (Result-cases (encode_frame responses (handle r))) [
        | inl (reply, e) ↦
            let (replied, decoded) =
              handle_connection-answers requests responses r frame reply [] closed handle fq fr
                version encoded e in
            let sends = rw (append-nil frame) at replied in
            let whole : read_frame (reply ++ []) closed ≡ ok reply =
              read_frame-encode_frame {A = Response V} responses (handle r) reply [] closed fr e in
            let reads : receive_frame reply closed ≡ ok reply =
              receive_frame-read_frame reply closed
              ∙ ap as_client (rw (append-nil reply) at whole) in
            rw (encoded, execute_on_stream)
              (rw sends (rw reads (rw (decoded, received) (rw (e, served) refl))))
        | inr (e, refused) ↦
            let unanswered =
              handle_connection-unanswered requests responses r frame [] closed handle e fq version
                encoded refused in
            let sends = rw (append-nil frame) at unanswered in
            rw (encoded, execute_on_stream)
              (rw sends (
                rw (refused, served)
                  (unfold receive_loop in
                    unfold no_more in unfold received in unfold reply_text in refl)))
      ]

  -- A command that is accepted comes to what the handler's response to its request comes to, as
  -- if the command line had called the handler: both frames are read as they were written. Only
  -- a response that does not fit a frame is lost, and reported as a connection that was closed.
  -- serde_json reads back this request and this response, each written on one line; the host is there and in time; and the
  -- command line waits longer than an interaction may take.
  pub execute-served :
      (host : Surroundings) (parsers : Parsers) (handle : Handler V) (cli : Cli) (r : Request)
      → IsFaithful requests r
      → IsFaithful responses (handle r)
      → hasty from_value io_text requests responses cli.timeout_ms cli.command ≡ none
      → request_for host parsers requests cli.command ≡ ok r
      → execute from_value io_text requests responses host parsers (daemon handle) cli
        ≡ served (handle r) (is_interaction r)
  unfolding execute connected
  execute-served host parsers handle cli r fq fr patient made =
      let (version, _, (frame, encoded)) =
        request_for-IsAccepted host parsers requests cli.command r made in
      rw (patient, execute)
        (rw (made, execute)
          (execute_on_stream-served handle cli.timeout_ms r frame fq fr version encoded))
