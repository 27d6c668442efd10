-- ===== src/Cli/Transport.antt =====
-- The exchange with the host and what the command line makes of the answer
-- (portus-window-cli/src/transport.rs, as on Unix, and portus-window-cli/src/lib.rs).
pub mod Outcomes
pub mod Served
use portus_window.Base.{
  ℕ, Option, none, some, Bool, true, false, not, ◌&&◌, ◌||◌, List, [], ◌∷◌, ◌++◌, if◌then◌else◌,
  ◌==◌, ltb, leb, length, decimal, Text, text, Result, ok, err,
}
use portus_window.Protocol.Limits.{protocol_version, max_frame_bytes}
use portus_window.Protocol.Interaction.{
  InteractionResult, InteractionStepResult, InteractionStepCode,
}
use portus_window.Protocol.Requests
use portus_window.Protocol.Requests.{Request}
use portus_window.Protocol.Responses
use portus_window.Protocol.Responses.{
  Response, ErrorCode, validation_failed, daemon_unavailable, invalid_response, version_mismatch,
  frame_too_large, internal, failure, response_version, exit_code,
}
use portus_window.Protocol.Frame.{
  Bytes, Json, FrameError, too_large, invalid_json, encode_frame, decode_frame,
}
use portus_window.Ipc.Reading.{IoError, Ending, closed, broken, stalled}
use portus_window.Ipc.Connection.{frame_error_text}
use portus_window.Cli.Args.{Commands}
use portus_window.Cli.Paths.{Surroundings}
use portus_window.Cli.Request.{Parsers, request_for}

pub record Cli : Type 0 where
  pub socket : Text
  pub timeout_ms : ℕ
  pub command : Commands

pub record CliOutcome (V : Type 0) : Type 0 where
  pub response : Response V
  pub exit_code : ℕ

-- A call under `timeout`.
pub data Progress : Type 0 where
  done : Progress
  failed : (error : Text) → Progress
  elapsed : Progress

-- The other end: whether it is reached and takes what is written, and the bytes that it sends back
-- for that until the deadline, and what comes after them.
pub record Peer : Type 0 where
  pub connecting : Progress
  pub writing : Progress
  pub replying : Bytes → Bytes × Ending

-- Why there is no frame.
pub data ReplyError : Type 0 where
  no_response unterminated exceeded late : ReplyError
  io : (cause : IoError) → ReplyError

unfoldable no_more : Bytes → Ending → ReplyError
no_more [] closed = no_response
no_more (b ∷ frame) closed = unterminated
no_more frame (broken e) = io e
no_more frame stalled = late

-- The loop of the client's `read_frame`.
unfoldable receive_loop : Bytes → Bytes → Ending → Result ReplyError Bytes
unfolding no_more
receive_loop [] frame ending = err (no_more frame ending)
receive_loop (b ∷ rest) frame ending =
    let pushed = frame ++ b ∷ [] in
    let more = receive_loop rest pushed ending in
    if b == 10
    then ok pushed
    else if ltb max_frame_bytes (length pushed)
    then err exceeded
    else more

unfoldable pub receive_frame : Bytes → Ending → Result ReplyError Bytes
unfolding receive_loop
receive_frame bytes ending = receive_loop bytes [] ending

unfoldable is_timeout : InteractionStepCode → Bool
is_timeout InteractionStepCode.timeout = true
is_timeout _ = false

-- `any` over the steps.
unfoldable any_timed_out : List InteractionStepResult → Bool
unfolding is_timeout
any_timed_out [] = false
any_timed_out (step ∷ steps) = not step.ok && is_timeout step.code || any_timed_out steps

unfoldable is_interaction : Request → Bool
is_interaction (Requests.interact v target actions timeout_ms screenshot) = true
is_interaction _ = false

-- `io_text` is `Display` of an error of the system, `from_value` serde_json's.
module _ {V : Type 0} (from_value : V → Result Text InteractionResult)
    (io_text : IoError → Text) where
  -- `CliOutcome::from_response`
  unfoldable from_response : Response V → CliOutcome V
  from_response response = record { response = response; exit_code = exit_code response }

  abbrev pub fail : ErrorCode → Text → CliOutcome V
  unfolding from_response
  fail code message = from_response (failure code message)

  unfoldable interaction_outcome : Response V → V → CliOutcome V
  unfolding from_response any_timed_out
  interaction_outcome response value = elim (from_value value) [
    | err error ↦
        fail invalid_response (text "daemon returned invalid interaction result data: " ++ error)
    | ok result ↦ if result.completed then from_response response else record {
      response = response;
      exit_code = if any_timed_out result.actions then 5 else 6;
    }
  ]

  unfoldable checked_outcome : Response V → Bool → CliOutcome V
  unfolding from_response interaction_outcome
  checked_outcome (Responses.ok version value) true =
      interaction_outcome (Responses.ok version value) value
  checked_outcome (Responses.ok version value) false = from_response (Responses.ok version value)
  checked_outcome (Responses.error version error) interaction =
      from_response (Responses.error version error)

  unfoldable pub outcome_from_daemon_response_for : Response V → Bool → CliOutcome V
  unfolding checked_outcome
  outcome_from_daemon_response_for response interaction =
      if response_version response == protocol_version
      then checked_outcome response interaction
      else fail version_mismatch (
          text "daemon response uses protocol version "
          ++ (decimal (response_version response)
              ++ (text "; expected " ++ decimal protocol_version)))

  unfoldable reply_text : ReplyError → Text
  reply_text no_response = text "daemon closed the connection before sending a response"
  reply_text unterminated = text "daemon response was not newline terminated"
  reply_text exceeded = text "daemon response exceeded the protocol frame limit"
  reply_text (io e) = io_text e
  reply_text late = []

  after : ℕ → Text
  after timeout_ms = text " timed out after " ++ (decimal timeout_ms ++ text " ms")

  module _ (requests : Json Request) (responses : Json (Response V)) where
    -- From the frame that was read, or not.
    unfoldable received : ℕ → Bool → Result ReplyError Bytes → CliOutcome V
    unfolding outcome_from_daemon_response_for reply_text after
    received timeout_ms interaction (err late) =
        fail ErrorCode.timeout (text "daemon response" ++ after timeout_ms)
    received timeout_ms interaction (err e) =
        fail invalid_response (text "failed to read daemon response: " ++ reply_text e)
    received timeout_ms interaction (ok frame) = elim (decode_frame responses frame) [
      | ok response ↦ outcome_from_daemon_response_for response interaction
      | err e ↦
          fail invalid_response (text "daemon returned an invalid response: " ++ frame_error_text e)
    ]

    unfoldable written : Peer → ℕ → Bool → Bytes → Progress → CliOutcome V
    unfolding received receive_frame after
    written peer timeout_ms interaction payload done =
        let reply = peer.replying payload in
        received timeout_ms interaction (receive_frame reply.0 reply.1)
    written peer timeout_ms interaction payload (failed error) =
        fail daemon_unavailable (text "failed to send request: " ++ error)
    written peer timeout_ms interaction payload elapsed =
        fail ErrorCode.timeout (text "request write" ++ after timeout_ms)

    unfoldable execute_on_stream : Peer → ℕ → Request → CliOutcome V
    unfolding written is_interaction
    execute_on_stream peer timeout_ms request = elim (encode_frame requests request) [
      | ok payload ↦ written peer timeout_ms (is_interaction request) payload peer.writing
      | err (too_large actual maximum) ↦ fail frame_too_large (
          text "request is "
          ++ (decimal actual
              ++ (text " bytes; maximum protocol frame is " ++ (decimal maximum ++ text " bytes"))))
      | err (invalid_json message) ↦
          fail internal
            (text "failed to encode request: " ++ frame_error_text (invalid_json message))
    ]

    unfoldable connected : Peer → Cli → Request → Progress → CliOutcome V
    unfolding execute_on_stream after
    connected peer cli request done = execute_on_stream peer cli.timeout_ms request
    connected peer cli request (failed error) =
        fail daemon_unavailable
          (text "could not connect to daemon at '" ++ (cli.socket ++ (text "': " ++ error)))
    connected peer cli request elapsed =
        fail ErrorCode.timeout (text "connection" ++ after cli.timeout_ms)

    -- An interaction has to end before the command line stops waiting.
    unfoldable hasty : ℕ → Commands → Option Text
    hasty timeout_ms (Commands.interact target actions interaction_timeout_ms out overwrite) =
        if leb timeout_ms interaction_timeout_ms
        then some (
            text "global --timeout-ms ("
            ++ (decimal timeout_ms
                ++ (text ") must be greater than --interaction-timeout-ms ("
                    ++ (decimal interaction_timeout_ms ++ text ")"))))
        else none
    hasty timeout_ms _ = none

    unfoldable pub execute : Surroundings → Parsers → Peer → Cli → CliOutcome V
    unfolding hasty connected
    execute host parsers peer cli = elim (hasty cli.timeout_ms cli.command) [
      | some message ↦ fail validation_failed message
      | none ↦ elim (request_for host parsers requests cli.command) [
        | ok request ↦ connected peer cli request peer.connecting
        | err message ↦ fail validation_failed message
      ]
    ]
