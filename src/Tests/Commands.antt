-- ===== src/Tests/Commands.antt =====
-- The command line's client (portus-window-cli/src).
use portus_window.Base.{
  split_once, text_eq, to_ascii_lower, parse_u32, trim, is_whitespace, ℕ, ◌≡◌, ◌↔◌, refl, false,
  none, some, [], ◌∷◌, ◌++◌, Text, text, Result, ok, err,
}
use portus_window.Protocol.Limits.{protocol_version}
use portus_window.Protocol.Windows.{set_retention_days}
use portus_window.Protocol.Interaction.{InteractionAction, InteractionResult}
use portus_window.Protocol.Requests
use portus_window.Protocol.Requests.{Request, request_version, ping_request}
use portus_window.Protocol.Responses.{success}
use portus_window.Protocol.Frame.{Bytes, Json, encode_frame}
use portus_window.Ipc.Reading.{closed, IoError, read_frame}
use portus_window.Interaction.Validate.{validate_action}
use portus_window.Cli.Args.{Commands}
use portus_window.Cli.Paths.{Surroundings}
use portus_window.Cli.Validate.{config_action_for}
use portus_window.Cli.Actions.{interaction_actions_for, validate_interaction_action_cli}
use portus_window.Cli.Actions.Agreed.{validate_interaction_action_cli-validate_action}
use portus_window.Cli.Request.{Parsers, request_for}
use portus_window.Cli.Request.Accepted.{request_for-IsAccepted}
use portus_window.Cli.Request.Good.{IsAccepted}
use portus_window.Cli.Transport.{Cli, execute, receive_frame}
use portus_window.Cli.Transport.Outcomes.{as_client, receive_frame-read_frame}
use portus_window.Cli.Transport.Served.{daemon, served, execute-served}
use portus_window.Tests.Frames.{
  requests, responses, requests-IsFaithful, responses-IsFaithful, numbered,
}

abbrev host : Surroundings
host = record {
  current_dir = ok (text "/home");
  read_to_string = λ path. err (text "no file");
  stdin = ok [];
}

abbrev parsers : Parsers
parsers = record {
  windows = λ t. err (text "no windows");
  spec = λ t. err (text "no specification");
  action = λ t. ok (InteractionAction.click t);
}

-- Every request in three bytes.
abbrev brief : Json Request
brief = record { to_vec = λ r. ok (text "{}!"); from_slice = λ b. err (text "none") }

abbrev command : Commands
command = Commands.interact (text "a") (text "#b" ∷ text "#c" ∷ []) 4000 none false

abbrev interaction : Request
interaction =
    Requests.interact 7 (text "a")
      (InteractionAction.click (text "#b") ∷ InteractionAction.click (text "#c") ∷ []) 4000 none

request_for-IsAccepted_example :
    (request_version interaction ≡ protocol_version)
    × IsAccepted interaction
    × ((frame : Bytes) × (encode_frame brief interaction ≡ ok frame))
unfolding request_for interaction_actions_for trim is_whitespace encode_frame
request_for-IsAccepted_example = request_for-IsAccepted host parsers brief command interaction refl

abbrev from_value : ℕ → Result Text InteractionResult
from_value n = err (text "no result")

abbrev io_text : IoError → Text
io_text e = text "broken"

abbrev cli : Cli
cli = record { socket = text "/tmp/s"; timeout_ms = 5000; command = Commands.ping }

execute-served_example :
    execute from_value io_text requests responses host parsers
      (daemon from_value io_text requests responses (numbered 2))
      cli
    ≡ served from_value io_text requests responses (success 2) false
unfolding request_for encode_frame execute
execute-served_example =
    execute-served from_value io_text requests responses host parsers (numbered 2) cli ping_request
      (requests-IsFaithful ping_request) (responses-IsFaithful (success 2)) refl refl

receive_frame-read_frame_example :
    receive_frame (text "ab" ++ 10 ∷ text "c") closed
    ≡ as_client (read_frame (text "ab" ++ 10 ∷ text "c") closed)
receive_frame-read_frame_example = receive_frame-read_frame (text "ab" ++ 10 ∷ text "c") closed

validate_interaction_action_cli-validate_action_example :
    (validate_interaction_action_cli (InteractionAction.click (text " ")) ≡ ok tt)
    ↔ (validate_action (InteractionAction.click (text " ")) ≡ ok tt)
validate_interaction_action_cli-validate_action_example =
    validate_interaction_action_cli-validate_action (InteractionAction.click (text " "))

setting_run :
    config_action_for false (some (text " retention_days = 30")) ≡ ok (set_retention_days (some 30))
unfolding config_action_for split_once trim is_whitespace text_eq to_ascii_lower parse_u32
setting_run = refl
