-- ===== src/Cli/Request/Accepted.antt =====
-- Requests that the command line makes pass the host's own checks
-- (portus-window-cli/src/request.rs).
use mathlib.Core.Path.{subst}
use portus_window.Base.{
  ◌≡◌, refl, arith, text, ok, ◌>>=◌, bind-ok, ok_injective, Result-cases, inl, inr,
}
use portus_window.Protocol.Limits.{protocol_version}
use portus_window.Protocol.Requests
use portus_window.Protocol.Requests.{Request, request_version}
use portus_window.Protocol.Frame.{Bytes, Json, encode_frame}
use portus_window.Cli.Args.{Commands}
use portus_window.Cli.Paths.{Surroundings}
use portus_window.Cli.Validate.{
  Parsed, config_action_for, media_action_for, classify_open_source, validate_optional_profile,
}
use portus_window.Cli.Validate.Agreed.{media_action_for-ok, config_action_for-ok}
use portus_window.Cli.Request.{
  Parsers, check_batch, read_input, map_error, unchecked, fitting, request_for,
}
use portus_window.Cli.Windows.{geometry_for}
use portus_window.Cli.Sessions.{auth_session_action_for}
use portus_window.Cli.Request.Good.{IsAccepted, IsGood, AllGood, then_do, then_ok, chosen}
use portus_window.Cli.Request.Parts.{
  history_request-AllGood, screenshot_request-AllGood, record_request-AllGood,
  interact_request-AllGood, tag_request-AllGood, resize_request-AllGood, check_batch-AllGood,
}

module _ (host : Surroundings) (parsers : Parsers) (requests : Json Request) where
  unchecked-AllGood : (command : Commands) → AllGood (unchecked host parsers requests command)
  unfolding unchecked request_version
  unchecked-AllGood Commands.ping = (refl, tt)
  unchecked-AllGood (Commands.open_batch file) =
      then_do
        (read_input host file (text "failed to read open-batch manifest: ")
          (text "failed to read open-batch manifest from STDIN: "))
        (λ manifest.
          map_error (text "invalid open-batch JSON manifest: ") (parsers.windows manifest)
          >>= check_batch)
        λ manifest e.
          then_do (map_error (text "invalid open-batch JSON manifest: ") (parsers.windows manifest))
            check_batch (λ windows d. check_batch-AllGood windows)
  unchecked-AllGood
        (Commands.open_source source description profile wait width height x y flags on_top space) =
      then_do (geometry_for width height x y flags on_top space)
        (λ geometry. classify_open_source host source >>= λ opened.
          validate_optional_profile profile >>= λ name.
          ok (Requests.open_source protocol_version opened description name geometry))
        λ geometry e.
          then_do (classify_open_source host source)
            (λ opened. validate_optional_profile profile >>= λ name.
              ok (Requests.open_source protocol_version opened description name geometry))
            λ opened d.
              then_ok (validate_optional_profile profile)
                (λ name. Requests.open_source protocol_version opened description name geometry)
                (λ name c. (refl, tt))
  unchecked-AllGood (Commands.apply file prune) =
      then_do
        (read_input host file (text "failed to read workspace file: ")
          (text "failed to read from STDIN: "))
        (λ json. map_error (text "invalid workspace spec JSON: ") (parsers.spec json) >>= λ spec.
          ok (Requests.apply protocol_version spec prune))
        λ json e.
          then_ok (map_error (text "invalid workspace spec JSON: ") (parsers.spec json))
            (λ spec. Requests.apply protocol_version spec prune) (λ spec d. (refl, tt))
  unchecked-AllGood (Commands.export out) = (refl, tt)
  unchecked-AllGood Commands.list = (refl, tt)
  unchecked-AllGood (Commands.history query clear) = history_request-AllGood query clear
  unchecked-AllGood (Commands.config show set) =
      then_ok (config_action_for show set) (Requests.config protocol_version)
        (λ action e. (refl, config_action_for-ok show set action e))
  unchecked-AllGood (Commands.auth_session action) =
      then_ok (auth_session_action_for action) (Requests.auth_session protocol_version)
        (λ a e. (refl, tt))
  unchecked-AllGood Commands.workspaces = (refl, tt)
  unchecked-AllGood (Commands.status target) = (refl, tt)
  unchecked-AllGood (Commands.console target all) =
      chosen (text "console requires either target or --all") target all
        (λ t. ok (Requests.console protocol_version target all)) (λ c. (refl, c))
  unchecked-AllGood (Commands.screenshot target out overwrite all) =
      screenshot_request-AllGood host target out overwrite all
  unchecked-AllGood (Commands.record_video target out duration overwrite) =
      record_request-AllGood host target out duration overwrite
  unchecked-AllGood (Commands.media target action all) =
      chosen (text "media requires either target or --all") target all
        (λ t. media_action_for action >>= λ a. ok (Requests.media protocol_version target a all))
        λ c.
          then_ok (media_action_for action) (λ a. Requests.media protocol_version target a all)
            (λ a e. (refl, (c, media_action_for-ok action a e)))
  unchecked-AllGood (Commands.interact target actions timeout_ms out overwrite) =
      interact_request-AllGood host parsers target actions timeout_ms out overwrite
  unchecked-AllGood (Commands.tag target description all) =
      tag_request-AllGood target description all
  unchecked-AllGood (Commands.focus target) = (refl, tt)
  unchecked-AllGood (Commands.resize target width height x y flags on_top space all) =
      resize_request-AllGood target width height x y flags on_top space all
  unchecked-AllGood (Commands.close target all) =
      chosen (text "close requires exactly one target or --all") target all
        (λ t. ok (Requests.close protocol_version target all)) (λ c. (refl, c))

  fitting-ok :
      (r s : Request)
      → fitting host parsers requests r ≡ ok s
      → (r ≡ s) × ((frame : Bytes) × (encode_frame requests r ≡ ok frame))
  unfolding fitting
  fitting-ok r s h = elim (Result-cases (encode_frame requests r)) [
    | inl (frame, e) ↦ (ok_injective (rw (e, fitting) at h), (frame, e))
    | inr (e, failed) ↦ absurd (ground arith)
  ]

  good : (m : Parsed Request) (r : Request) → m ≡ ok r → AllGood m → IsGood r
  good m r h all = subst AllGood h all

  -- A request that the command line makes is of the host's protocol version, fits a frame, and
  -- passes what the host checks of it: the actions and the time of an interaction, a change of the
  -- configuration, the query of the history, the values of a media action, the length of a tag; and
  -- a command on windows names one of them or asks for all, not both.
  pub request_for-IsAccepted :
      (command : Commands) (r : Request)
      → request_for host parsers requests command ≡ ok r
      → (request_version r ≡ protocol_version)
        × IsAccepted r
        × ((frame : Bytes) × (encode_frame requests r ≡ ok frame))
  unfolding request_for
  request_for-IsAccepted command r h =
      let (s, e, q) =
        bind-ok (unchecked host parsers requests command) (fitting host parsers requests) r h in
      let (same, fits) = fitting-ok s r q in
      let (version, accepted) = good _ s e (unchecked-AllGood command) in
      subst
        (λ x.
          (request_version x ≡ protocol_version)
          × IsAccepted x
          × ((frame : Bytes) × (encode_frame requests x ≡ ok frame)))
        same (version, accepted, fits)
