-- ===== src/Cli/Main.antt =====
-- What the process leaves (portus-window-cli/src/main.rs and `render_response` of
-- portus-window-cli/src/lib.rs).
use portus_window.Base.{
  ◌≡◌, refl, ap, some_injective, Option-cases, inl, inr, ℕ, Option, none, some, List, [], ◌∷◌, ◌++◌,
  Text, text, decimal, Result, ok, err,
}
use portus_window.Protocol.Limits.{protocol_version}
use portus_window.Protocol.Responses
use portus_window.Protocol.Responses.{Response}
use portus_window.Cli.Args.{Commands}
use portus_window.Cli.Paths.{PathBuf}
use portus_window.Cli.Transport.{CliOutcome}

-- The lines on both outputs, the file that is written, and the exit code.
pub record Left : Type 0 where
  pub stdout : List Text
  pub stderr : List Text
  pub file : Option (PathBuf × Text)
  pub exit_code : ℕ

unfoldable export_out : Commands → Option PathBuf
export_out (Commands.export out) = out
export_out _ = none

-- `unwrap_or_default` of a formatted value.
abbrev or_empty : Result Text Text → Text
or_empty (ok formatted) = formatted
or_empty (err e) = []

-- serde_json's two formats, and the file system's answer to a write.
module _ {V : Type 0} (to_string : Response V → Result Text Text)
    (to_string_pretty : V → Result Text Text) (write : PathBuf → Text → Option Text) where
  unfoldable render_response : Response V → Text
  render_response response = elim (to_string response) [
    | ok rendered ↦ rendered
    | err e ↦
        text "{\"status\":\"error\",\"version\":"
        ++ (decimal protocol_version
            ++ text
                ",\"error\":{\"code\":\"internal\",\"message\":\"failed to serialize response\"}}")
  ]

  unfoldable printed : Option (PathBuf × Text) → CliOutcome V → Left
  unfolding render_response
  printed file outcome = record {
    stdout = render_response outcome.response ∷ [];
    stderr = [];
    file = file;
    exit_code = outcome.exit_code;
  }

  unfoldable export_to : PathBuf → Text → CliOutcome V → Left
  unfolding printed
  export_to path formatted outcome = elim (write path formatted) [
    | none ↦ printed (some (path, formatted)) outcome
    | some e ↦ record {
      stdout = [];
      stderr = (text "error writing export to " ++ (path ++ (text ": " ++ e))) ∷ [];
      file = none;
      exit_code = 1;
    }
  ]

  unfoldable exported : Option PathBuf → CliOutcome V → Response V → Left
  unfolding printed export_to
  exported (some path) outcome (Responses.ok version value) =
      export_to path (or_empty (to_string_pretty value)) outcome
  exported (some path) outcome (Responses.error version error) = printed none outcome
  exported none outcome response = printed none outcome

  -- From the outcome of a command, as `main` goes on.
  unfoldable finish : Commands → CliOutcome V → Left
  unfolding export_out exported
  finish command outcome = exported (export_out command) outcome outcome.response

  export_to-file :
      (p path : PathBuf) (formatted t : Text) (outcome : CliOutcome V)
      → (export_to p formatted outcome).file ≡ some (path, t)
      → (p ≡ path) × ((export_to p formatted outcome).exit_code ≡ outcome.exit_code)
  unfolding export_to printed
  export_to-file p path formatted t outcome h = elim (Option-cases (write p formatted)) [
    | inl e ↦
        let q = rw (e, export_to) at h in
        (ap (λ (x : PathBuf × Text). x.0) (some_injective q), rw (e, export_to) refl)
    | inr (_, e) ↦ absurd (no_file (rw (e, export_to) at h))
  ]
    where
      no_file : ◌≡◌ {A = Option (PathBuf × Text)} none (some (path, t)) → ⊥
      no_file q = cc

  exported-file :
      (out : Option PathBuf) (outcome : CliOutcome V) (response : Response V) (path : PathBuf)
      (t : Text)
      → (exported out outcome response).file ≡ some (path, t)
      → (out ≡ some path) × ((exported out outcome response).exit_code ≡ outcome.exit_code)
  unfolding exported printed
  exported-file (some p) outcome (Responses.ok version value) path t h =
      let (same, code) = export_to-file p path (or_empty (to_string_pretty value)) t outcome h in
      (ap some same, code)
  exported-file (some p) outcome (Responses.error version error) path t h = absurd cc
  exported-file none outcome response path t h = absurd cc

  -- A file is written only for `export` with a path, and then the exit code is the outcome's.
  finish-file :
      (command : Commands) (outcome : CliOutcome V) (path : PathBuf) (t : Text)
      → (finish command outcome).file ≡ some (path, t)
      → (export_out command ≡ some path) × ((finish command outcome).exit_code ≡ outcome.exit_code)
  unfolding finish
  finish-file command outcome path t h =
      exported-file (export_out command) outcome outcome.response path t h
