-- ===== src/Cli/Request/Good.antt =====
-- What the host checks of a request, and chains that end in one that passes
-- (portus-window-cli/src/request.rs).
use portus_window.Base.{
  ◌≤◌, ◌≡◌, refl, Bool, true, false, not, ◌&&◌, Option, none, some, Text, length, is_some, ok, err,
  ◌>>=◌, if◌then◌else◌,
}
use portus_window.Protocol.Limits.{protocol_version, max_description_chars}
use portus_window.Protocol.Requests
use portus_window.Protocol.Requests.{Request, request_version}
use portus_window.Window.Validate.{validate_media_action}
use portus_window.Interaction.Validate.{validate_request}
use portus_window.Database.Config.{validate_config_action, validate_history_query}
use portus_window.Cli.Validate.{Parsed}
use portus_window.Cli.Windows.{check_chosen}

-- One window or all of them.
abbrev pub IsChosen : Option Text → Bool → Type 0
IsChosen target all = all ≡ not (is_some target)

-- What the host checks of a request before it acts.
abbrev pub IsAccepted : Request → Type 0
IsAccepted (Requests.history v query clear) =
    (validate_history_query query ≡ ok query) × (clear && is_some query ≡ false)
IsAccepted (Requests.config v action) = validate_config_action action ≡ ok tt
IsAccepted (Requests.console v target all) = IsChosen target all
IsAccepted (Requests.screenshot v target out overwrite all) = IsChosen target all
IsAccepted (Requests.media v target action all) =
    IsChosen target all × (validate_media_action action ≡ ok tt)
IsAccepted (Requests.interact v target actions timeout_ms screenshot) =
    validate_request actions timeout_ms ≡ ok tt
IsAccepted (Requests.tag v target description all) =
    IsChosen target all × (length description ≤ max_description_chars)
IsAccepted (Requests.resize v target width height x y state on_top workspace all) =
    IsChosen target all
IsAccepted (Requests.close v target all) = IsChosen target all
IsAccepted (Requests.ping v) = Unit
IsAccepted (Requests.open_batch v windows) = Unit
IsAccepted (Requests.open_source v source description profile geometry) = Unit
IsAccepted (Requests.apply v spec prune) = Unit
IsAccepted (Requests.export v) = Unit
IsAccepted (Requests.list v) = Unit
IsAccepted (Requests.workspaces v) = Unit
IsAccepted (Requests.status v target) = Unit
IsAccepted (Requests.record_video v target out duration_seconds overwrite) = Unit
IsAccepted (Requests.web_video v target action) = Unit
IsAccepted (Requests.auth_session v action) = Unit
IsAccepted (Requests.focus v target) = Unit

-- Of this version, and accepted.
abbrev pub IsGood : Request → Type 0
IsGood r = (request_version r ≡ protocol_version) × IsAccepted r

check_chosen-IsChosen :
    (message : Text) (target : Option Text) (all : Bool)
    → check_chosen message target all ≡ ok tt
    → IsChosen target all
unfolding check_chosen
check_chosen-IsChosen message none true h = refl
check_chosen-IsChosen message none false h = absurd cc
check_chosen-IsChosen message (some t) true h = absurd cc
check_chosen-IsChosen message (some t) false h = refl

abbrev pub AllGood : Parsed Request → Type 0
AllGood (ok r) = IsGood r
AllGood (err e) = Unit

pub then_do :
    {A : Type 0} (m : Parsed A) (f : A → Parsed Request)
    → ((a : A) → m ≡ ok a → AllGood (f a))
    → AllGood (m >>= f)
then_do (ok a) f each = each a refl
then_do (err e) f each = tt

pub then_ok :
    {A : Type 0} (m : Parsed A) (f : A → Request)
    → ((a : A) → m ≡ ok a → IsGood (f a))
    → AllGood (m >>= λ a. ok (f a))
then_ok m f each = then_do m (λ a. ok (f a)) each

pub refused_if :
    (b : Bool) (message : Text) (m : Parsed Request)
    → (b ≡ false → AllGood m)
    → AllGood (if b then err message else m)
refused_if true message m rest = tt
refused_if false message m rest = rest refl

pub chosen :
    (message : Text) (target : Option Text) (all : Bool) (rest : Unit {0} → Parsed Request)
    → (IsChosen target all → AllGood (rest tt))
    → AllGood (check_chosen message target all >>= rest)
chosen message target all rest each =
    then_do (check_chosen message target all) rest
      (λ t e. each (check_chosen-IsChosen message target all e))
