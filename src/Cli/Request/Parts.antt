-- ===== src/Cli/Request/Parts.antt =====
-- The requests of single commands pass the host's checks (portus-window-cli/src/request.rs).
use portus_window.Base.{
  ℕ, ◌≡◌, refl, sym, Bool, true, false, not, ◌&&◌, Option, none, some, List, arith, Text, text,
  length, is_some, ok, err, ◌>>=◌, ok_injective, ◌||◌, if◌then◌else◌, ltb, ltb→le, is_empty,
}
use portus_window.Base.Int.{ℤ}
use portus_window.Base.Float.{le_zero, exceeds_600}
use portus_window.Protocol.Limits.{
  protocol_version, max_description_chars, min_interaction_timeout_ms, max_interaction_timeout_ms,
  max_open_batch_windows,
}
use portus_window.Protocol.Windows.{WindowSpec}
use portus_window.Protocol.Requests
use portus_window.Protocol.Requests.{Request, request_version}
use portus_window.Cli.Args.{StateFlags}
use portus_window.Cli.Paths.{PathBuf, Surroundings, absolute_utf8_path}
use portus_window.Cli.Validate.{history_query_for}
use portus_window.Cli.Actions.{interaction_actions_for}
use portus_window.Cli.Validate.Agreed.{history_query_for-ok}
use portus_window.Cli.Actions.Agreed.{interaction_actions_for-ok}
use portus_window.Cli.Request.{
  Parsers, check_batch, history_request, screenshot_request, record_request, interact_request,
  screenshot_for, has_media,
}
use portus_window.Cli.Windows.{
  check_tag, tag_request, resize_request, is_given, state_for, workspace_for,
}
use portus_window.Cli.Request.Good.{IsChosen, AllGood, then_do, then_ok, refused_if, chosen}

pub history_request-AllGood :
    (query : Option Text) (clear : Bool) → AllGood (history_request query clear)
unfolding history_request request_version
history_request-AllGood query clear = refused_if (clear && is_some query) _ _ λ apart.
    then_ok (history_query_for query) (λ q. Requests.history protocol_version q clear)
      λ q e. (refl, (history_query_for-ok query q e, still query q e apart))
  where
    still :
        (query q : Option Text)
        → history_query_for query ≡ ok q
        → clear && is_some query ≡ false
        → clear && is_some q ≡ false
    still none q e apart = unfold history_query_for in rw (sym (ok_injective e)) apart
    still (some t) none e apart = ground arith
    still (some t) (some u) e apart = apart

pub screenshot_request-AllGood :
    (host : Surroundings) (target : Option Text) (out : Option PathBuf) (overwrite all : Bool)
    → AllGood (screenshot_request host target out overwrite all)
unfolding screenshot_request request_version
screenshot_request-AllGood host target none overwrite all =
    chosen (text "screenshot requires either target or --all") target all (λ t. err _) (λ c. tt)
screenshot_request-AllGood host target (some out) overwrite all =
    chosen (text "screenshot requires either target or --all") target all
      (λ t. absolute_utf8_path host out (text "screenshot output") >>= λ path.
        ok (Requests.screenshot protocol_version target path overwrite all))
      (λ c.
        then_ok (absolute_utf8_path host out (text "screenshot output"))
          (λ path. Requests.screenshot protocol_version target path overwrite all)
          (λ path e. (refl, c)))

pub record_request-AllGood :
    (host : Surroundings) (target : Text) (out : PathBuf) (duration : ℕ) (overwrite : Bool)
    → AllGood (record_request host target out duration overwrite)
unfolding record_request request_version
record_request-AllGood host target out duration overwrite =
    refused_if (le_zero duration || exceeds_600 duration) _ _ λ q.
      then_ok (absolute_utf8_path host out (text "record output"))
        (λ path. Requests.record_video protocol_version target path duration overwrite)
        (λ path e. (refl, tt))

pub interact_request-AllGood :
    (host : Surroundings) (parsers : Parsers) (target : Text) (actions : List Text) (timeout_ms : ℕ)
    (out : Option PathBuf) (overwrite : Bool)
    → AllGood (interact_request host parsers target actions timeout_ms out overwrite)
unfolding interact_request request_version
interact_request-AllGood host parsers target actions timeout_ms out overwrite =
    refused_if
      (ltb timeout_ms min_interaction_timeout_ms || ltb max_interaction_timeout_ms timeout_ms) _ _
      λ within.
        then_do (screenshot_for host out overwrite)
          (λ shot. interaction_actions_for parsers.action actions >>= λ parsed.
            ok (Requests.interact protocol_version target parsed timeout_ms shot))
          λ shot e.
            then_ok (interaction_actions_for parsers.action actions)
              (λ parsed. Requests.interact protocol_version target parsed timeout_ms shot)
              λ parsed d. (
                refl,
                interaction_actions_for-ok parsers.action actions parsed timeout_ms d (ground arith)
                    (ground arith),
              )

check_tag-AllGood :
    (target : Option Text) (description : Text) (all : Bool)
    → IsChosen target all
    → AllGood (check_tag target description all)
unfolding check_tag request_version
check_tag-AllGood target description all c =
    refused_if (ltb max_description_chars (length description)) _ _
      λ short. (refl, (c, ltb→le max_description_chars (length description) short))

pub tag_request-AllGood :
    (target description : Option Text) (all : Bool) → AllGood (tag_request target description all)
unfolding tag_request
tag_request-AllGood target (some description) true = tt
tag_request-AllGood none none true = tt
tag_request-AllGood (some target) none true = check_tag-AllGood none target true refl
tag_request-AllGood none description false = tt
tag_request-AllGood (some target) none false = tt
tag_request-AllGood (some target) (some description) false =
    check_tag-AllGood (some target) description false refl

pub resize_request-AllGood :
    (target : Option Text) (width height : Option ℕ) (x y : Option ℤ) (flags : StateFlags)
    (on_top : Option Bool) (workspace : Option Text) (all : Bool)
    → AllGood (resize_request target width height x y flags on_top workspace all)
unfolding resize_request request_version
resize_request-AllGood target width height x y flags on_top workspace all =
    chosen (text "resize requires either target or --all") target all
      (λ t.
        if not (is_given width height x y (state_for flags) on_top workspace)
        then err _
        else (workspace_for workspace >>= λ place. ok (
            Requests.resize protocol_version target width height x y (state_for flags) on_top place
              all)))
      λ c.
        refused_if (not (is_given width height x y (state_for flags) on_top workspace)) _ _ λ given.
          then_ok (workspace_for workspace)
            (λ place.
              Requests.resize protocol_version target width height x y (state_for flags) on_top
                place all)
            (λ place e. (refl, c))

pub check_batch-AllGood : (windows : List WindowSpec) → AllGood (check_batch windows)
unfolding check_batch request_version
check_batch-AllGood windows = refused_if (is_empty windows) _ _ λ a.
    refused_if (ltb max_open_batch_windows (length windows)) _ _
      λ b. refused_if (has_media windows) _ _ (λ c. (refl, tt))
