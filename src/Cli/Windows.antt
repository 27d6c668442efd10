-- ===== src/Cli/Windows.antt =====
-- The commands that place and name windows (portus-window-cli/src/request.rs).
use portus_window.Base.{
  ℕ, Bool, true, false, not, ◌||◌, Option, none, some, ◌++◌, if◌then◌else◌, ltb, length, is_some,
  decimal, Text, text, ok, err, ◌>>=◌,
}
use portus_window.Base.Int.{ℤ}
use portus_window.Protocol.Limits.{protocol_version, max_description_chars}
use portus_window.Protocol.Windows.{
  WindowStateAction, maximize, minimize, restore, fullscreen, WorkspaceTarget, WindowGeometrySpec,
}
use portus_window.Protocol.Requests
use portus_window.Protocol.Requests.{Request, ping_request}
use portus_window.Cli.Args.{StateFlags}
use portus_window.Cli.Validate.{Parsed, workspace_target_for}

unfoldable pub state_for : StateFlags → Option WindowStateAction
state_for flags =
    if flags.maximize
    then some maximize
    else if flags.minimize
    then some minimize
    else if flags.restore
    then some restore
    else if flags.fullscreen
    then some fullscreen
    else none

unfoldable pub workspace_for : Option Text → Parsed (Option WorkspaceTarget)
workspace_for none = ok none
workspace_for (some value) = workspace_target_for value >>= λ target. ok (some target)

-- A command names one window, or says `--all`.
unfoldable pub check_chosen : Text → Option Text → Bool → Parsed (Unit {0})
check_chosen message none true = ok tt
check_chosen message none false = err message
check_chosen message (some target) true = err message
check_chosen message (some target) false = ok tt

unfoldable pub is_given :
    Option ℕ
    → Option ℕ
    → Option ℤ
    → Option ℤ
    → Option WindowStateAction
    → Option Bool
    → Option Text
    → Bool
is_given width height x y state on_top workspace =
    is_some width
    || (is_some height
        || (is_some x || (is_some y || (is_some state || (is_some on_top || is_some workspace)))))

unfoldable pub geometry_for :
    Option ℕ
    → Option ℕ
    → Option ℤ
    → Option ℤ
    → StateFlags
    → Option Bool
    → Option Text
    → Parsed (Option WindowGeometrySpec)
unfolding state_for workspace_for is_given
geometry_for width height x y flags on_top workspace =
    let state = state_for flags in
    let given = workspace_for workspace >>= λ target. ok (
      some (record {
        width = width;
        height = height;
        x = x;
        y = y;
        state = state;
        always_on_top = on_top;
        workspace = target;
      })) in
    if is_given width height x y state on_top workspace then given else ok none

unfoldable pub check_tag : Option Text → Text → Bool → Parsed Request
check_tag target description all =
    if ltb max_description_chars (length description)
    then err (
        text "tag description must be at most "
        ++ (decimal max_description_chars ++ text " characters"))
    else ok (Requests.tag protocol_version target description all)

-- With `--all`, the only argument is the description.
unfoldable pub tag_request : Option Text → Option Text → Bool → Parsed Request
unfolding check_tag
tag_request target (some description) true = err (text "tag with --all accepts only description")
tag_request none none true = err (text "tag requires a description")
tag_request (some description) none true = check_tag none description true
tag_request none description false = err (text "tag requires target or --all")
tag_request (some target) none false = err (text "tag requires a description")
tag_request (some target) (some description) false = check_tag (some target) description false

unfoldable pub resize_request :
    Option Text
    → Option ℕ
    → Option ℕ
    → Option ℤ
    → Option ℤ
    → StateFlags
    → Option Bool
    → Option Text
    → Bool
    → Parsed Request
unfolding check_chosen state_for workspace_for is_given
resize_request target width height x y flags on_top workspace all =
    let state = state_for flags in
    let parsed = workspace_for workspace >>= λ place.
    ok (Requests.resize protocol_version target width height x y state on_top place all) in
    check_chosen (text "resize requires either target or --all") target all >>= λ t.
    if not (is_given width height x y state on_top workspace)
    then err (text "resize requires at least one operation")
    else parsed
