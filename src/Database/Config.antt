-- ===== src/Database/Config.antt =====
-- The table `config` and what the service checks first (portus-window/src/database.rs).
pub mod Loading
use portus_window.Base.{
  ℕ, ◌≤◌, Bool, true, false, Option, none, some, ◌++◌, if◌then◌else◌, ◌||◌, ltb, length, trim,
  is_empty, decimal, parse_u32, Text, text, text_eq, Result, ok, err, ◌>>=◌,
}
use portus_window.Base.OrdMap.{OrdMap, get, insert, contains_key, text_key}
use portus_window.Protocol.Limits.{max_retention_days, max_history_query_chars}
use portus_window.Protocol.Windows.{ConfigAction, show, set_history_enabled, set_retention_days}
use portus_window.Protocol.History.{Configuration}
use portus_window.Database.Rows.{PersistenceError, validation, storage, Stored}

-- The table `config`, by its key.
abbrev pub Settings : Type 0
Settings = OrdMap Text Text

abbrev pub enabled_key : Text
enabled_key = text "history_enabled"

abbrev pub days_key : Text
days_key = text "retention_days"

abbrev default_retention_days : ℕ
default_retention_days = 15

unfoldable pub trim_query : Text → Stored (Option Text)
trim_query query =
    if is_empty query
    then err (validation (text "history query must not be blank"))
    else if ltb max_history_query_chars (length query)
    then err (
        validation (
          text "history query must be at most "
          ++ (decimal max_history_query_chars ++ text " characters")))
    else ok (some query)

unfoldable pub validate_history_query : Option Text → Stored (Option Text)
unfolding trim_query
validate_history_query none = ok none
validate_history_query (some query) = trim_query (trim query)

unfoldable pub is_bad_days : ℕ → Bool
is_bad_days days = ltb days 1 || ltb max_retention_days days

unfoldable pub validate_config_action : ConfigAction → Stored Unit
unfolding is_bad_days
validate_config_action (set_retention_days (some days)) =
    if is_bad_days days
    then err (
        validation
          (text "retention_days must be null or between 1 and " ++ decimal max_retention_days))
    else ok tt
validate_config_action (set_retention_days none) = ok tt
validate_config_action show = ok tt
validate_config_action (set_history_enabled enabled) = ok tt

-- `INSERT OR IGNORE`
unfoldable pub insert_or_ignore : Text → Text → Settings → Settings
insert_or_ignore key value s = if contains_key key s then s else insert key value s

unfoldable pub initialize_config : Settings → Settings
unfolding insert_or_ignore
initialize_config s =
    insert_or_ignore days_key (decimal default_retention_days)
      (insert_or_ignore enabled_key (text "true") s)

unfoldable pub config_value : Text → Settings → Stored Text
config_value key s = elim (get key s) [
  | none ↦ err (storage (text "Query returned no rows"))
  | some value ↦ ok value
]

unfoldable parse_enabled : Text → Stored Bool
parse_enabled value =
    if text_eq value (text "true")
    then ok true
    else if text_eq value (text "false")
    then ok false
    else err (storage (text "stored history_enabled value is invalid"))

unfoldable check_days : Option ℕ → Stored (Option ℕ)
unfolding is_bad_days
check_days none = err (storage (text "stored retention_days value is invalid"))
check_days (some days) =
    if is_bad_days days
    then err (storage (text "stored retention_days value is outside the supported range"))
    else ok (some days)

unfoldable parse_days : Text → Stored (Option ℕ)
unfolding check_days
parse_days value = if text_eq value (text "null") then ok none else check_days (parse_u32 value)

unfoldable pub load_config : Settings → Stored Configuration
unfolding config_value parse_enabled parse_days
load_config s = config_value enabled_key s >>= λ enabled. config_value days_key s >>= λ days.
    parse_enabled enabled >>= λ e.
    parse_days days >>= λ d. ok (record { history_enabled = e; retention_days = d })

-- What `set_config_value` is given for a configuration.
unfoldable pub enabled_text : Bool → Text
enabled_text true = text "true"
enabled_text false = text "false"

unfoldable pub days_text : Option ℕ → Text
days_text none = text "null"
days_text (some days) = decimal days
