-- ===== src/Cli/Validate/Agreed.antt =====
-- The host accepts what the command line accepts (portus-window-cli/src/validation.rs).
use portus_window.Base.{
  ◌++◌, decimal, parse_u32, ℕ, ◌≡◌, refl, Bool-cases, text_eq, text, to_ascii_lower, sym, Bool,
  true, false, Option, none, some, arith, Text, trim, trim_idem, ok, bind-ok, ok_injective, inl,
  inr, split_once,
}
use portus_window.Protocol.Limits.{max_retention_days}
use portus_window.Protocol.Windows.{ConfigAction, MediaAction}
use portus_window.Window.Validate.{validate_media_action}
use portus_window.Database.Config.{
  validate_config_action, is_bad_days, validate_history_query, trim_query,
}
use portus_window.Cli.Args.{MediaCommands}
use portus_window.Cli.Validate.{
  ok_or, config_action_for, setting, enabled_setting, days_setting, check_days, history_query_for,
  check_query, media_action_for,
}

pub media_action_for-ok :
    (m : MediaCommands) (a : MediaAction)
    → media_action_for m ≡ ok a
    → validate_media_action a ≡ ok tt
unfolding media_action_for validate_media_action
media_action_for-ok MediaCommands.play a h = rw (sym (ok_injective h)) refl
media_action_for-ok MediaCommands.pause a h = rw (sym (ok_injective h)) refl
media_action_for-ok (MediaCommands.seek s) a h = ground arith
media_action_for-ok (MediaCommands.set_volume l) a h = ground arith

check_days-ok :
    (days : ℕ) (a : ConfigAction) → check_days days ≡ ok a → validate_config_action a ≡ ok tt
unfolding check_days validate_config_action is_bad_days
check_days-ok days a h = ground arith

enabled_setting-ok :
    (value : Text) (a : ConfigAction)
    → enabled_setting value ≡ ok a
    → validate_config_action a ≡ ok tt
unfolding enabled_setting validate_config_action
enabled_setting-ok value a h = ground arith

days_setting-ok :
    (value : Text) (a : ConfigAction) → days_setting value ≡ ok a → validate_config_action a ≡ ok tt
unfolding days_setting
days_setting-ok value a h = elim (Bool-cases (text_eq (to_ascii_lower value) (text "null"))) [
  | inl null ↦ unfold validate_config_action in rw (sym (ok_injective (rw null at h))) refl
  | inr given ↦
      let (days, _, q) =
        bind-ok {A = ℕ}
          (ok_or
            (text "retention_days must be null or an integer between 1 and "
              ++ decimal max_retention_days)
            (parse_u32 value))
          check_days a (rw given at h) in
      check_days-ok days a q
]

setting-ok :
    (key value : Text) (a : ConfigAction)
    → setting key value ≡ ok a
    → validate_config_action a ≡ ok tt
unfolding setting
setting-ok key value a h = ground (arith, enabled_setting-ok value a, days_setting-ok value a)

pub config_action_for-ok :
    (b : Bool) (s : Option Text) (a : ConfigAction)
    → config_action_for b s ≡ ok a
    → validate_config_action a ≡ ok tt
unfolding config_action_for validate_config_action
config_action_for-ok true none a h = rw (sym (ok_injective h)) refl
config_action_for-ok true (some s) a h = absurd cc
config_action_for-ok false none a h = absurd cc
config_action_for-ok false (some s) a h =
    let (p, _, q) =
      bind-ok {A = Text × Text} (ok_or (text "config --set requires KEY=VALUE") (split_once b'=' s))
        (λ x. setting (trim x.0) (trim x.1)) a h in
    setting-ok (trim p.0) (trim p.1) a q

check_query-ok :
    (t : Text) (r : Option Text)
    → trim t ≡ t
    → check_query t ≡ ok r
    → validate_history_query r ≡ ok r
unfolding check_query validate_history_query trim_query
check_query-ok t none same h = ground arith
check_query-ok t (some q) same h = ground arith

pub history_query_for-ok :
    (q r : Option Text) → history_query_for q ≡ ok r → validate_history_query r ≡ ok r
unfolding history_query_for validate_history_query
history_query_for-ok none r h = rw (sym (ok_injective h)) refl
history_query_for-ok (some q) r h = check_query-ok (trim q) r (trim_idem q) h
