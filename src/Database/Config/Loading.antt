-- ===== src/Database/Config/Loading.antt =====
-- The configuration that is stored is read back (portus-window/src/database.rs).
use mathlib.Core.Path.{subst}
use portus_window.Base.{
  ℕ, ◌≤◌, ◌<◌, ◌^◌, ◌≡◌, ◌≢◌, refl, ◌∙◌, sym, ap, Bool, true, false, Option, none, some, arith, ok,
  ◌>>=◌, bind-ok, ok_injective, Text, text, text_eq, text_eq-false, decimal, parse_u32,
  parse_u32-decimal, parse_below, read_digits, in_range,
}
use portus_window.Base.OrdMap.{insert, text_key}
use portus_window.Base.OrdMap.Laws.{get-insert_same, get-insert_other}
use portus_window.Protocol.Limits.{max_retention_days}
use portus_window.Protocol.History.{Configuration}
use portus_window.Database.Config.{
  Settings, enabled_key, days_key, config_value, parse_enabled, parse_days, check_days, is_bad_days,
  load_config, enabled_text, days_text,
}

abbrev pub IsRetention : Option ℕ → Type 0
IsRetention none = Unit
IsRetention (some days) = (1 ≤ days) × (days ≤ max_retention_days)

-- The table `config` holds the configuration.
pub record IsStored (settings : Settings) (config : Configuration) : Type 0 where
  pub enabled : (config_value enabled_key settings >>= parse_enabled) ≡ ok config.history_enabled
  pub days : (config_value days_key settings >>= parse_days) ≡ ok config.retention_days
  pub allowed : IsRetention config.retention_days

parse_enabled-enabled_text : (b : Bool) → parse_enabled (enabled_text b) ≡ ok b
unfolding parse_enabled enabled_text text_eq
parse_enabled-enabled_text true = refl
parse_enabled-enabled_text false = refl

decimal-ne-null : (d : ℕ) → d < 2 ^ 32 → decimal d ≢ text "null"
decimal-ne-null d h e = absurd (clash (sym (parse_u32-decimal d h) ∙ ap parse_u32 e ∙ null))
  where
    null : parse_u32 (text "null") ≡ none
    null = unfold parse_u32 parse_below read_digits in_range in refl

    clash : some d ≡ none → ⊥
    clash q = cc

parse_days-days_text : (days : Option ℕ) → IsRetention days → parse_days (days_text days) ≡ ok days
unfolding parse_days days_text check_days is_bad_days
parse_days-days_text none h = unfold text_eq in refl
parse_days-days_text (some d) h =
    rw
      (
        text_eq-false (decimal d) (text "null") (decimal-ne-null d (omega arith)),
        parse_u32-decimal d (omega arith),
      )
      (ground arith)

parse_days-IsRetention :
    (value : Text) (days : Option ℕ) → parse_days value ≡ ok days → IsRetention days
unfolding parse_days check_days is_bad_days
parse_days-IsRetention value none h = tt
parse_days-IsRetention value (some d) h = ground arith

-- A configuration is loaded exactly if the table holds it.
pub load_config-IsStored :
    (s : Settings) (config : Configuration) → load_config s ≡ ok config → IsStored s config
unfolding load_config
load_config-IsStored s config h =
    let (enabled, e1, h1) = bind-ok (config_value enabled_key s) _ _ h in
    let (days, e2, h2) = bind-ok (config_value days_key s) _ _ h1 in
    let (b, e3, h3) = bind-ok (parse_enabled enabled) _ _ h2 in
    let (d, e4, h4) = bind-ok (parse_days days) _ _ h3 in
    let q = ok_injective h4 in
    record {
      enabled = rw e1 (e3 ∙ ap (λ (c : Configuration). ok c.history_enabled) q);
      days = rw e2 (e4 ∙ ap (λ (c : Configuration). ok c.retention_days) q);
      allowed =
          subst (λ (c : Configuration). IsRetention c.retention_days) q
            (parse_days-IsRetention days d e4);
    }

pub IsStored-load_config :
    (s : Settings) (config : Configuration) → IsStored s config → load_config s ≡ ok config
unfolding load_config
IsStored-load_config s config h =
    let (enabled, e1, h1) = bind-ok (config_value enabled_key s) _ _ h.enabled in
    let (days, e2, h2) = bind-ok (config_value days_key s) _ _ h.days in
    rw (e1, ◌>>=◌) (rw (e2, ◌>>=◌) (rw (h1, ◌>>=◌) (rw (h2, ◌>>=◌) refl)))

config_value-insert_same :
    (key value : Text) (s : Settings) → config_value key (insert key value s) ≡ ok value
unfolding config_value
config_value-insert_same key value s = rw (get-insert_same key value s, config_value) refl

config_value-insert_other :
    (key other value : Text) (s : Settings)
    → text_eq key other ≡ false
    → config_value other (insert key value s) ≡ config_value other s
unfolding config_value
config_value-insert_other key other value s h =
    rw (get-insert_other key other value s h, config_value) refl

pub IsStored-enabled :
    (b : Bool) (settings : Settings) (config : Configuration)
    → IsStored settings config
    → IsStored
        (insert enabled_key (enabled_text b) settings)
        (record config { history_enabled = b })
IsStored-enabled b settings config h = record {
  enabled =
      rw (config_value-insert_same enabled_key (enabled_text b) settings)
        (parse_enabled-enabled_text b);
  days =
      rw
        (config_value-insert_other enabled_key days_key (enabled_text b) settings
          (unfold text_eq in refl))
        h.days;
  allowed = h.allowed;
}

pub IsStored-days :
    (days : Option ℕ) (settings : Settings) (config : Configuration)
    → IsRetention days
    → IsStored settings config
    → IsStored (insert days_key (days_text days) settings) (record config { retention_days = days })
IsStored-days days settings config allowed h = record {
  enabled =
      rw
        (config_value-insert_other days_key enabled_key (days_text days) settings
          (unfold text_eq in refl))
        h.enabled;
  days =
      rw (config_value-insert_same days_key (days_text days) settings)
        (parse_days-days_text days allowed);
  allowed = allowed;
}
