-- ===== src/Database/Service/Passed.antt =====
-- What reaches the thread (portus-window/src/database/service.rs).
use portus_window.Base.{ℕ, ◌≡◌, refl, Option, some, List, Text, ok}
use portus_window.Protocol.Windows.{ActiveWindow, ConfigAction}
use portus_window.Protocol.Frame.{Json}
use portus_window.Protocol.History.{HistoricalWindow}
use portus_window.Database.Rows.{Codecs, Faults, Timestamp}
use portus_window.Database.Config.{validate_history_query, validate_config_action}
use portus_window.Database.Worker.{DbWorker, configured, act, apply_config}
use portus_window.Database.History.{history}
use portus_window.Database.Commands.{react}
use portus_window.Database.Service.{call, service_history, service_config}

module _ (c : Codecs) (lower : Text → Text) (json : Json HistoricalWindow) (uuids : ℕ → Text)
    (now : Timestamp) (faults : Faults) where
  -- A query that the checks leave as it is, is the one that the thread answers, and leaves it as it
  -- is.
  service_history-history :
      (query : Option Text) (w : DbWorker)
      → validate_history_query query ≡ ok query
      → service_history c lower json uuids now faults query (some w)
        ≡ (history c lower json faults query w, some w)
  unfolding service_history call react
  service_history-history query w valid = rw (valid, service_history) refl

  -- A change of the configuration that is not valid does not reach the thread; one that is, is made
  -- as the thread would make it.
  service_config-act :
      (action : ConfigAction) (windows : List ActiveWindow) (w : DbWorker)
      → validate_config_action action ≡ ok tt
      → service_config c lower json uuids now faults action windows (some w)
        ≡ (let r = configured (act c faults uuids now action windows w) in (r.0, some r.1))
  unfolding service_config call react apply_config
  service_config-act action windows w valid =
      rw (valid, service_config) (rw (valid, apply_config) refl)
