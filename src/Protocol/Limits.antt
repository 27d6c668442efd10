-- ===== src/Protocol/Limits.antt =====
-- The limits of the protocol (portus-window-protocol/src/lib.rs).
use portus_window.Base.{ℕ, ◌*◌}

abbrev pub protocol_version : ℕ
protocol_version = 7

abbrev pub max_frame_bytes : ℕ
max_frame_bytes = 64 * 1024

abbrev pub max_description_chars : ℕ
max_description_chars = 256

abbrev pub max_title_chars : ℕ
max_title_chars = 1024

abbrev pub max_url_chars : ℕ
max_url_chars = 4096

abbrev pub max_console_entries : ℕ
max_console_entries = 50

abbrev pub max_console_message_chars : ℕ
max_console_message_chars = 4096

abbrev pub max_console_source_chars : ℕ
max_console_source_chars = 1024

abbrev pub max_load_error_chars : ℕ
max_load_error_chars = 1024

abbrev pub max_url_history_entries : ℕ
max_url_history_entries = 128

abbrev pub max_url_history_bytes : ℕ
max_url_history_bytes = 32 * 1024

abbrev pub min_interaction_timeout_ms : ℕ
min_interaction_timeout_ms = 100

abbrev pub max_interaction_timeout_ms : ℕ
max_interaction_timeout_ms = 60000

abbrev pub max_interaction_actions : ℕ
max_interaction_actions = 32

abbrev pub max_interaction_selector_chars : ℕ
max_interaction_selector_chars = 512

abbrev pub max_interaction_value_chars : ℕ
max_interaction_value_chars = 4096

abbrev pub max_interaction_text_chars : ℕ
max_interaction_text_chars = 1024

abbrev pub max_interaction_key_chars : ℕ
max_interaction_key_chars = 64

abbrev pub max_history_query_chars : ℕ
max_history_query_chars = 512

abbrev pub max_retention_days : ℕ
max_retention_days = 3650

abbrev pub max_workspace_history_entries : ℕ
max_workspace_history_entries = 128

abbrev pub max_history_result_bytes : ℕ
max_history_result_bytes = 48 * 1024

abbrev pub max_source_bytes : ℕ
max_source_bytes = 4096

abbrev pub max_profile_name_chars : ℕ
max_profile_name_chars = 64

abbrev pub max_open_batch_windows : ℕ
max_open_batch_windows = 32
