-- ===== src/Database/Rows/Columns.antt =====
-- The columns of words read back what they were written from (portus-window/src/database.rs).
use portus_window.Base.{◌≡◌, refl, ok, text_eq}
use portus_window.Protocol.Windows.{SourceKind, ContentKind, CloseReason}
use portus_window.Database.Rows.{
  source_kind_str, parse_source_kind, content_kind_str, parse_content_kind, close_reason_str,
  parse_close_reason,
}

pub parse_source_kind-source_kind_str :
    (k : SourceKind) → parse_source_kind (source_kind_str k) ≡ ok k
unfolding parse_source_kind source_kind_str text_eq
parse_source_kind-source_kind_str SourceKind.web = refl
parse_source_kind-source_kind_str SourceKind.local_media = refl

pub parse_content_kind-content_kind_str :
    (k : ContentKind) → parse_content_kind (content_kind_str k) ≡ ok k
unfolding parse_content_kind content_kind_str text_eq
parse_content_kind-content_kind_str ContentKind.web = refl
parse_content_kind-content_kind_str ContentKind.image = refl
parse_content_kind-content_kind_str ContentKind.video = refl
parse_content_kind-content_kind_str ContentKind.audio = refl

pub parse_close_reason-close_reason_str :
    (k : CloseReason) → parse_close_reason (close_reason_str k) ≡ ok k
unfolding parse_close_reason close_reason_str text_eq
parse_close_reason-close_reason_str CloseReason.explicit = refl
parse_close_reason-close_reason_str CloseReason.destroyed = refl
parse_close_reason-close_reason_str CloseReason.abrupt_termination = refl
