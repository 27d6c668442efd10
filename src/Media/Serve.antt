-- ===== src/Media/Serve.antt =====
-- The responses to requests for one admitted file (portus-window/src/media.rs). Of a response the
-- model keeps the status, the headers whose values vary and the body; each response also says
-- no-store and nosniff. The pages' HTML, a constant text per kind, is a parameter.
pub mod Contents
use portus_window.Base.{
  ℕ, ◌+◌, ◌-◌, ◌*◌, ◌%◌, ◌^◌, Bool, true, false, not, ◌&&◌, ◌||◌, Option, none, some, is_some, List,
  [], ◌∷◌, ◌++◌, if◌then◌else◌, ltb, leb, length, take, drop, Text, text, decimal, Result, ok, err,
}
use Prim.Native.Nat.{min}
use portus_window.Protocol.Frame.{Bytes}
use portus_window.Protocol.Windows.{ContentKind}
use portus_window.Media.Ranges.{max_media_response_bytes, parse_range, cap_range}

pub record AdmittedMediaInfo : Type 0 where
  pub token : Text
  pub requested_source : Text
  pub content_kind : ContentKind
  pub mime : Text
  pub title : Text
  pub bytes : ℕ

-- The open file, as the bytes that it holds when it is read.
pub record AdmittedMedia : Type 0 where
  pub window_session_id : Text
  pub info : AdmittedMediaInfo
  pub file : Bytes

pub data Method : Type 0 where
  get head other : Method

pub record MediaRequest : Type 0 where
  pub method : Method
  pub range : Option Text

pub record MediaResponse : Type 0 where
  pub status : ℕ
  pub content_type : Option Text
  pub content_length : Option ℕ
  pub content_range : Option Text
  pub body : Bytes

abbrev pub plain_response : ℕ → Bytes → MediaResponse
plain_response status body = record {
  status = status;
  content_type = some (text "text/plain; charset=utf-8");
  content_length = none;
  content_range = none;
  body = body;
}

abbrev pub range_not_satisfiable : ℕ → MediaResponse
range_not_satisfiable total = record {
  status = 416;
  content_type = none;
  content_length = none;
  content_range = some (text "bytes */" ++ decimal total);
  body = [];
}

-- Seek and `read_exact`: an error if the file ends first. The text of the error is the system's.
unfoldable pub read_range : Text → Bytes → ℕ → ℕ → Result Text Bytes
read_range failed file start n =
    let body = take n (drop start file) in
    if ltb (length body) n then err (text "could not read admitted media: " ++ failed) else ok body

unfoldable pub is_image : ContentKind → Bool
is_image ContentKind.image = true
is_image _ = false

-- The whole of an image, and the first 8 MiB of anything else. On u64 `total - 1` wraps at 0.
unfoldable pub whole : ContentKind → ℕ → ℕ × ℕ
unfolding is_image
whole kind total =
    if is_image kind
    then (0, (total + (2 ^ 64 - 1)) % 2 ^ 64)
    else (0, min (total - 1) (max_media_response_bytes - 1))

unfoldable pub select : Option Text → ContentKind → ℕ → Option (ℕ × ℕ)
unfolding whole
select none kind total = some (whole kind total)
select (some value) kind total = parse_range value total

unfoldable pub is_get : Method → Bool
is_get get = true
is_get _ = false

unfoldable pub is_head : Method → Bool
is_head head = true
is_head _ = false

-- The response with the bytes of a range.
unfoldable pub content_response : AdmittedMedia → Bool → ℕ × ℕ → Bytes → MediaResponse
content_response m partial (start, end) body = record {
  status = if partial then 206 else 200;
  content_type = some m.info.mime;
  content_length = some (end - start + 1);
  content_range =
      if partial
      then some (
          text "bytes "
          ++ (decimal start ++ (text "-" ++ (decimal end ++ (text "/" ++ decimal m.info.bytes)))))
      else none;
  body = body;
}

-- The bytes of a range that is no longer than one response may be. The error of the system, if a
-- read fails, is `failed`.
unfoldable pub serve_capped : Text → AdmittedMedia → MediaRequest → ℕ × ℕ → MediaResponse
unfolding read_range content_response is_head
serve_capped failed m request (start, end) =
    let partial = is_some request.range || ltb (end + 1) m.info.bytes in
    if is_head request.method
    then content_response m partial (start, end) []
    else elim (read_range failed m.file start (end - start + 1)) [
      | err message ↦ plain_response 500 message
      | ok body ↦ content_response m partial (start, end) body
    ]

unfoldable pub serve_range : Text → AdmittedMedia → MediaRequest → Option (ℕ × ℕ) → MediaResponse
unfolding serve_capped
serve_range failed m request none = range_not_satisfiable m.info.bytes
serve_range failed m request (some (start, end)) =
    serve_capped failed m request (cap_range start end)

unfoldable pub serve_content : Text → AdmittedMedia → MediaRequest → MediaResponse
unfolding select serve_range is_get is_head
serve_content failed m request =
    if not (is_get request.method) && not (is_head request.method)
    then plain_response 405 (text "method not allowed")
    else serve_range failed m request (select request.range m.info.content_kind m.info.bytes)

unfoldable pub serve_view : (ContentKind → Bytes) → AdmittedMedia → Method → MediaResponse
unfolding is_get is_head
serve_view html m method =
    let page = html m.info.content_kind in
    if not (is_get method) && not (is_head method)
    then plain_response 405 (text "method not allowed")
    else record {
      status = 200;
      content_type = some (text "text/html; charset=utf-8");
      content_length = some (length page);
      content_range = none;
      body = if is_head method then [] else page;
    }
