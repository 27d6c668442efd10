-- ===== src/Media/Registry.antt =====
-- Which window may see which file (`MediaAuthority`, portus-window/src/media.rs): the registry of
-- tokens, and the requests that web views make by them. The hash maps are used by key alone.
pub mod Tokens
pub mod Access
use portus_window.Base.{
  ℕ, Bool, true, false, not, Option, none, some, is_some, List, [], ◌∷◌, if◌then◌else◌, ◌==◌, Text,
  text, text_eq, is_empty, Result, ok, err, ◌++◌,
}
use portus_window.Base.OrdMap.{OrdMap, text_key, get, contains_key, insert, remove}
use portus_window.Protocol.Frame.{Bytes}
use portus_window.Protocol.Windows.{ContentKind}
use portus_window.Media.Serve.{
  AdmittedMediaInfo, AdmittedMedia, MediaRequest, MediaResponse, plain_response, serve_view,
  serve_content,
}

pub data MediaAdmissionError : Type 0 where
  validation io : (message : Text) → MediaAdmissionError

pub record MediaRegistry : Type 0 where
  pub by_token : OrdMap Text AdmittedMedia
  pub by_window : OrdMap Text Text

-- The loop over the tokens that the uuid crate draws; `none` if those given are all taken.
unfoldable pub free_token : MediaRegistry → List Text → Option Text
free_token r [] = none
free_token r (candidate ∷ drawn) =
    let retry = free_token r drawn in
    if contains_key candidate r.by_token then retry else some candidate

-- The entry of a file under a token. The file's path has been resolved, opened and classified.
unfoldable pub enter :
    MediaRegistry → Text → AdmittedMediaInfo → Bytes → Text → AdmittedMediaInfo × MediaRegistry
enter r window_session_id info file token =
    let named = record info { token = token } in
    (
      named,
      record {
        by_token =
            insert token
              (record { window_session_id = window_session_id; info = named; file = file })
              r.by_token;
        by_window = insert window_session_id token r.by_window;
      },
    )

-- The end of `admit`, once the file has been checked. The answer is `none` while no token is free.
unfoldable pub admit :
    MediaRegistry
    → Text
    → AdmittedMediaInfo
    → Bytes
    → List Text
    → Result MediaAdmissionError (Option AdmittedMediaInfo) × MediaRegistry
unfolding free_token enter
admit r window_session_id info file drawn =
    if contains_key window_session_id r.by_window
    then (
      err (
          validation (
            text "window '"
            ++ (window_session_id ++ text "' already owns a local-media authorization"))),
      r,
    )
    else elim (free_token r drawn) [
      | none ↦ (ok none, r)
      | some token ↦ let e = enter r window_session_id info file token in (ok (some e.0), e.1)
    ]

unfoldable pub revoke_window : MediaRegistry → Text → Bool × MediaRegistry
revoke_window r window_session_id = elim (get window_session_id r.by_window) [
  | none ↦ (false, r)
  | some token ↦ (
    is_some (get token r.by_token),
    record { by_token = remove token r.by_token; by_window = remove window_session_id r.by_window },
  )
]

unfoldable pub contains_window : MediaRegistry → Text → Bool
contains_window r window_session_id = contains_key window_session_id r.by_window

-- The changes of the registry: a file that is admitted for a window, and a window that closes.
pub data Change : Type 0 where
  admits :
      (window_session_id : Text)
      → (info : AdmittedMediaInfo) → (file : Bytes) → (drawn : List Text) → Change
  revokes : (window_session_id : Text) → Change

unfoldable pub change : MediaRegistry → Change → MediaRegistry
unfolding admit revoke_window
change r (admits window_session_id info file drawn) = (admit r window_session_id info file drawn).1
change r (revokes window_session_id) = (revoke_window r window_session_id).1

unfoldable pub change_all : MediaRegistry → List Change → MediaRegistry
unfolding change
change_all r [] = r
change_all r (c ∷ cs) = change_all (change r c) cs

-- `trim_start_matches` and `split` with one character.
unfoldable pub trim_start_char : ℕ → Text → Text
trim_start_char d [] = []
trim_start_char d (c ∷ t) = let rest = trim_start_char d t in if c == d then rest else c ∷ t

abbrev pub push_char : ℕ → List Text → List Text
push_char c [] = (c ∷ []) ∷ []
push_char c (part ∷ parts) = (c ∷ part) ∷ parts

unfoldable pub split_char : ℕ → Text → List Text
split_char d [] = [] ∷ []
split_char d (c ∷ t) =
    let parts = split_char d t in if c == d then [] ∷ parts else push_char c parts

abbrev pub not_found : MediaResponse
not_found = plain_response 404 (text "not found")

-- A token and a route, and nothing else.
unfoldable pub parse_parts : List Text → Option (Text × Text)
parse_parts (token ∷ route ∷ []) = if is_empty token then none else some (token, route)
parse_parts _ = none

unfoldable pub route_to :
    (ContentKind → Bytes) → Text → AdmittedMedia → Text → MediaRequest → MediaResponse
route_to html failed m route request =
    if text_eq route (text "view")
    then serve_view html m request.method
    else if text_eq route (text "content")
    then serve_content failed m request
    else not_found

-- The routes of the file that a token stands for, to the window that it was admitted for.
unfoldable pub serve_admitted :
    (ContentKind → Bytes) → Text → Text → Option AdmittedMedia → Text → MediaRequest → MediaResponse
unfolding route_to
serve_admitted html failed label none route request = not_found
serve_admitted html failed label (some m) route request =
    if not (text_eq m.window_session_id label)
    then plain_response 403 (text "forbidden")
    else route_to html failed m route request

unfoldable pub serve_parts :
    (ContentKind → Bytes)
    → Text
    → MediaRegistry
    → Text
    → Option (Text × Text)
    → MediaRequest
    → MediaResponse
unfolding serve_admitted
serve_parts html failed r label none request = not_found
serve_parts html failed r label (some (token, route)) request =
    serve_admitted html failed label (get token r.by_token) route request

-- `html` is the page of each kind, `failed` the system's error if a read fails.
unfoldable pub handle_protocol :
    (ContentKind → Bytes) → Text → MediaRegistry → Text → Text → MediaRequest → MediaResponse
unfolding serve_parts parse_parts trim_start_char split_char
handle_protocol html failed r label path request =
    serve_parts html failed r label (parse_parts (split_char b'/' (trim_start_char b'/' path)))
      request
