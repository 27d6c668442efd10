-- ===== src/Media/Http/Capability.antt =====
-- What the loopback server gives out (portus-window/src/media.rs).
use portus_window.Base.{◌≡◌, ◌⊎◌, Bool, Option, none, some, List, ◌∷◌, Text}
use portus_window.Base.OrdMap.{text_key, get}
use portus_window.Protocol.Frame.{Bytes}
use portus_window.Protocol.Windows.{ContentKind}
use portus_window.Media.Serve.{AdmittedMedia, Method}
use portus_window.Media.Registry.{MediaRegistry}
use portus_window.Media.Http.{
  HttpResponse, http_not_allowed, http_not_found, method_of, token_and_route, read_headers,
  http_route,
}

module _ (html : ContentKind → Bytes) (failed : Text)
    (build : Text → Text → Option Text → Option (Option Text)) where
  -- The file of the token in the path, which its window still has, by the method that is asked.
  abbrev IsByToken : MediaRegistry → Method → Text → List Text → HttpResponse → Type 0
  IsByToken r method path lines h =
      (token : Text) × (route : Text) × (m : AdmittedMedia) × (range : Option Text)
      × (token_and_route path ≡ some (token, route))
      × (get token r.by_token ≡ some m)
      × (get m.window_session_id r.by_window ≡ some token)
      × (build token route (read_headers lines none) ≡ some range)
      × (h ≡ http_route html failed m route (record { method = method; range = range }))

  -- The answer to the words of a first line.
  abbrev pub IsGranted : MediaRegistry → List Text → List Text → Option HttpResponse → Type 0
  IsGranted r words lines answer =
      (answer ≡ none)
      ⊎ ((answer ≡ some http_not_allowed)
          ⊎ (((b : Bool) × (answer ≡ some (http_not_found b)))
              ⊎ ((word : Text) × (path : Text) × (rest : List Text) × (method : Method)
                  × (h : HttpResponse) × (words ≡ word ∷ path ∷ rest)
                  × (method_of word ≡ some method)
                  × IsByToken r method path lines h
                  × (answer ≡ some h))))
