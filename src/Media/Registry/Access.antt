-- ===== src/Media/Registry/Access.antt =====
-- Who sees which file (portus-window/src/media.rs).
use mathlib.Core.Path.{subst}
use portus_window.Base.{
  ◌≡◌, ◌∙◌, refl, sym, ◌⊎◌, inl, inr, Option, none, some, List, [], ◌∷◌, Text, text, text_eq,
  text_eq-eq, text_eq_refl, Bool-cases, Option-cases,
}
use portus_window.Base.OrdMap.{text_key, get}
use portus_window.Base.OrdMap.Laws.{get-remove}
use portus_window.Protocol.Frame.{Bytes}
use portus_window.Protocol.Windows.{ContentKind}
use portus_window.Media.Serve.{AdmittedMedia, MediaRequest, MediaResponse, plain_response}
use portus_window.Media.Registry.{
  MediaRegistry, Change, admits, revokes, change, change_all, revoke_window, not_found, parse_parts,
  split_char, trim_start_char, route_to, serve_admitted, serve_parts, handle_protocol,
}
use portus_window.Media.Registry.Tokens.{IsPaired, admit-IsPaired, revoke_window-IsPaired}

abbrev pub no_media : MediaRegistry
no_media = record { by_token = []; by_window = [] }

no_media-IsPaired : IsPaired no_media
unfolding get
no_media-IsPaired = record { owner = λ w t h. absurd cc; token = λ t m h. absurd cc }

change-IsPaired : (r : MediaRegistry) (c : Change) → IsPaired r → IsPaired (change r c)
unfolding change
change-IsPaired r (admits w info file drawn) v = admit-IsPaired r w info file drawn v
change-IsPaired r (revokes w) v = revoke_window-IsPaired r w v

change_all-from : (r : MediaRegistry) (cs : List Change) → IsPaired r → IsPaired (change_all r cs)
unfolding change_all
change_all-from r [] v = v
change_all-from r (c ∷ cs) v = change_all-from (change r c) cs (change-IsPaired r c v)

-- Whatever files are admitted and windows closed, in any order, each window has at most one token
-- and each token belongs to one window: the two maps are inverse to each other.
pub change_all-IsPaired : (cs : List Change) → IsPaired (change_all no_media cs)
change_all-IsPaired cs = change_all-from no_media cs no_media-IsPaired

-- The file that a window is shown.
abbrev IsShown :
    (ContentKind → Bytes) → Text → MediaRegistry → Text → MediaRequest → MediaResponse → Type 0
IsShown html failed r label request response =
    (token : Text) × (route : Text) × (m : AdmittedMedia) × (get label r.by_window ≡ some token)
    × (get token r.by_token ≡ some m)
    × (response ≡ route_to html failed m route request)

none-some : {t : Text} → ◌≡◌ {A = Option Text} none (some t) → ⊥
none-some e = cc

get-revoked :
    (r : MediaRegistry) (label : Text) → get label (revoke_window r label).1.by_window ≡ none
unfolding revoke_window
get-revoked r label = elim (Option-cases (get label r.by_window)) [
  | inl e ↦ rw (e, revoke_window) e
  | inr (token, e) ↦
      rw (e, revoke_window) (get-remove label label r.by_window ∙ rw (text_eq_refl label) refl)
]

module _ (html : ContentKind → Bytes) (failed : Text) where
  -- What a request may be answered with.
  abbrev IsGuarded : MediaRegistry → Text → MediaRequest → MediaResponse → Type 0
  IsGuarded r label request response =
      (response ≡ not_found)
      ⊎ ((response ≡ plain_response 403 (text "forbidden"))
          ⊎ IsShown html failed r label request response)

  serve_admitted-IsGuarded :
      (r : MediaRegistry) (label token route : Text) (request : MediaRequest)
      (o : Option AdmittedMedia)
      → get token r.by_token ≡ o
      → IsPaired r
      → IsGuarded r label request (serve_admitted html failed label o route request)
  unfolding serve_admitted
  serve_admitted-IsGuarded r label token route request none e v = inl refl
  serve_admitted-IsGuarded r label token route request (some m) e v =
      elim (Bool-cases (text_eq m.window_session_id label)) [
        | inl own ↦
            let here = text_eq-eq m.window_session_id label own in
            rw own (
              inr (
                inr (
                  token,
                  route,
                  m,
                  subst (λ w. get w r.by_window ≡ some token) here (v.token token m e).0,
                  e,
                  refl,
                )))
        | inr foreign ↦ rw foreign (inr (inl refl))
      ]

  serve_parts-IsGuarded :
      (r : MediaRegistry) (label : Text) (request : MediaRequest) (o : Option (Text × Text))
      → IsPaired r
      → IsGuarded r label request (serve_parts html failed r label o request)
  unfolding serve_parts
  serve_parts-IsGuarded r label request none v = inl refl
  serve_parts-IsGuarded r label request (some (token, route)) v =
      serve_admitted-IsGuarded r label token route request (get token r.by_token) refl v

  -- Where tokens and windows are paired, the custom scheme shows a web view nothing but the one file
  -- that has been admitted for its own window, whatever path it asks for: anything else is not found
  -- or forbidden.
  handle_protocol-IsShown :
      (r : MediaRegistry) (label path : Text) (request : MediaRequest)
      → IsPaired r
      → let response = handle_protocol html failed r label path request in
        (response ≡ not_found)
        ⊎ ((response ≡ plain_response 403 (text "forbidden"))
            ⊎ IsShown html failed r label request response)
  unfolding handle_protocol
  handle_protocol-IsShown r label path request v =
      serve_parts-IsGuarded r label request
        (parse_parts (split_char b'/' (trim_start_char b'/' path))) v

  -- Where tokens and windows are paired, the custom scheme shows a window that has been closed nothing
  -- any more: what it asks for is not found or forbidden.
  pub revoke_window-refuses :
      (r : MediaRegistry) (label path : Text) (request : MediaRequest)
      → IsPaired r
      → let response = handle_protocol html failed (revoke_window r label).1 label path request in
        (response ≡ not_found) ⊎ (response ≡ plain_response 403 (text "forbidden"))
  revoke_window-refuses r label path request v =
      elim (handle_protocol-IsShown (revoke_window r label).1 label path request
        (revoke_window-IsPaired r label v)) [
          | inl e ↦ inl e
          | inr (inl e) ↦ inr e
          | inr (inr (token, route, m, at_label, at_token, e)) ↦
              absurd (none-some (sym (get-revoked r label) ∙ at_label))
        ]
