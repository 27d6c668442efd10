-- ===== src/Auth/Domain/Accepted.antt =====
-- What the validation of authentication requests accepts
-- (portus-window/src/auth_session/domain.rs).
use portus_window.Base.{
  ◌≤◌, ◌≡◌, refl, ap, ◌⊎◌, inl, inr, true, false, ◌||◌, Option, none, some, [], ◌∷◌, arith, Text,
  text, len, contains, to_ascii_lower, Bool-cases, Result-cases, ltb, ltb→le, Result, ok, err,
  is_empty, is_whitespace, ends_with_char, bind-ok,
}
use portus_window.Protocol.Auth.{
  AuthSessionTarget, AuthSessionScope, BrowserKind, domain, window, request,
}
use portus_window.Auth.Domain.{
  max_auth_session_domain_chars, AuthDomainError, Host, domain_name, ipv4, ipv6,
  ValidatedAuthTarget, ValidatedAuthRequest, requested, is_youtube, youtube_bundle, bundled,
  is_misshapen, without_final_dot, check_canonical, check_host, validate_domain, validate_target,
  validate_window_session_id, validate_reason, check_optional_id, check_presentation,
  validate_action, all_char,
}

-- The cookies of one site: of the host itself, or of youtube.com for its five known hosts.
abbrev pub IsNarrow : ValidatedAuthTarget → Type 0
IsNarrow t =
    ((is_youtube t.requested_domain ≡ true) × (t.cookie_domains ≡ text "youtube.com" ∷ []))
    ⊎ ((is_youtube t.requested_domain ≡ false) × (t.cookie_domains ≡ t.requested_domain ∷ []))

abbrev pub IsHost : Text → ValidatedAuthTarget → Type 0
IsHost d t =
    (t.requested_domain ≡ to_ascii_lower d)
    × (len t.requested_domain ≤ max_auth_session_domain_chars)
    × (contains t.requested_domain (text ".") ≡ true)
    × IsNarrow t

bundled-IsNarrow :
    (c : Text)
    → ((bundled c (youtube_bundle c)).requested_domain ≡ c)
      × IsNarrow (bundled c (youtube_bundle c))
unfolding bundled youtube_bundle
bundled-IsNarrow c = elim (Bool-cases (is_youtube c)) [
  | inl known ↦ rw known (refl, inl (known, refl))
  | inr other ↦ rw other (refl, inr (other, refl))
]

check_canonical-ok :
    (c : Text) (t : ValidatedAuthTarget)
    → check_canonical c ≡ ok t
    → (t ≡ bundled c (youtube_bundle c))
      × (len c ≤ max_auth_session_domain_chars)
      × (contains c (text ".") ≡ true)
unfolding check_canonical
check_canonical-ok c t h = elim (Bool-cases (ltb max_auth_session_domain_chars (len c))) [
  | inl long ↦ absurd (refused (rw long at h))
  | inr short ↦ elim (Bool-cases (contains c (text "."))) [
    | inl dotted ↦ (accepted (rw (short, dotted) at h), ltb→le _ _ short, dotted)
    | inr single ↦ absurd (refused (rw (short, single) at h))
  ]
]
  where
    refused : {e : AuthDomainError} → err e ≡ ok t → ⊥
    refused q = cc

    accepted :
        {u : ValidatedAuthTarget}
        → ◌≡◌ {A = Result AuthDomainError ValidatedAuthTarget} (ok u) (ok t)
        → t ≡ u
    accepted q = cc

check_host-IsHost :
    (o : Option Host) (t : ValidatedAuthTarget)
    → check_host o ≡ ok t
    → (d : Text) × (o ≡ some (domain_name d)) × IsHost d t
unfolding check_host
check_host-IsHost none t h = absurd cc
check_host-IsHost (some ipv4) t h = absurd cc
check_host-IsHost (some ipv6) t h = absurd cc
check_host-IsHost (some (domain_name d)) t h =
    let c = to_ascii_lower d in
    let (e, short, dotted) = check_canonical-ok c t h in
    let (same, narrow) = bundled-IsNarrow c in
    (d, refl, rw e (same, rw same short, rw same dotted, narrow))

-- A domain is accepted only if it has no part of a URL around the host, and the host, without one
-- final dot, parses as a name; then the target is that name in lowercase ASCII, of at most 253
-- bytes and with a dot in it, with the cookies of that host alone, or of youtube.com for its five
-- known hosts.
pub validate_domain-IsHost :
    (parse_host : Text → Option Host) (input : Text) (t : ValidatedAuthTarget)
    → validate_domain parse_host input ≡ ok t
    → (is_misshapen input ≡ false)
      × ((d : Text) × (parse_host (without_final_dot input) ≡ some (domain_name d)) × IsHost d t)
unfolding validate_domain
validate_domain-IsHost parse_host input t h =
    elim (Bool-cases (is_empty input || all_char is_whitespace input)) [
      | inl blank ↦ absurd (refused (rw blank at h))
      | inr filled ↦ elim (Bool-cases (is_misshapen input)) [
        | inl bad ↦ absurd (refused (rw (filled, bad) at h))
        | inr good ↦
            elim (Bool-cases (
              is_empty (without_final_dot input)
              || ends_with_char (without_final_dot input) b'.')) [
                | inl dots ↦ absurd (refused (rw (filled, good, dots) at h))
                | inr host ↦ (good, check_host-IsHost _ t (rw (filled, good, host) at h))
              ]
      ]
    ]
  where
    refused : {e : AuthDomainError} → err e ≡ ok t → ⊥
    refused q = cc

-- A domain, or a window.
abbrev pub IsTargeted : Option ValidatedAuthTarget → Option Text → Option Text → Type 0
IsTargeted target id presentation =
    ((t : ValidatedAuthTarget) × (p : Text) × (target ≡ some t)
      × (id ≡ none)
      × (presentation ≡ some p)
      × (validate_window_session_id p ≡ ok tt))
    ⊎ ((w : Text) × (target ≡ none)
        × (id ≡ some w)
        × (presentation ≡ none)
        × (validate_window_session_id w ≡ ok tt))

validate_target-cases :
    (parse_host : Text → Option Host) (target : AuthSessionTarget)
    → ((t : ValidatedAuthTarget) × (validate_target parse_host target ≡ ok (some t, none)))
      ⊎ (((w : Text) × (validate_target parse_host target ≡ ok (none, some w))
            × (validate_window_session_id w ≡ ok tt))
          ⊎ ((e : AuthDomainError) × (validate_target parse_host target ≡ err e)))
unfolding validate_target
validate_target-cases parse_host (domain d) = elim (Result-cases (validate_domain parse_host d)) [
  | inl (t, e) ↦ inl (t, rw e refl)
  | inr (x, e) ↦ inr (inr (x, rw e refl))
]
validate_target-cases parse_host (window w) = elim (Result-cases (validate_window_session_id w)) [
  | inl (u, e) ↦ inr (inl (w, rw e refl, e))
  | inr (x, e) ↦ inr (inr (x, rw e refl))
]

-- The last part of a request's validation.
presented :
    (t : Option ValidatedAuthTarget) (w presentation : Option Text)
    → check_optional_id presentation ≡ ok tt
    → check_presentation t w presentation ≡ ok tt
    → ((u : ValidatedAuthTarget) × (t ≡ some u) × (w ≡ none))
      ⊎ ((v : Text) × (t ≡ none) × (w ≡ some v) × (validate_window_session_id v ≡ ok tt))
    → IsTargeted t w presentation
unfolding check_optional_id check_presentation
presented t w none i p (inl (u, a, b)) = absurd (ground arith)
presented t w (some q) i p (inl (u, a, b)) = inl (u, q, a, b, refl, i)
presented t w none i p (inr (v, a, b, c)) = inr (v, a, b, refl, c)
presented t w (some q) i p (inr (v, a, b, c)) = absurd (ground arith)

-- A request is accepted only for a domain with a window to show its consent in, or for a window
-- that shows it itself, the identities of these windows being well formed.
pub validate_action-IsTargeted :
    (parse_host : Text → Option Host) (target : AuthSessionTarget) (browser : BrowserKind)
    (scope : AuthSessionScope) (reason presentation : Option Text) (v : ValidatedAuthRequest)
    → validate_action parse_host (request target browser scope reason presentation) ≡ ok v
    → (t : Option ValidatedAuthTarget) × (w : Option Text) × (r : Option Text) × (v
        ≡ requested t w browser scope r presentation)
      × IsTargeted t w presentation
unfolding validate_action
validate_action-IsTargeted parse_host target browser scope reason presentation v h =
    let (p, e1, h1) = bind-ok (validate_target parse_host target) _ v h in
    let (r, e2, h2) = bind-ok (validate_reason reason) _ v h1 in
    let (u, e3, h3) = bind-ok (check_optional_id presentation) _ v h2 in
    let (w, e4, h4) = bind-ok (check_presentation p.0 p.1 presentation) _ v h3 in
    (p.0, p.1, r, same h4, presented p.0 p.1 presentation e3 e4 (pair p e1))
  where
    same :
        {x y : ValidatedAuthRequest}
        → ◌≡◌ {A = Result AuthDomainError ValidatedAuthRequest} (ok x) (ok y)
        → y ≡ x
    same q = cc

    pair :
        (p : Option ValidatedAuthTarget × Option Text)
        → validate_target parse_host target ≡ ok p
        → ((u : ValidatedAuthTarget) × (p.0 ≡ some u) × (p.1 ≡ none))
          ⊎ ((x : Text) × (p.0 ≡ none) × (p.1 ≡ some x) × (validate_window_session_id x ≡ ok tt))
    pair p e = elim (validate_target-cases parse_host target) [
      | inl (u, q) ↦ let s : p ≡ (some u, none) = cc in inl (u, ap (λ z. z.0) s, ap (λ z. z.1) s)
      | inr (inl (x, q, k)) ↦
          let s : p ≡ (none, some x) = cc in inr (x, ap (λ z. z.0) s, ap (λ z. z.1) s, k)
      | inr (inr (x, q)) ↦ absurd cc
    ]
