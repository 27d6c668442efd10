-- ===== src/Tests/Consent.antt =====
-- Authenticated sessions (portus-window/src/auth_session).
use portus_window.Base.{
  is_whitespace, text_eq, trim, contains, strip_suffix_char, ends_with_char, len, to_ascii_lower,
  utf8_len, strip_prefix, ◌≡◌, ◌≢◌, refl, true, false, Option, none, some, List, [], ◌∷◌, Text,
  text, err, All,
}
use portus_window.Base.OrdMap.{insert, get}
use portus_window.Protocol.Auth
use portus_window.Protocol.Auth.{
  AuthSessionAction, AuthSessionResult, request, status, apply, revoke, firefox, once, session,
  authorized, pending,
}
use portus_window.Auth.Domain.{
  all_char, Host, domain_name, ValidatedAuthTarget, exact_domain, validate_domain, validate_action,
  requested, is_misshapen, without_final_dot,
}
use portus_window.Auth.Domain.Accepted.{
  IsHost, IsTargeted, validate_domain-IsHost, validate_action-IsTargeted,
}
use portus_window.Auth.Authority.{Authority, dispatch_action}
use portus_window.Auth.Authority.Grants.{
  target_eq, domain_grant, grant_key, PendingAuthGrant, GrantRecord, grant_not_found, result,
}
use portus_window.Auth.Authority.Trusted.{
  Event, acts, authorizes, makes_available, makes_applied, closes, react_all,
  authorize_pending_exact,
}
use portus_window.Auth.Authority.Consistent.{IsHeld, react_all-IsHeld}
use portus_window.Auth.Authority.Consent.{
  IsAuthorized, dispatch_action-IsAuthorized, authorize_pending_exact-expected,
}
use portus_window.Auth.Authority.Answers.{
  IsUnauthorized, react_all-IsUnauthorized, dispatch_action-found,
}

-- A parser that takes every text for a name.
abbrev parse : Text → Option Host
parse t = some (domain_name t)

abbrev presenting : Text
presenting = text "wsess_00000000000000000000000000000000"

abbrev asks : AuthSessionAction
asks = request (Auth.domain (text "Example.COM.")) firefox once none (some presenting)

abbrev example : ValidatedAuthTarget
example = record {
  requested_domain = text "example.com";
  cookie_domains = text "example.com" ∷ [];
  bundle = exact_domain;
}

abbrev expected : PendingAuthGrant
expected = record {
  target = domain_grant (text "example.com");
  domain = text "example.com";
  window_session_id = some presenting;
  browser = firefox;
  scope = once;
  reason = none;
  cookie_domains = text "example.com" ∷ [];
  bundle = exact_domain;
}

abbrev waiting : Authority
waiting =
    (
      domain_grant (text "example.com"),
      record { grant = expected; decision = pending; available = false; applied = false },
    )
    ∷ []

abbrev granted : GrantRecord
granted = record { grant = expected; decision = authorized; available = false; applied = false }

abbrev allowed : Authority
allowed = (domain_grant (text "example.com"), granted) ∷ []

-- A client's request waits for the host.
dispatch_action_waits : (dispatch_action parse [] asks none).1 ≡ waiting
unfolding dispatch_action validate_action all_char is_whitespace text_eq trim contains
    strip_suffix_char ends_with_char len to_ascii_lower utf8_len strip_prefix get insert
dispatch_action_waits = refl

validate_domain-IsHost_example :
    (is_misshapen (text "Example.COM.") ≡ false)
    × ((d : Text) × (parse (without_final_dot (text "Example.COM.")) ≡ some (domain_name d))
        × IsHost d example)
unfolding validate_domain all_char is_whitespace text_eq trim contains strip_suffix_char
    ends_with_char len to_ascii_lower utf8_len
validate_domain-IsHost_example = validate_domain-IsHost parse (text "Example.COM.") example refl

validate_action-IsTargeted_example :
    (t : Option ValidatedAuthTarget) × (w : Option Text) × (r : Option Text) × (requested
        (some example)
        none
        firefox
        once
        none
        (some presenting)
      ≡ requested t w firefox once r (some presenting))
    × IsTargeted t w (some presenting)
unfolding validate_action all_char is_whitespace text_eq trim contains strip_suffix_char
    ends_with_char len to_ascii_lower utf8_len strip_prefix
validate_action-IsTargeted_example =
    validate_action-IsTargeted parse (Auth.domain (text "Example.COM.")) firefox once none
      (some presenting) (requested (some example) none firefox once none (some presenting)) refl

-- A client that revokes another grant leaves this one authorized.
dispatch_action-IsAuthorized_example :
    IsAuthorized allowed (domain_grant (text "example.com")) granted
unfolding dispatch_action get validate_action all_char is_whitespace text_eq trim contains
    strip_suffix_char ends_with_char len to_ascii_lower utf8_len target_eq
dispatch_action-IsAuthorized_example =
    dispatch_action-IsAuthorized parse allowed (revoke (Auth.domain (text "other.example"))) none
      (domain_grant (text "example.com")) granted (refl, refl)

abbrev answer : AuthSessionResult
answer = result granted

authorize_pending_exact-expected_example :
    (rec : GrantRecord) × (get (domain_grant (text "example.com")) waiting ≡ some rec)
    × (rec.decision ≡ pending)
    × (rec.grant ≡ expected)
    × IsAuthorized
        (authorize_pending_exact waiting (domain_grant (text "example.com")) expected).1
        (domain_grant (text "example.com"))
        (record rec { decision = authorized })
unfolding authorize_pending_exact get text_eq
authorize_pending_exact-expected_example =
    authorize_pending_exact-expected waiting (domain_grant (text "example.com")) expected answer
      refl

dispatch_action-found_example : (dispatch_action parse [] asks none).0 ≢ err grant_not_found
dispatch_action-found_example =
    dispatch_action-found parse [] (Auth.domain (text "Example.COM.")) firefox once none
      (some presenting) none

-- A grant is asked for, authorized and used.
abbrev events : List Event
events =
    acts asks none
    ∷ authorizes (domain_grant (text "example.com"))
    ∷ makes_available (domain_grant (text "example.com")) true
    ∷ makes_applied (domain_grant (text "example.com")) true
    ∷ []

react_all-IsHeld_example : All IsHeld (react_all parse [] events)
react_all-IsHeld_example = react_all-IsHeld parse events

react_all-IsUnauthorized_example :
    All IsUnauthorized (react_all parse [] (acts asks none ∷ closes presenting ∷ []))
react_all-IsUnauthorized_example =
    react_all-IsUnauthorized parse (acts asks none ∷ closes presenting ∷ []) (tt, (tt, tt))
