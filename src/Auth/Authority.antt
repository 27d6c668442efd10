-- ===== src/Auth/Authority.antt =====
-- `AuthenticatedSessionAuthority` (portus-window/src/auth_session/authority.rs): the grants, and the
-- operations on them. The lock makes each operation one step.
pub mod Grants
pub mod Trusted
pub mod Effects
pub mod Consistent
pub mod Consent
pub mod Answers
use portus_window.Base.{
  ℕ, Bool, true, false, not, ◌&&◌, ◌||◌, Option, none, some, List, [], ◌∷◌, if◌then◌else◌, Text,
  text, text_eq, Result, ok, err,
}
use portus_window.Base.OrdMap.{Key, OrdMap, get, insert, modify}
use portus_window.Protocol.Auth
use portus_window.Protocol.Auth.{
  AuthSessionAction, AuthSessionTarget, AuthSessionScope, AuthSessionDecision, AuthSessionState,
  AuthSessionResult, BrowserKind, remembered, once, pending, authorized, denied, revoked, firefox,
  session,
}
use portus_window.Auth.Domain.{
  AuthDomainError, AuthSiteBundle, ValidatedAuthTarget, ValidatedAuthRequest, requested, status_of,
  revoke_of, apply_to, Host, validate_action,
}
use portus_window.Auth.Authority.Grants.{
  AuthGrantTarget, domain_grant, window_grant, grant_key, PendingAuthGrant, GrantRecord,
  AuthAuthorityError, is_decision, is_scope, is_browser, grant_eq, result, validation,
  remembered_unsupported, window_domain_unavailable, grant_not_found, not_authorized, grant_in_use,
}

abbrev pub Authority : Type 0
Authority = OrdMap AuthGrantTarget GrantRecord

abbrev pub Answer : Type 0
Answer = Result AuthAuthorityError AuthSessionResult

-- The key of a request, the target it is for and the window that shows it.
unfoldable pub request_target :
    Option ValidatedAuthTarget
    → Option Text
    → Option Text
    → Option ValidatedAuthTarget
    → Result AuthAuthorityError (AuthGrantTarget × ValidatedAuthTarget × Text)
request_target (some target) none none resolved = err grant_not_found
request_target (some target) none (some presentation) resolved =
    ok (domain_grant target.requested_domain, target, presentation)
request_target none (some id) (some presentation) resolved = err grant_not_found
request_target none (some id) none none = err window_domain_unavailable
request_target none (some id) none (some target) = ok (window_grant id, target, id)
request_target _ _ presentation resolved = err grant_not_found

-- A grant that has been authorized for the same use answers again.
unfoldable pub is_reusable : GrantRecord → PendingAuthGrant → Bool
unfolding is_decision is_browser is_scope
is_reusable existing p =
    is_decision existing.decision authorized
    && is_browser existing.grant.browser p.browser
    && is_scope existing.grant.scope p.scope
    && text_eq existing.grant.domain p.domain

abbrev pub fresh : PendingAuthGrant → GrantRecord
fresh p = record { grant = p; decision = pending; available = false; applied = false }

unfoldable pub place_request :
    Authority → AuthGrantTarget → PendingAuthGrant → Option GrantRecord → Answer × Authority
unfolding is_reusable
place_request a key p none = (ok (result (fresh p)), insert key (fresh p) a)
place_request a key p (some existing) =
    if is_reusable existing p
    then (ok (result existing), a)
    else if existing.applied
    then (err grant_in_use, a)
    else (ok (result (fresh p)), insert key (fresh p) a)

unfoldable pub request :
    Authority → ValidatedAuthRequest → Option ValidatedAuthTarget → Answer × Authority
unfolding request_target place_request is_scope
request a (requested target id browser scope reason presentation) resolved =
    if is_scope scope remembered
    then (err remembered_unsupported, a)
    else elim (request_target target id presentation resolved) [
      | err e ↦ (err e, a)
      | ok (key, t, shown) ↦
          place_request a key
            (record {
              target = key;
              domain = t.requested_domain;
              window_session_id = some shown;
              browser = browser;
              scope = scope;
              reason = reason;
              cookie_domains = t.cookie_domains;
              bundle = t.bundle;
            })
            (get key a)
    ]
request a (status_of target id) resolved = (err grant_not_found, a)
request a (apply_to target expected id) resolved = (err grant_not_found, a)
request a (revoke_of target id) resolved = (err grant_not_found, a)

-- The answer for a target of which there is no grant.
abbrev pub no_grant : AuthSessionTarget → Text → AuthSessionResult
no_grant target domain = record {
  state = record {
    target = target;
    canonical_domain = domain;
    browser = firefox;
    scope = session;
    decision = denied;
    available = false;
    applied = false;
    reason = none;
  };
}

unfoldable pub domain_or_default : Option ValidatedAuthTarget → Text
domain_or_default none = []
domain_or_default (some t) = t.requested_domain

unfoldable pub status : Authority → ValidatedAuthRequest → Option ValidatedAuthTarget → Answer
unfolding domain_or_default
status a (status_of (some t) none) resolved = elim (get (domain_grant t.requested_domain) a) [
  | some rec ↦ ok (result rec)
  | none ↦ ok (no_grant (Auth.domain t.requested_domain) t.requested_domain)
]
status a (status_of none (some id)) resolved = elim (get (window_grant id) a) [
  | some rec ↦ ok (result rec)
  | none ↦ ok (no_grant (Auth.window id) (domain_or_default resolved))
]
status a (status_of none none) resolved = err grant_not_found
status a (status_of (some t) (some id)) resolved = err grant_not_found
status a (requested target id browser scope reason presentation) resolved = err grant_not_found
status a (apply_to target expected id) resolved = err grant_not_found
status a (revoke_of target id) resolved = err grant_not_found

abbrev pub key_of : AuthSessionTarget → AuthGrantTarget
key_of (Auth.domain d) = domain_grant d
key_of (Auth.window id) = window_grant id

abbrev pub withdrawn : GrantRecord → GrantRecord
withdrawn rec = record rec { decision = revoked; available = false; applied = false }

unfoldable pub revoke_current : Authority → Answer → Answer × Authority
revoke_current a (err e) = (err e, a)
revoke_current a (ok current) =
    let key = key_of current.state.target in
    elim (get key a) [
      | none ↦ (ok current, a)
      | some rec ↦ (ok (result (withdrawn rec)), modify key withdrawn a)
    ]

unfoldable pub revoke :
    Authority → ValidatedAuthRequest → Option ValidatedAuthTarget → Answer × Authority
unfolding revoke_current status
revoke a (revoke_of target id) resolved = revoke_current a (status a (status_of target id) resolved)
revoke a (requested target id browser scope reason presentation) resolved = (err grant_not_found, a)
revoke a (status_of target id) resolved = (err grant_not_found, a)
revoke a (apply_to target expected id) resolved = (err grant_not_found, a)

-- What a client's action does.
unfoldable pub dispatch_validated :
    Authority → ValidatedAuthRequest → Option ValidatedAuthTarget → Answer × Authority
unfolding request status revoke
dispatch_validated a (requested target id browser scope reason presentation) resolved =
    request a (requested target id browser scope reason presentation) resolved
dispatch_validated a (status_of target id) resolved = (status a (status_of target id) resolved, a)
dispatch_validated a (apply_to target expected id) resolved = (err grant_not_found, a)
dispatch_validated a (revoke_of target id) resolved = revoke a (revoke_of target id) resolved

unfoldable pub dispatch_action :
    (Text → Option Host)
    → Authority
    → AuthSessionAction
    → Option ValidatedAuthTarget
    → Answer × Authority
unfolding dispatch_validated
dispatch_action parse_host a action resolved = elim (validate_action parse_host action) [
  | err e ↦ (err (validation e), a)
  | ok v ↦ dispatch_validated a v resolved
]
