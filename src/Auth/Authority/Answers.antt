-- ===== src/Auth/Authority/Answers.antt =====
-- What clients are answered, and when grants can be authorized at all
-- (portus-window/src/auth_session/authority.rs).
use portus_window.Base.{
  ◌≡◌, ◌≢◌, ◌∙◌, inl, inr, Bool, Option, none, some, List, [], ◌∷◌, arith, Text, Bool-cases,
  Result-cases, Result, ok, err, All,
}
use portus_window.Base.OrdMap.{get}
use portus_window.Base.OrdMap.Entries.{All-get, insert-All, modify-All}
use portus_window.Protocol.Auth.{
  AuthSessionAction, AuthSessionTarget, BrowserKind, AuthSessionScope, authorized, denied,
  remembered, request,
}
use portus_window.Auth.Domain.{Host, ValidatedAuthTarget, requested, validate_action}
use portus_window.Auth.Domain.Accepted.{validate_action-IsTargeted, IsTargeted}
use portus_window.Auth.Authority
use portus_window.Auth.Authority.{
  Authority, Answer, withdrawn, fresh, request_target, place_request, is_reusable,
  dispatch_validated, dispatch_action,
}
use portus_window.Auth.Authority.Grants.{
  AuthGrantTarget, window_grant, grant_key, PendingAuthGrant, GrantRecord, AuthAuthorityError,
  is_scope, grant_not_found,
}
use portus_window.Auth.Authority.Effects.{change_grant-cases, IsEffect, dispatch_action-IsEffect}
use portus_window.Auth.Authority.Consistent.{decided-cases}
use portus_window.Auth.Authority.Trusted.{
  change_grant, decided, set_pending_decision, deny, deny_pending_exact, made_available,
  mark_available, made_applied, mark_applied, used_once, clear_once_after_use, revoke_window, Event,
  acts, authorizes, denies, authorizes_exact, denies_exact, makes_available, makes_applied, clears,
  closes, react, react_all,
}

place_request-found :
    (a : Authority) (key : AuthGrantTarget) (p : PendingAuthGrant) (o : Option GrantRecord)
    → (place_request a key p o).0 ≢ err grant_not_found
unfolding place_request
place_request-found a key p none = λ h. cc
place_request-found a key p (some existing) = ground arith

request_target-found :
    (t : Option ValidatedAuthTarget) (w presentation : Option Text)
    (resolved : Option ValidatedAuthTarget)
    → IsTargeted t w presentation
    → request_target t w presentation resolved ≢ err grant_not_found
unfolding request_target
request_target-found t w presentation resolved (inl (u, p, e1, e2, e3, k)) =
    rw (e1, e2, e3) (λ q. cc)
request_target-found t w presentation none (inr (v, e1, e2, e3, k)) = rw (e1, e2, e3) (λ q. cc)
request_target-found t w presentation (some d) (inr (v, e1, e2, e3, k)) = rw (e1, e2, e3) (λ q. cc)

request-found :
    (a : Authority) (t : Option ValidatedAuthTarget) (w presentation : Option Text)
    (browser : BrowserKind) (scope : AuthSessionScope) (reason : Option Text)
    (resolved : Option ValidatedAuthTarget)
    → IsTargeted t w presentation
    → (Authority.request a (requested t w browser scope reason presentation) resolved).0
      ≢ err grant_not_found
unfolding Authority.request
request-found a t w presentation browser scope reason resolved h =
    elim (Bool-cases (is_scope scope remembered)) [
      | inl kept ↦ rw kept (λ q. cc)
      | inr scoped ↦ elim (Result-cases (request_target t w presentation resolved)) [
        | inl (x, e) ↦ rw (scoped, e) (place_request-found a x.0 _ (get x.0 a))
        | inr (x, e) ↦
            rw (scoped, e) (λ q. request_target-found t w presentation resolved h (e ∙ same x q))
      ]
    ]
  where
    same :
        (x : AuthAuthorityError)
        → ◌≡◌ {A = Answer} (err x) (err grant_not_found)
        → ◌≡◌ {A = Result AuthAuthorityError (AuthGrantTarget × ValidatedAuthTarget × Text)}
            (err x)
            (err grant_not_found)
    same x q = cc

-- A client's request for a grant is never answered as one that is not found: what the validation
-- lets through names a target, and `request` takes it.
pub dispatch_action-found :
    (parse_host : Text → Option Host) (a : Authority) (target : AuthSessionTarget)
    (browser : BrowserKind) (scope : AuthSessionScope) (reason presentation : Option Text)
    (resolved : Option ValidatedAuthTarget)
    → (dispatch_action parse_host a (request target browser scope reason presentation) resolved).0
      ≢ err grant_not_found
unfolding dispatch_action dispatch_validated
dispatch_action-found parse_host a target browser scope reason presentation resolved =
    elim (Result-cases (validate_action parse_host action)) [
      | inl (v, e) ↦
          let (t, w, r, shape, targeted) =
            validate_action-IsTargeted parse_host target browser scope reason presentation v e in
          rw (e, dispatch_action, shape)
            (request-found a t w presentation browser scope r resolved targeted)
      | inr (x, e) ↦ rw (e, dispatch_action) (λ q. cc)
    ]
  where
    action : AuthSessionAction
    action = request target browser scope reason presentation

-- Not an authorization by the host.
abbrev pub IsUnauthorizing : Event → Type 0
IsUnauthorizing (authorizes target) = ⊥
IsUnauthorizing (authorizes_exact target expected) = ⊥
IsUnauthorizing _ = Unit

abbrev pub IsUnauthorized : AuthGrantTarget × GrantRecord → Type 0
IsUnauthorized e = e.1.decision ≢ authorized

change_grant-IsUnauthorized :
    (a : Authority) (key : AuthGrantTarget)
    (f : GrantRecord → Result AuthAuthorityError GrantRecord)
    → ((rec new : GrantRecord)
        → f rec ≡ ok new
        → new.decision ≡ authorized
        → rec.decision ≡ authorized)
    → All IsUnauthorized a
    → All IsUnauthorized (change_grant a key f).1
change_grant-IsUnauthorized a key f keep h = elim (change_grant-cases a key f) [
  | inl (x, e) ↦ rw e h
  | inr (rec, new, e, q, s) ↦
      let old = All-get IsUnauthorized key a h e in
      rw s (modify-All IsUnauthorized key (λ _. new) a (λ v hv n. old (keep rec new q n)) h)
]

denied-keeps :
    (expected : Option PendingAuthGrant) (rec new : GrantRecord)
    → decided expected denied rec ≡ ok new
    → new.decision ≡ authorized
    → rec.decision ≡ authorized
denied-keeps expected rec new e n =
    let (same, p, shape) = decided-cases expected denied rec new e in ground arith

made_available-keeps :
    (b : Bool) (rec new : GrantRecord)
    → made_available b rec ≡ ok new
    → new.decision ≡ authorized
    → rec.decision ≡ authorized
unfolding made_available
made_available-keeps b rec new e n = ground arith

made_applied-keeps :
    (b : Bool) (rec new : GrantRecord)
    → made_applied b rec ≡ ok new
    → new.decision ≡ authorized
    → rec.decision ≡ authorized
unfolding made_applied
made_applied-keeps b rec new e n = ground arith

used_once-keeps :
    (rec new : GrantRecord)
    → used_once rec ≡ ok new
    → new.decision ≡ authorized
    → rec.decision ≡ authorized
unfolding used_once
used_once-keeps rec new e n = ground arith

IsEffect-IsUnauthorized :
    (a s : Authority) → IsEffect a s → All IsUnauthorized a → All IsUnauthorized s
IsEffect-IsUnauthorized a s (inl e) h = rw e h
IsEffect-IsUnauthorized a s (inr (inl (p, scope, e))) h =
    rw e (insert-All IsUnauthorized p.target (fresh p) a (λ q. cc) h)
IsEffect-IsUnauthorized a s (inr (inr (key, e))) h =
    rw e (modify-All IsUnauthorized key withdrawn a (λ v hv q. cc) h)

module _ (parse_host : Text → Option Host) where
  react-IsUnauthorized :
      (a : Authority) (e : Event)
      → IsUnauthorizing e
      → All IsUnauthorized a
      → All IsUnauthorized (react parse_host a e)
  unfolding react deny deny_pending_exact set_pending_decision mark_available mark_applied
      clear_once_after_use revoke_window
  react-IsUnauthorized a (acts action resolved) u h =
      IsEffect-IsUnauthorized a _ (dispatch_action-IsEffect parse_host a action resolved) h
  react-IsUnauthorized a (authorizes target) u h = absurd u
  react-IsUnauthorized a (authorizes_exact target expected) u h = absurd u
  react-IsUnauthorized a (denies target) u h =
      change_grant-IsUnauthorized a target _ (denied-keeps none) h
  react-IsUnauthorized a (denies_exact target expected) u h =
      change_grant-IsUnauthorized a target _ (denied-keeps (some expected)) h
  react-IsUnauthorized a (makes_available target b) u h =
      change_grant-IsUnauthorized a target _ (made_available-keeps b) h
  react-IsUnauthorized a (makes_applied target b) u h =
      change_grant-IsUnauthorized a target _ (made_applied-keeps b) h
  react-IsUnauthorized a (clears target) u h =
      change_grant-IsUnauthorized a target _ used_once-keeps h
  react-IsUnauthorized a (closes id) u h =
      modify-All IsUnauthorized (window_grant id) withdrawn a (λ v hv q. cc) h

  react_all-IsUnauthorized_from :
      (a : Authority) (es : List Event)
      → All IsUnauthorizing es
      → All IsUnauthorized a
      → All IsUnauthorized (react_all parse_host a es)
  unfolding react_all
  react_all-IsUnauthorized_from a [] u h = h
  react_all-IsUnauthorized_from a (e ∷ es) u h =
      react_all-IsUnauthorized_from (react parse_host a e) es u.1 (react-IsUnauthorized a e u.0 h)

  -- Without an authorization by the host there is no authorized grant, whatever clients ask and
  -- whatever else the host does.
  pub react_all-IsUnauthorized :
      (es : List Event) → All IsUnauthorizing es → All IsUnauthorized (react_all parse_host [] es)
  react_all-IsUnauthorized es u = react_all-IsUnauthorized_from [] es u tt
