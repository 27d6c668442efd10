-- ===== src/Auth/Authority/Effects.antt =====
-- What an operation of the authority does to its grants (portus-window/src/auth_session/authority.rs).
use portus_window.Base.{
  ◌≡◌, refl, ◌⊎◌, inl, inr, false, Option, none, some, Text, Bool-cases, Option-cases, Result-cases,
  Result, ok, err,
}
use portus_window.Base.OrdMap.{get, insert, modify}
use portus_window.Protocol.Auth.{AuthSessionAction, remembered}
use portus_window.Auth.Domain.{
  Host, ValidatedAuthTarget, ValidatedAuthRequest, requested, status_of, apply_to, revoke_of,
  validate_action,
}
use portus_window.Auth.Authority.Grants.{
  AuthGrantTarget, grant_key, PendingAuthGrant, GrantRecord, AuthAuthorityError, is_scope, result,
  grant_not_found,
}
use portus_window.Auth.Authority.{
  Authority, Answer, withdrawn, fresh, request, request_target, place_request, is_reusable, status,
  revoke, revoke_current, key_of, dispatch_validated, dispatch_action,
}
use portus_window.Auth.Authority.Trusted.{change_grant}

-- A checked change of one grant: none was made, or it was.
pub change_grant-cases :
    (a : Authority) (key : AuthGrantTarget)
    (f : GrantRecord → Result AuthAuthorityError GrantRecord)
    → ((x : AuthAuthorityError) × (change_grant a key f ≡ (err x, a)))
      ⊎ ((rec : GrantRecord) × (new : GrantRecord) × (get key a ≡ some rec)
          × (f rec ≡ ok new)
          × (change_grant a key f ≡ (ok (result new), modify key (λ _. new) a)))
unfolding change_grant
change_grant-cases a key f = elim (Option-cases (get key a)) [
  | inl e ↦ inl (grant_not_found, rw (e, change_grant) refl)
  | inr (rec, e) ↦ elim (Result-cases (f rec)) [
    | inl (new, q) ↦ inr (rec, new, e, q, rw (e, change_grant, q) refl)
    | inr (x, q) ↦ inl (x, rw (e, change_grant, q) refl)
  ]
]

-- What a client can bring about: nothing, a grant that is pending, or the end of one.
abbrev pub IsEffect : Authority → Authority → Type 0
IsEffect a s =
    (s ≡ a)
    ⊎ (((p : PendingAuthGrant) × (is_scope p.scope remembered ≡ false)
          × (s ≡ insert p.target (fresh p) a))
        ⊎ ((key : AuthGrantTarget) × (s ≡ modify key withdrawn a)))

place_request-IsEffect :
    (a : Authority) (p : PendingAuthGrant) (o : Option GrantRecord)
    → is_scope p.scope remembered ≡ false
    → IsEffect a (place_request a p.target p o).1
unfolding place_request
place_request-IsEffect a p none scope = inr (inl (p, scope, refl))
place_request-IsEffect a p (some existing) scope = elim (Bool-cases (is_reusable existing p)) [
  | inl again ↦ rw again (inl refl)
  | inr other ↦ elim (Bool-cases existing.applied) [
    | inl used ↦ rw (other, used) (inl refl)
    | inr free ↦ rw (other, free) (inr (inl (p, scope, refl)))
  ]
]

request-IsEffect :
    (a : Authority) (v : ValidatedAuthRequest) (resolved : Option ValidatedAuthTarget)
    → IsEffect a (request a v resolved).1
unfolding request
request-IsEffect a (requested target id browser scope reason presentation) resolved =
    elim (Bool-cases (is_scope scope remembered)) [
      | inl kept ↦ rw kept (inl refl)
      | inr scoped ↦ elim (Result-cases (request_target target id presentation resolved)) [
        | inl (x, e) ↦ rw (scoped, e) (place_request-IsEffect a _ (get x.0 a) scoped)
        | inr (x, e) ↦ rw (scoped, e) (inl refl)
      ]
    ]
request-IsEffect a (status_of target id) resolved = inl refl
request-IsEffect a (apply_to target expected id) resolved = inl refl
request-IsEffect a (revoke_of target id) resolved = inl refl

revoke_current-IsEffect :
    (a : Authority) (current : Answer) → IsEffect a (revoke_current a current).1
unfolding revoke_current
revoke_current-IsEffect a (err x) = inl refl
revoke_current-IsEffect a (ok current) = elim (Option-cases (get (key_of current.state.target) a)) [
  | inl e ↦ rw (e, revoke_current) (inl refl)
  | inr (rec, e) ↦ rw (e, revoke_current) (inr (inr (key_of current.state.target, refl)))
]

dispatch_validated-IsEffect :
    (a : Authority) (v : ValidatedAuthRequest) (resolved : Option ValidatedAuthTarget)
    → IsEffect a (dispatch_validated a v resolved).1
unfolding dispatch_validated revoke
dispatch_validated-IsEffect a (requested target id browser scope reason presentation) resolved =
    request-IsEffect a (requested target id browser scope reason presentation) resolved
dispatch_validated-IsEffect a (status_of target id) resolved = inl refl
dispatch_validated-IsEffect a (apply_to target expected id) resolved = inl refl
dispatch_validated-IsEffect a (revoke_of target id) resolved =
    revoke_current-IsEffect a (status a (status_of target id) resolved)

pub dispatch_action-IsEffect :
    (parse_host : Text → Option Host) (a : Authority) (action : AuthSessionAction)
    (resolved : Option ValidatedAuthTarget)
    → IsEffect a (dispatch_action parse_host a action resolved).1
unfolding dispatch_action
dispatch_action-IsEffect parse_host a action resolved =
    elim (Result-cases (validate_action parse_host action)) [
      | inl (v, e) ↦ rw (e, dispatch_action) (dispatch_validated-IsEffect a v resolved)
      | inr (x, e) ↦ rw (e, dispatch_action) (inl refl)
    ]
