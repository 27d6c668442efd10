-- ===== src/Auth/Authority/Trusted.antt =====
-- What the host does with the grants, and no client can ask for
-- (portus-window/src/auth_session/authority.rs); and the authority behind a sequence of events.
use portus_window.Base.{
  Bool, false, not, ◌&&◌, ◌||◌, Option, none, some, List, [], ◌∷◌, if◌then◌else◌, Text, Result, ok,
  err,
}
use portus_window.Base.OrdMap.{get, modify}
use portus_window.Protocol.Auth.{
  AuthSessionAction, AuthSessionDecision, once, authorized, denied, pending,
}
use portus_window.Auth.Domain.{Host, ValidatedAuthTarget}
use portus_window.Auth.Authority.Grants.{
  AuthGrantTarget, window_grant, grant_key, PendingAuthGrant, GrantRecord, AuthAuthorityError,
  is_decision, is_scope, grant_eq, result, grant_not_found, not_authorized,
}
use portus_window.Auth.Authority.{Authority, Answer, withdrawn, dispatch_action}

-- A checked change of one grant through `get_mut`.
unfoldable pub change_grant :
    Authority
    → AuthGrantTarget
    → (GrantRecord → Result AuthAuthorityError GrantRecord)
    → Answer × Authority
change_grant a key f = elim (get key a) [
  | none ↦ (err grant_not_found, a)
  | some rec ↦ elim (f rec) [
    | err e ↦ (err e, a)
    | ok new ↦ (ok (result new), modify key (λ _. new) a)
  ]
]

unfoldable pub is_unexpected : Option PendingAuthGrant → PendingAuthGrant → Bool
unfolding grant_eq
is_unexpected none p = false
is_unexpected (some expected) p = not (grant_eq expected p)

-- `set_pending_decision`, on the grant that it has found.
unfoldable pub decided :
    Option PendingAuthGrant
    → AuthSessionDecision
    → GrantRecord
    → Result AuthAuthorityError GrantRecord
unfolding is_unexpected is_decision
decided expected decision rec =
    if not (is_decision rec.decision pending) || is_unexpected expected rec.grant
    then err grant_not_found
    else if not (is_decision decision authorized)
    then ok (record rec { decision = decision; available = false; applied = false })
    else ok (record rec { decision = decision })

unfoldable pub set_pending_decision :
    Authority → AuthGrantTarget → Option PendingAuthGrant → AuthSessionDecision → Answer × Authority
unfolding change_grant decided
set_pending_decision a target expected decision = change_grant a target (decided expected decision)

unfoldable pub authorize : Authority → AuthGrantTarget → Answer × Authority
unfolding set_pending_decision
authorize a target = set_pending_decision a target none authorized

unfoldable pub deny : Authority → AuthGrantTarget → Answer × Authority
unfolding set_pending_decision
deny a target = set_pending_decision a target none denied

unfoldable pub authorize_pending_exact :
    Authority → AuthGrantTarget → PendingAuthGrant → Answer × Authority
unfolding set_pending_decision
authorize_pending_exact a target expected = set_pending_decision a target (some expected) authorized

unfoldable pub deny_pending_exact :
    Authority → AuthGrantTarget → PendingAuthGrant → Answer × Authority
unfolding set_pending_decision
deny_pending_exact a target expected = set_pending_decision a target (some expected) denied

unfoldable pub made_available : Bool → GrantRecord → Result AuthAuthorityError GrantRecord
made_available available rec =
    if not (is_decision rec.decision authorized)
    then err not_authorized
    else if not available
    then ok (record rec { available = available; applied = false })
    else ok (record rec { available = available })

unfoldable pub mark_available : Authority → AuthGrantTarget → Bool → Answer × Authority
unfolding change_grant made_available
mark_available a target available = change_grant a target (made_available available)

unfoldable pub made_applied : Bool → GrantRecord → Result AuthAuthorityError GrantRecord
made_applied applied rec =
    if not (is_decision rec.decision authorized)
    then err not_authorized
    else if applied && not rec.available
    then err not_authorized
    else ok (record rec { applied = applied })

unfoldable pub mark_applied : Authority → AuthGrantTarget → Bool → Answer × Authority
unfolding change_grant made_applied
mark_applied a target applied = change_grant a target (made_applied applied)

unfoldable pub used_once : GrantRecord → Result AuthAuthorityError GrantRecord
used_once rec = ok (if is_scope rec.grant.scope once then withdrawn rec else rec)

unfoldable pub clear_once_after_use : Authority → AuthGrantTarget → Answer × Authority
unfolding change_grant used_once
clear_once_after_use a target = change_grant a target used_once

unfoldable pub revoke_window : Authority → Text → Authority
revoke_window a window_session_id = modify (window_grant window_session_id) withdrawn a

unfoldable pub pending_grant : Authority → AuthGrantTarget → Option PendingAuthGrant
pending_grant a target = elim (get target a) [
  | none ↦ none
  | some rec ↦ if is_decision rec.decision pending then some rec.grant else none
]

unfoldable pub grant : Authority → AuthGrantTarget → Option PendingAuthGrant
grant a target = elim (get target a) [ none ↦ none | some rec ↦ some rec.grant ]

unfoldable pub authorized_grant :
    Authority → AuthGrantTarget → Result AuthAuthorityError PendingAuthGrant
authorized_grant a target = elim (get target a) [
  | none ↦ err not_authorized
  | some rec ↦ if is_decision rec.decision authorized then ok rec.grant else err not_authorized
]

pub data Event : Type 0 where
  acts : (action : AuthSessionAction) → (resolved : Option ValidatedAuthTarget) → Event
  authorizes denies : (target : AuthGrantTarget) → Event
  authorizes_exact denies_exact : (target : AuthGrantTarget) → (expected : PendingAuthGrant) → Event
  makes_available makes_applied : (target : AuthGrantTarget) → (value : Bool) → Event
  clears : (target : AuthGrantTarget) → Event
  closes : (window_session_id : Text) → Event

module _ (parse_host : Text → Option Host) where
  unfoldable pub react : Authority → Event → Authority
  react a (acts action resolved) = (dispatch_action parse_host a action resolved).1
  react a (authorizes target) = (authorize a target).1
  react a (denies target) = (deny a target).1
  react a (authorizes_exact target expected) = (authorize_pending_exact a target expected).1
  react a (denies_exact target expected) = (deny_pending_exact a target expected).1
  react a (makes_available target value) = (mark_available a target value).1
  react a (makes_applied target value) = (mark_applied a target value).1
  react a (clears target) = (clear_once_after_use a target).1
  react a (closes window_session_id) = revoke_window a window_session_id

  unfoldable pub react_all : Authority → List Event → Authority
  unfolding react
  react_all a [] = a
  react_all a (e ∷ events) = react_all (react a e) events
