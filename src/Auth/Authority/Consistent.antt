-- ===== src/Auth/Authority/Consistent.antt =====
-- The authority's grants stay consistent (portus-window/src/auth_session/authority.rs).
use portus_window.Base.{
  ◌≡◌, ◌≢◌, ◌∙◌, refl, ◌⊎◌, inl, inr, Bool, true, false, Option, none, some, List, [], ◌∷◌, arith,
  Text, Result, ok, All,
}
use portus_window.Base.OrdMap.Entries.{All-get, insert-All, modify-All}
use portus_window.Protocol.Auth.{AuthSessionDecision, remembered, authorized, denied, pending}
use portus_window.Auth.Domain.{Host}
use portus_window.Auth.Authority.Grants.{
  AuthGrantTarget, window_grant, grant_key, PendingAuthGrant, GrantRecord, AuthAuthorityError,
  is_decision, is_scope,
}
use portus_window.Auth.Authority.{Authority, withdrawn, fresh}
use portus_window.Auth.Authority.Effects.{change_grant-cases, IsEffect, dispatch_action-IsEffect}
use portus_window.Auth.Authority.Trusted.{
  change_grant, is_unexpected, decided, set_pending_decision, authorize, deny,
  authorize_pending_exact, deny_pending_exact, made_available, mark_available, made_applied,
  mark_applied, used_once, clear_once_after_use, revoke_window, Event, acts, authorizes, denies,
  authorizes_exact, denies_exact, makes_available, makes_applied, clears, closes, react, react_all,
}

-- A grant is applied only if it is available, and available only if it is authorized; nothing is
-- remembered.
pub record IsConsistent (rec : GrantRecord) : Type 0 where
  pub used : rec.applied ≡ true → rec.available ≡ true
  pub consented : rec.available ≡ true → rec.decision ≡ authorized
  pub unremembered : is_scope rec.grant.scope remembered ≡ false

-- Under its own target.
abbrev pub IsHeld : AuthGrantTarget × GrantRecord → Type 0
IsHeld e = (e.1.grant.target ≡ e.0) × IsConsistent e.1

-- What a decision makes of a grant that it changes.
pub decided-cases :
    (expected : Option PendingAuthGrant) (decision : AuthSessionDecision) (rec new : GrantRecord)
    → decided expected decision rec ≡ ok new
    → (is_unexpected expected rec.grant ≡ false)
      × (rec.decision ≡ pending)
      × (((decision ≡ authorized) × (new ≡ record rec { decision = authorized }))
          ⊎ ((decision ≢ authorized)
              × (new ≡ record rec { decision = decision; available = false; applied = false })))
unfolding decided is_decision
decided-cases expected decision rec new e = ground arith

-- Each event's change of one grant.
decided-IsConsistent :
    (expected : Option PendingAuthGrant) (decision : AuthSessionDecision) (rec new : GrantRecord)
    → decided expected decision rec ≡ ok new
    → IsConsistent rec
    → IsConsistent new × (new.grant.target ≡ rec.grant.target)
decided-IsConsistent expected decision rec new e h =
    let (same, p, shape) = decided-cases expected decision rec new e in ground arith

made_available-IsConsistent :
    (b : Bool) (rec new : GrantRecord)
    → made_available b rec ≡ ok new
    → IsConsistent rec
    → IsConsistent new × (new.grant.target ≡ rec.grant.target)
unfolding made_available is_decision
made_available-IsConsistent b rec new e h = ground arith

made_applied-IsConsistent :
    (b : Bool) (rec new : GrantRecord)
    → made_applied b rec ≡ ok new
    → IsConsistent rec
    → IsConsistent new × (new.grant.target ≡ rec.grant.target)
unfolding made_applied is_decision
made_applied-IsConsistent b rec new e h = ground arith

used_once-IsConsistent :
    (rec new : GrantRecord)
    → used_once rec ≡ ok new
    → IsConsistent rec
    → IsConsistent new × (new.grant.target ≡ rec.grant.target)
unfolding used_once
used_once-IsConsistent rec new e h = ground arith

withdrawn-IsHeld :
    (k : AuthGrantTarget) (rec : GrantRecord) → IsHeld (k, rec) → IsHeld (k, withdrawn rec)
withdrawn-IsHeld k rec h = ground arith

change_grant-IsHeld :
    (a : Authority) (key : AuthGrantTarget)
    (f : GrantRecord → Result AuthAuthorityError GrantRecord)
    → ((rec new : GrantRecord)
        → f rec ≡ ok new
        → IsConsistent rec
        → IsConsistent new × (new.grant.target ≡ rec.grant.target))
    → All IsHeld a
    → All IsHeld (change_grant a key f).1
change_grant-IsHeld a key f keep h = elim (change_grant-cases a key f) [
  | inl (x, e) ↦ rw e h
  | inr (rec, new, e, q, s) ↦
      let old = All-get IsHeld key a h e in
      let k = keep rec new q old.1 in
      rw s (modify-All IsHeld key (λ _. new) a (λ v hv. (k.1 ∙ old.0, k.0)) h)
]

fresh-IsConsistent :
    (p : PendingAuthGrant) → is_scope p.scope remembered ≡ false → IsConsistent (fresh p)
fresh-IsConsistent p scope = ground arith

IsEffect-IsHeld : (a s : Authority) → IsEffect a s → All IsHeld a → All IsHeld s
IsEffect-IsHeld a s (inl e) h = rw e h
IsEffect-IsHeld a s (inr (inl (p, scope, e))) h =
    rw e (insert-All IsHeld p.target (fresh p) a (refl, fresh-IsConsistent p scope) h)
IsEffect-IsHeld a s (inr (inr (key, e))) h =
    rw e (modify-All IsHeld key withdrawn a (withdrawn-IsHeld key) h)

module _ (parse_host : Text → Option Host) where
  react-IsHeld : (a : Authority) (e : Event) → All IsHeld a → All IsHeld (react parse_host a e)
  unfolding react authorize deny authorize_pending_exact deny_pending_exact set_pending_decision
      mark_available mark_applied clear_once_after_use revoke_window
  react-IsHeld a (acts action resolved) h =
      IsEffect-IsHeld a _ (dispatch_action-IsEffect parse_host a action resolved) h
  react-IsHeld a (authorizes target) h =
      change_grant-IsHeld a target _ (decided-IsConsistent none authorized) h
  react-IsHeld a (denies target) h =
      change_grant-IsHeld a target _ (decided-IsConsistent none denied) h
  react-IsHeld a (authorizes_exact target expected) h =
      change_grant-IsHeld a target _ (decided-IsConsistent (some expected) authorized) h
  react-IsHeld a (denies_exact target expected) h =
      change_grant-IsHeld a target _ (decided-IsConsistent (some expected) denied) h
  react-IsHeld a (makes_available target b) h =
      change_grant-IsHeld a target _ (made_available-IsConsistent b) h
  react-IsHeld a (makes_applied target b) h =
      change_grant-IsHeld a target _ (made_applied-IsConsistent b) h
  react-IsHeld a (clears target) h = change_grant-IsHeld a target _ used_once-IsConsistent h
  react-IsHeld a (closes id) h =
      modify-All IsHeld (window_grant id) withdrawn a (withdrawn-IsHeld (window_grant id)) h

  react_all-from :
      (a : Authority) (es : List Event) → All IsHeld a → All IsHeld (react_all parse_host a es)
  unfolding react_all
  react_all-from a [] h = h
  react_all-from a (e ∷ es) h = react_all-from (react parse_host a e) es (react-IsHeld a e h)

  -- Whatever clients ask and the host decides, in any order, every grant stands under its own
  -- target, is applied only while it is available and available only while it is authorized, and
  -- none is a remembered one.
  pub react_all-IsHeld : (es : List Event) → All IsHeld (react_all parse_host [] es)
  react_all-IsHeld es = react_all-from [] es tt
