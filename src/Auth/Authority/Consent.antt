-- ===== src/Auth/Authority/Consent.antt =====
-- Only the host's consent authorizes a grant (portus-window/src/auth_session/authority.rs).
use mathlib.Core.Option
use portus_window.Base.{
  ◌≡◌, ◌≢◌, ◌∙◌, refl, sym, ap, ◌⊎◌, inl, inr, false, Option, none, some, arith, Text, Bool-cases,
  ok, err,
}
use portus_window.Base.OrdMap.{get, modify}
use portus_window.Base.OrdMap.Laws.{get-insert, get-modify}
use portus_window.Protocol.Auth.{AuthSessionAction, AuthSessionResult, authorized, pending}
use portus_window.Auth.Domain.{Host, ValidatedAuthTarget}
use portus_window.Auth.Authority.Grants.{
  AuthGrantTarget, grant_key, target_eq, PendingAuthGrant, GrantRecord, AuthAuthorityError,
  grant_eq-eq, target_eq_refl,
}
use portus_window.Auth.Authority.{Authority, withdrawn, fresh, dispatch_action}
use portus_window.Auth.Authority.Effects.{change_grant-cases, IsEffect, dispatch_action-IsEffect}
use portus_window.Auth.Authority.Trusted.{
  is_unexpected, decided, set_pending_decision, authorize_pending_exact,
}
use portus_window.Auth.Authority.Consistent.{decided-cases}

-- The grant of `key` with what it allows.
abbrev pub IsAuthorized : Authority → AuthGrantTarget → GrantRecord → Type 0
IsAuthorized a key rec = (get key a ≡ some rec) × (rec.decision ≡ authorized)

fresh_unauthorized :
    (p : PendingAuthGrant) (rec : GrantRecord)
    → some (fresh p) ≡ some rec
    → rec.decision ≡ authorized
    → ⊥
fresh_unauthorized p rec e h = ground arith

withdrawn_unauthorized :
    (o : Option GrantRecord) (rec : GrantRecord)
    → Option.map withdrawn o ≡ some rec
    → rec.decision ≡ authorized
    → ⊥
withdrawn_unauthorized none rec e h = ground arith
withdrawn_unauthorized (some old) rec e h = ground arith

IsEffect-IsAuthorized :
    (a s : Authority) (key : AuthGrantTarget) (rec : GrantRecord)
    → IsEffect a s
    → IsAuthorized s key rec
    → IsAuthorized a key rec
IsEffect-IsAuthorized a s key rec (inl e) h = rw e at h
IsEffect-IsAuthorized a s key rec (inr (inl (p, scope, e))) h =
    let q = sym (get-insert p.target key (fresh p) a) ∙ (rw e at (h.0)) in
    elim (Bool-cases (target_eq p.target key)) [
      | inl same ↦ absurd (fresh_unauthorized p rec (rw same at q) h.1)
      | inr other ↦ (rw other at q, h.1)
    ]
IsEffect-IsAuthorized a s key rec (inr (inr (k, e))) h =
    let q = sym (get-modify k key withdrawn a) ∙ (rw e at (h.0)) in
    elim (Bool-cases (target_eq k key)) [
      | inl same ↦ absurd (withdrawn_unauthorized (get key a) rec (rw same at q) h.1)
      | inr other ↦ (rw other at q, h.1)
    ]

-- A client's action authorizes nothing: a grant that is authorized behind it was there before, the
-- same in every part.
pub dispatch_action-IsAuthorized :
    (parse_host : Text → Option Host) (a : Authority) (action : AuthSessionAction)
    (resolved : Option ValidatedAuthTarget) (key : AuthGrantTarget) (rec : GrantRecord)
    → IsAuthorized (dispatch_action parse_host a action resolved).1 key rec
    → IsAuthorized a key rec
dispatch_action-IsAuthorized parse_host a action resolved key rec h =
    IsEffect-IsAuthorized a _ key rec (dispatch_action-IsEffect parse_host a action resolved) h

is_expected :
    (expected p : PendingAuthGrant) → is_unexpected (some expected) p ≡ false → expected ≡ p
unfolding is_unexpected
is_expected expected p h = grant_eq-eq expected p (ground arith)

-- The grant that `modify` has put in the place of one that was there.
get-replaced :
    (a : Authority) (key : AuthGrantTarget) (rec new : GrantRecord)
    → get key a ≡ some rec
    → get key (modify key (λ _. new) a) ≡ some new
get-replaced a key rec new e = get-modify key key (λ _. new) a ∙ rw (target_eq_refl key, e) refl

-- The host authorizes exactly the grant that it expects: if it answers, then that very grant was
-- pending, and is the one that is authorized now.
pub authorize_pending_exact-expected :
    (a : Authority) (key : AuthGrantTarget) (expected : PendingAuthGrant) (r : AuthSessionResult)
    → (authorize_pending_exact a key expected).0 ≡ ok r
    → (rec : GrantRecord) × (get key a ≡ some rec)
      × (rec.decision ≡ pending)
      × (rec.grant ≡ expected)
      × IsAuthorized
          (authorize_pending_exact a key expected).1
          key
          (record rec { decision = authorized })
unfolding authorize_pending_exact set_pending_decision
authorize_pending_exact-expected a key expected r h =
    elim (change_grant-cases a key (decided (some expected) authorized)) [
      | inl (x, e) ↦ absurd (refused x (sym (ap (λ p. p.0) e) ∙ h))
      | inr (rec, new, e, q, s) ↦
          let (same, p, shape) = decided-cases (some expected) authorized rec new q in
          (
            rec,
            e,
            p,
            sym (is_expected expected rec.grant same),
            rw s (get-replaced a key rec _ e ∙ ap some (authorized_shape rec new shape), refl),
          )
    ]
  where
    refused : (x : AuthAuthorityError) → err x ≡ ok r → ⊥
    refused x q = cc

    authorized_shape :
        (rec new : GrantRecord)
        → ((authorized ≡ authorized) × (new ≡ record rec { decision = authorized }))
          ⊎ ((authorized ≢ authorized)
              × (new ≡ record rec { decision = authorized; available = false; applied = false }))
        → new ≡ record rec { decision = authorized }
    authorized_shape rec new (inl (_, e)) = e
    authorized_shape rec new (inr (n, _)) = absurd (n refl)
