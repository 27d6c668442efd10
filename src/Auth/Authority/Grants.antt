-- ===== src/Auth/Authority/Grants.antt =====
-- The records of the authority, and what the host alone may do with them
-- (portus-window/src/auth_session/authority.rs).
use portus_window.Base.{
  Bool, true, false, ◌&&◌, Option, none, some, List, [], ◌∷◌, refl, arith, ◌≡◌, Text, text_eq,
  text_eq_refl, text_eq-eq, text_lt, text_lt_irrefl, text_lt_trans, text_lt_total,
}
use portus_window.Base.OrdMap.{Key}
use portus_window.Protocol.Auth.{
  AuthSessionScope, AuthSessionDecision, AuthSessionResult, BrowserKind, once, session, remembered,
  pending, authorized, denied, revoked, firefox, chromium, chrome, brave, domain, window,
}
use portus_window.Auth.Domain.{AuthDomainError, AuthSiteBundle, exact_domain, you_tube}

pub data AuthGrantTarget : Type 0 where
  domain_grant : Text → AuthGrantTarget
  window_grant : Text → AuthGrantTarget

pub record PendingAuthGrant : Type 0 where
  pub target : AuthGrantTarget
  pub domain : Text
  pub window_session_id : Option Text
  pub browser : BrowserKind
  pub scope : AuthSessionScope
  pub reason : Option Text
  pub cookie_domains : List Text
  pub bundle : AuthSiteBundle

pub record GrantRecord : Type 0 where
  pub grant : PendingAuthGrant
  pub decision : AuthSessionDecision
  pub available : Bool
  pub applied : Bool

pub data AuthAuthorityError : Type 0 where
  validation : AuthDomainError → AuthAuthorityError
  remembered_unsupported window_domain_unavailable : AuthAuthorityError
  grant_not_found not_authorized grant_in_use : AuthAuthorityError

-- The derived `PartialEq` and `Ord`: all domains come before all windows.
unfoldable pub target_eq : AuthGrantTarget → AuthGrantTarget → Bool
target_eq (domain_grant s) (domain_grant t) = text_eq s t
target_eq (domain_grant s) (window_grant t) = false
target_eq (window_grant s) (domain_grant t) = false
target_eq (window_grant s) (window_grant t) = text_eq s t

unfoldable pub target_lt : AuthGrantTarget → AuthGrantTarget → Bool
target_lt (domain_grant s) (domain_grant t) = text_lt s t
target_lt (domain_grant s) (window_grant t) = true
target_lt (window_grant s) (domain_grant t) = false
target_lt (window_grant s) (window_grant t) = text_lt s t

pub target_eq_refl : (a : AuthGrantTarget) → target_eq a a ≡ true
unfolding target_eq
target_eq_refl (domain_grant s) = text_eq_refl s
target_eq_refl (window_grant s) = text_eq_refl s

pub target_eq-eq : (a b : AuthGrantTarget) → target_eq a b ≡ true → a ≡ b
unfolding target_eq
target_eq-eq (domain_grant s) (domain_grant t) h = ground (arith, text_eq-eq s t)
target_eq-eq (domain_grant s) (window_grant t) h = cc
target_eq-eq (window_grant s) (domain_grant t) h = cc
target_eq-eq (window_grant s) (window_grant t) h = ground (arith, text_eq-eq s t)

pub target_lt_irrefl : (a : AuthGrantTarget) → target_lt a a ≡ false
unfolding target_lt
target_lt_irrefl (domain_grant s) = text_lt_irrefl s
target_lt_irrefl (window_grant s) = text_lt_irrefl s

pub target_lt_trans :
    (a b c : AuthGrantTarget) → target_lt a b ≡ true → target_lt b c ≡ true → target_lt a c ≡ true
unfolding target_lt
target_lt_trans (domain_grant r) (domain_grant s) (domain_grant t) h k = text_lt_trans r s t h k
target_lt_trans (domain_grant r) (domain_grant s) (window_grant t) h k = refl
target_lt_trans (domain_grant r) (window_grant s) (domain_grant t) h k = cc
target_lt_trans (domain_grant r) (window_grant s) (window_grant t) h k = refl
target_lt_trans (window_grant r) (domain_grant s) c h k = cc
target_lt_trans (window_grant r) (window_grant s) (domain_grant t) h k = cc
target_lt_trans (window_grant r) (window_grant s) (window_grant t) h k = text_lt_trans r s t h k

pub target_lt_total :
    (a b : AuthGrantTarget) → target_eq a b ≡ false → target_lt a b ≡ false → target_lt b a ≡ true
unfolding target_eq target_lt
target_lt_total (domain_grant s) (domain_grant t) h k = text_lt_total s t h k
target_lt_total (domain_grant s) (window_grant t) h k = cc
target_lt_total (window_grant s) (domain_grant t) h k = refl
target_lt_total (window_grant s) (window_grant t) h k = text_lt_total s t h k

instance abbrev pub grant_key : Key AuthGrantTarget
grant_key = record {
  eq = target_eq;
  lt = target_lt;
  eq_refl = target_eq_refl;
  eq-eq = target_eq-eq;
  lt_irrefl = target_lt_irrefl;
  lt_trans = target_lt_trans;
  lt_total = target_lt_total;
}

-- The derived equality of the enums and of a grant.
unfoldable pub is_decision : AuthSessionDecision → AuthSessionDecision → Bool
is_decision pending pending = true
is_decision authorized authorized = true
is_decision denied denied = true
is_decision revoked revoked = true
is_decision _ _ = false

unfoldable pub is_scope : AuthSessionScope → AuthSessionScope → Bool
is_scope once once = true
is_scope session session = true
is_scope remembered remembered = true
is_scope _ _ = false

unfoldable pub is_browser : BrowserKind → BrowserKind → Bool
is_browser firefox firefox = true
is_browser chromium chromium = true
is_browser chrome chrome = true
is_browser brave brave = true
is_browser _ _ = false

unfoldable pub is_bundle : AuthSiteBundle → AuthSiteBundle → Bool
is_bundle exact_domain exact_domain = true
is_bundle you_tube you_tube = true
is_bundle _ _ = false

unfoldable pub option_eq : Option Text → Option Text → Bool
option_eq none none = true
option_eq (some s) (some t) = text_eq s t
option_eq _ _ = false

unfoldable pub texts_eq : List Text → List Text → Bool
texts_eq [] [] = true
texts_eq (s ∷ ss) (t ∷ ts) = text_eq s t && texts_eq ss ts
texts_eq _ _ = false

unfoldable pub grant_eq : PendingAuthGrant → PendingAuthGrant → Bool
unfolding target_eq is_scope is_browser is_bundle option_eq texts_eq
grant_eq a b =
    target_eq a.target b.target
    && text_eq a.domain b.domain
    && option_eq a.window_session_id b.window_session_id
    && is_browser a.browser b.browser
    && is_scope a.scope b.scope
    && option_eq a.reason b.reason
    && texts_eq a.cookie_domains b.cookie_domains
    && is_bundle a.bundle b.bundle

is_scope-eq : (a b : AuthSessionScope) → is_scope a b ≡ true → a ≡ b
unfolding is_scope
is_scope-eq once once h = refl
is_scope-eq session session h = refl
is_scope-eq remembered remembered h = refl
is_scope-eq once session h = cc
is_scope-eq once remembered h = cc
is_scope-eq session once h = cc
is_scope-eq session remembered h = cc
is_scope-eq remembered once h = cc
is_scope-eq remembered session h = cc

is_browser-eq : (a b : BrowserKind) → is_browser a b ≡ true → a ≡ b
unfolding is_browser
is_browser-eq a b h = ground arith

is_bundle-eq : (a b : AuthSiteBundle) → is_bundle a b ≡ true → a ≡ b
unfolding is_bundle
is_bundle-eq a b h = ground arith

option_eq-eq : (a b : Option Text) → option_eq a b ≡ true → a ≡ b
unfolding option_eq
option_eq-eq none none h = refl
option_eq-eq none (some t) h = cc
option_eq-eq (some s) none h = cc
option_eq-eq (some s) (some t) h = ground (arith, text_eq-eq s t)

texts_eq-eq : (a b : List Text) → texts_eq a b ≡ true → a ≡ b
unfolding texts_eq
texts_eq-eq [] [] h = refl
texts_eq-eq [] (t ∷ ts) h = cc
texts_eq-eq (s ∷ ss) [] h = cc
texts_eq-eq (s ∷ ss) (t ∷ ts) h = ground (arith, text_eq-eq s t, texts_eq-eq ss ts)

all_true :
    (b1 b2 b3 b4 b5 b6 b7 b8 : Bool)
    → b1 && b2 && b3 && b4 && b5 && b6 && b7 && b8 ≡ true
    → (b1 ≡ true)
      × (b2 ≡ true)
      × (b3 ≡ true)
      × (b4 ≡ true)
      × (b5 ≡ true)
      × (b6 ≡ true)
      × (b7 ≡ true)
      × (b8 ≡ true)
all_true b1 b2 b3 b4 b5 b6 b7 b8 h = ground arith

grant_ext :
    (a b : PendingAuthGrant)
    → a.target ≡ b.target
    → a.domain ≡ b.domain
    → a.window_session_id ≡ b.window_session_id
    → a.browser ≡ b.browser
    → a.scope ≡ b.scope
    → a.reason ≡ b.reason
    → a.cookie_domains ≡ b.cookie_domains
    → a.bundle ≡ b.bundle
    → a ≡ b
grant_ext a b p1 p2 p3 p4 p5 p6 p7 p8 = λ i. record {
  target = p1 i;
  domain = p2 i;
  window_session_id = p3 i;
  browser = p4 i;
  scope = p5 i;
  reason = p6 i;
  cookie_domains = p7 i;
  bundle = p8 i;
}

pub grant_eq-eq : (a b : PendingAuthGrant) → grant_eq a b ≡ true → a ≡ b
unfolding grant_eq
grant_eq-eq a b h =
    let (h1, h2, h3, h4, h5, h6, h7, h8) =
      all_true (target_eq a.target b.target) (text_eq a.domain b.domain)
        (option_eq a.window_session_id b.window_session_id) (is_browser a.browser b.browser)
        (is_scope a.scope b.scope) (option_eq a.reason b.reason)
        (texts_eq a.cookie_domains b.cookie_domains) (is_bundle a.bundle b.bundle) h in
    grant_ext a b (target_eq-eq _ _ h1) (text_eq-eq _ _ h2) (option_eq-eq _ _ h3)
      (is_browser-eq _ _ h4) (is_scope-eq _ _ h5) (option_eq-eq _ _ h6) (texts_eq-eq _ _ h7)
      (is_bundle-eq _ _ h8)

unfoldable pub result : GrantRecord → AuthSessionResult
result rec = record {
  state = record {
    target = elim rec.grant.target [ window_grant id ↦ window id | domain_grant d ↦ domain d ];
    canonical_domain = rec.grant.domain;
    browser = rec.grant.browser;
    scope = rec.grant.scope;
    decision = rec.decision;
    available = rec.available;
    applied = rec.applied;
    reason = rec.grant.reason;
  };
}
