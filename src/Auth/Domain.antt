-- ===== src/Auth/Domain.antt =====
-- The validation of authentication requests (portus-window/src/auth_session/domain.rs).
-- `url::Host::parse` is a parameter.
pub mod Accepted
use portus_window.Base.{
  ℕ, Bool, true, false, not, ◌&&◌, ◌||◌, Option, none, some, List, [], ◌∷◌, if◌then◌else◌, ◌==◌,
  ltb, leb, length, Text, text, text_eq, len, starts_with, contains, strip_prefix,
  strip_suffix_char, ends_with_char, to_ascii_lower, trim, is_empty, is_whitespace, Result, ok, err,
  ◌>>=◌, ◌>>◌, is_some,
}
use portus_window.Protocol.Auth.{
  AuthSessionAction, AuthSessionTarget, AuthSessionScope, BrowserKind, domain, window, request,
  status, apply, revoke,
}

abbrev pub max_auth_session_domain_chars : ℕ
max_auth_session_domain_chars = 253

abbrev pub max_auth_session_reason_chars : ℕ
max_auth_session_reason_chars = 256

pub data AuthSiteBundle : Type 0 where
  exact_domain you_tube : AuthSiteBundle

pub record ValidatedAuthTarget : Type 0 where
  pub requested_domain : Text
  pub cookie_domains : List Text
  pub bundle : AuthSiteBundle

pub data ValidatedAuthRequest : Type 0 where
  requested :
      (target : Option ValidatedAuthTarget)
      → (window_session_id : Option Text) → (browser : BrowserKind) → (scope : AuthSessionScope)
      → (reason : Option Text) → (presentation_window_session_id : Option Text)
      → ValidatedAuthRequest
  status_of revoke_of :
      (target : Option ValidatedAuthTarget)
      → (window_session_id : Option Text) → ValidatedAuthRequest
  apply_to :
      (target : Option ValidatedAuthTarget)
      → (target_window_session_id : Option Text) → (apply_window_session_id : Text)
      → ValidatedAuthRequest

pub data AuthDomainError : Type 0 where
  blank_domain invalid_domain_shape domain_too_long non_dns_host : AuthDomainError
  blank_reason reason_too_long invalid_window_session_id : AuthDomainError

-- `url::Host`; the addresses are not read.
pub data Host : Type 0 where
  domain_name : Text → Host
  ipv4 ipv6 : Host

unfoldable pub all_char : (ℕ → Bool) → Text → Bool
all_char p [] = true
all_char p (c ∷ s) = p c && all_char p s

abbrev pub is_hex : ℕ → Bool
is_hex c = (leb b'0' c && leb c b'9') || (leb b'a' c && leb c b'f')

check_suffix : Option Text → Result AuthDomainError (Unit {0})
check_suffix none = err invalid_window_session_id
check_suffix (some suffix) =
    if not (len suffix == 32) || not (all_char is_hex suffix)
    then err invalid_window_session_id
    else ok tt

-- A byte that is a digit or a letter is the whole of its character, so the test of all bytes is one
-- of all characters.
unfoldable pub validate_window_session_id : Text → Result AuthDomainError (Unit {0})
unfolding check_suffix
validate_window_session_id value = check_suffix (strip_prefix value (text "wsess_"))

unfoldable pub validate_reason : Option Text → Result AuthDomainError (Option Text)
validate_reason none = ok none
validate_reason (some reason) =
    if is_empty (trim reason)
    then err blank_reason
    else if ltb max_auth_session_reason_chars (length (trim reason))
    then err reason_too_long
    else ok (some (trim reason))

unfoldable pub is_youtube : Text → Bool
is_youtube d =
    text_eq d (text "youtube.com")
    || text_eq d (text "www.youtube.com")
    || text_eq d (text "m.youtube.com")
    || text_eq d (text "music.youtube.com")
    || text_eq d (text "youtu.be")

unfoldable pub youtube_bundle : Text → Option (AuthSiteBundle × Text × List Text)
unfolding is_youtube
youtube_bundle d = if is_youtube d then some (you_tube, d, text "youtube.com" ∷ []) else none

-- What no host contains, and the spaces around one.
unfoldable pub is_misshapen : Text → Bool
is_misshapen input =
    not (text_eq input (trim input))
    || contains input (text "//")
    || contains input (text "/")
    || contains input (text "\\")
    || contains input (text "@")
    || contains input (text ":")
    || contains input (text "*")
    || starts_with input (text ".")
    || contains input (text "?")
    || contains input (text "#")

unfoldable pub without_final_dot : Text → Text
without_final_dot input = elim (strip_suffix_char input b'.') [ none ↦ input | some s ↦ s ]

bundled : Text → Option (AuthSiteBundle × Text × List Text) → ValidatedAuthTarget
bundled canonical none = record {
  requested_domain = canonical;
  cookie_domains = canonical ∷ [];
  bundle = exact_domain;
}
bundled canonical (some (b, d, cookies)) = record {
  requested_domain = d;
  cookie_domains = cookies;
  bundle = b;
}

unfoldable pub check_canonical : Text → Result AuthDomainError ValidatedAuthTarget
unfolding youtube_bundle bundled
check_canonical canonical =
    if ltb max_auth_session_domain_chars (len canonical)
    then err domain_too_long
    else if not (contains canonical (text "."))
    then err non_dns_host
    else ok (bundled canonical (youtube_bundle canonical))

unfoldable pub check_host : Option Host → Result AuthDomainError ValidatedAuthTarget
unfolding check_canonical
check_host none = err invalid_domain_shape
check_host (some (domain_name d)) = check_canonical (to_ascii_lower d)
check_host (some ipv4) = err non_dns_host
check_host (some ipv6) = err non_dns_host

-- Both identities of a window in one request, or neither.
unfoldable pub check_presentation :
    Option ValidatedAuthTarget → Option Text → Option Text → Result AuthDomainError (Unit {0})
check_presentation target window_session_id presentation =
    if is_some window_session_id && is_some presentation
    then err invalid_window_session_id
    else if is_some target && not (is_some presentation)
    then err invalid_window_session_id
    else ok tt

unfoldable pub check_optional_id : Option Text → Result AuthDomainError (Unit {0})
unfolding validate_window_session_id
check_optional_id none = ok tt
check_optional_id (some id) = validate_window_session_id id

unfoldable pub check_expected : Option Text → Text → Result AuthDomainError (Unit {0})
check_expected none id = ok tt
check_expected (some expected) id =
    if not (text_eq expected id) then err invalid_window_session_id else ok tt

-- `parse_host` is `url::Host::parse`, its error forgotten as the code forgets it.
module _ (parse_host : Text → Option Host) where
  unfoldable pub validate_domain : Text → Result AuthDomainError ValidatedAuthTarget
  unfolding is_misshapen without_final_dot check_host
  validate_domain input =
      let host = without_final_dot input in
      if is_empty input || all_char is_whitespace input
      then err blank_domain
      else if is_misshapen input
      then err invalid_domain_shape
      else if is_empty host || ends_with_char host b'.'
      then err invalid_domain_shape
      else check_host (parse_host host)

  unfoldable pub validate_target :
      AuthSessionTarget → Result AuthDomainError (Option ValidatedAuthTarget × Option Text)
  unfolding validate_domain validate_window_session_id
  validate_target (domain d) = do t ← validate_domain d; ok (some t, none)
  validate_target (window id) = do validate_window_session_id id; ok (none, some id)

  unfoldable pub validate_action : AuthSessionAction → Result AuthDomainError ValidatedAuthRequest
  unfolding validate_target validate_reason check_optional_id check_presentation check_expected
  validate_action (request target browser scope reason presentation) = do
    (t, id) ← validate_target target
    r ← validate_reason reason
    check_optional_id presentation
    check_presentation t id presentation
    ok (requested t id browser scope r presentation)
  validate_action (status target) = do (t, id) ← validate_target target; ok (status_of t id)
  validate_action (apply target window_session_id) = do
    (t, id) ← validate_target target
    validate_window_session_id window_session_id
    check_expected id window_session_id
    ok (apply_to t id window_session_id)
  validate_action (revoke target) = do (t, id) ← validate_target target; ok (revoke_of t id)
