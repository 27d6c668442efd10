-- ===== src/Window/Validate/Accepted.antt =====
-- What the validation of inputs accepts (portus-window/src/window_core.rs).
use mathlib.Core.Path.{subst}
use portus_window.Base.{
  ltb→lt, decimal, ◌++◌, ℕ, ◌≤◌, ◌<◌, ◌≡◌, ◌≢◌, ◌↔◌, ◌∙◌, refl, ap, ◌⊎◌, inl, inr, false, Option,
  none, some, [], ◌∷◌, arith, Text, text, text_eq, text_eq-eq, text_eq_refl, len, length, trim,
  trim_idem, is_empty, Bool-cases, ltb, Result, ok, err, ltb→le,
}
use portus_window.Protocol.Limits.{max_description_chars, max_url_chars}
use portus_window.Window.Errors.{WindowCoreError, validation}
use portus_window.Window.Validate.{
  ResizeSpec, validate_resize, check_side, validate_description, check_description, Url,
  validate_url, parsed_url, check_scheme,
}

-- A side that is given lies between 1 and 16384.
abbrev pub IsSide : Option ℕ → Type 0
IsSide none = Unit
IsSide (some n) = (0 < n) × (n ≤ 16384)

check_side-IsSide : (m : Text) (o : Option ℕ) → (check_side m o ≡ ok tt) ↔ IsSide o
unfolding check_side
check_side-IsSide m none = ground arith
check_side-IsSide m (some n) = ground arith

-- `validate` of a resize accepts exactly the sizes whose sides, where given, lie between 1 and
-- 16384.
pub validate_resize-IsSide :
    (spec : ResizeSpec) → (validate_resize spec ≡ ok tt) ↔ (IsSide spec.width × IsSide spec.height)
unfolding validate_resize
validate_resize-IsSide spec = ground (
  arith,
  check_side-IsSide (text "width must be between 1 and 16384") spec.width,
  check_side-IsSide (text "height must be between 1 and 16384") spec.height,
)

check_description-cases :
    (t : Text)
    → ((check_description t ≡ ok none) × (t ≡ []))
      ⊎ (((check_description t ≡ ok (some t)) × (t ≢ []) × (length t ≤ max_description_chars))
          ⊎ ((e : WindowCoreError) × (check_description t ≡ err e)))
unfolding check_description
check_description-cases [] = inl (refl, refl)
check_description-cases (c ∷ t) = elim (Bool-cases (ltb max_description_chars (length (c ∷ t)))) [
  | inl long ↦ inr (
      inr (
        validation (
            text "description must be at most "
            ++ (decimal max_description_chars ++ text " characters")),
        rw long refl,
      ))
  | inr short ↦ inr (inl (rw short refl, (λ e. cc), ltb→le _ _ short))
]

-- A description is accepted with its spaces trimmed, as none if that leaves nothing, and otherwise
-- only with at most 256 characters; what is accepted is accepted again, unchanged.
pub validate_description-accepted :
    (d : Text) (o : Option Text)
    → validate_description (some d) ≡ ok o
    → ((o ≡ none) × (trim d ≡ []))
      ⊎ ((o ≡ some (trim d))
          × (trim d ≢ [])
          × (length (trim d) ≤ max_description_chars)
          × (validate_description o ≡ ok o))
unfolding validate_description
validate_description-accepted d o h = elim (check_description-cases (trim d)) [
  | inl (e, nil) ↦ inl (cc, nil)
  | inr (inl (e, some_left, short)) ↦
      let q : o ≡ some (trim d) = cc in inr (q, some_left, short, rw (q, trim_idem d) e)
  | inr (inr (x, e)) ↦ absurd cc
]

abbrev IsWeb : Url → Type 0
IsWeb u = (u.scheme ≡ text "http") ⊎ (u.scheme ≡ text "https")

check_scheme-cases :
    (u : Url)
    → (IsWeb u × (check_scheme u ≡ ok u))
      ⊎ ((IsWeb u → ⊥) × ((e : WindowCoreError) × (check_scheme u ≡ err e)))
unfolding check_scheme
check_scheme-cases u = elim (Bool-cases (text_eq u.scheme (text "http"))) [
  | inl http ↦ inl (inl (text_eq-eq _ _ http), rw http refl)
  | inr other ↦ elim (Bool-cases (text_eq u.scheme (text "https"))) [
    | inl https ↦ inl (inr (text_eq-eq _ _ https), rw (other, https) refl)
    | inr neither ↦ inr (neither_scheme other neither, refused other neither)
  ]
]
  where
    neither_scheme :
        text_eq u.scheme (text "http") ≡ false
        → text_eq u.scheme (text "https") ≡ false
        → IsWeb u
        → ⊥
    neither_scheme h k (inl e) = cc (text_eq_refl u.scheme)
    neither_scheme h k (inr e) = cc (text_eq_refl u.scheme)

    refused :
        text_eq u.scheme (text "http") ≡ false
        → text_eq u.scheme (text "https") ≡ false
        → (e : WindowCoreError) × (check_scheme u ≡ err e)
    refused h k = elim (Bool-cases (text_eq u.scheme (text "file"))) [
      | inl file ↦ (
        validation (text "file:// URLs are not permitted; pass the local media path directly"),
        rw (h, k, file) refl,
      )
      | inr other ↦
          (validation (text "only http and https URLs are permitted"), rw (h, k, other) refl)
    ]

parsed_url-ok : (p : Result Text Url) (u : Url) → (parsed_url p ≡ ok u) ↔ ((p ≡ ok u) × IsWeb u)
unfolding parsed_url
parsed_url-ok (ok v) u = elim (check_scheme-cases v) [
  | inl (web, e) ↦ (
    λ h. let q : v ≡ u = cc in (ap ok q, subst IsWeb q web),
    λ h. let q : v ≡ u = cc in e ∙ ap ok q,
  )
  | inr (other, (x, e)) ↦
      (λ h. absurd cc, λ h. let q : u ≡ v = cc in absurd (other (subst IsWeb q h.1)))
]
parsed_url-ok (err e) u = (λ h. absurd cc, λ h. absurd cc)

-- A URL is accepted exactly if it parses without the spaces around it, these being at most 4096
-- bytes and at least one, and its scheme is http or https.
pub validate_url-accepted :
    (parse : Text → Result Text Url) (url : Text) (u : Url)
    → (validate_url parse url ≡ ok u) ↔ (
        (is_empty (trim url) ≡ false)
        × (len (trim url) ≤ max_url_chars)
        × (parse (trim url) ≡ ok u)
        × ((u.scheme ≡ text "http") ⊎ (u.scheme ≡ text "https")))
unfolding validate_url
validate_url-accepted parse url u = elim (Bool-cases (is_empty (trim url))) [
  | inl blank ↦ (λ h. absurd (no_error (rw blank at h)), λ h. absurd (ground arith))
  | inr filled ↦ elim (Bool-cases (ltb max_url_chars (len (trim url)))) [
    | inl long ↦ (
      λ h. absurd (no_error (rw (filled, long) at h)),
      λ h. absurd (omega (arith, h.1, ltb→lt _ _ long)),
    )
    | inr short ↦
        let p = parsed_url-ok (parse (trim url)) u in
        (
          λ h. let q = p.0 (rw (filled, short) at h) in (filled, ltb→le _ _ short, q.0, q.1),
          λ h. rw (filled, short) (p.1 (h.2, h.3)),
        )
  ]
]
  where
    no_error : {e : WindowCoreError} → err e ≡ ok u → ⊥
    no_error h = cc
