-- ===== src/Media/Registry/Tokens.antt =====
-- The registry of tokens stays consistent, and a token opens its file to its window alone
-- (portus-window/src/media.rs).
use mathlib.Core.Path.{subst}
use portus_window.Base.{
  ◌≡◌, ◌∙◌, sym, ap, inl, inr, true, false, Option, none, some, List, [], ◌∷◌, arith, Text, text_eq,
  text_eq-false, text_eq_refl, Option-cases,
}
use portus_window.Base.OrdMap.{text_key, get, contains_key, insert, remove}
use portus_window.Base.OrdMap.Laws.{
  get-insert-some, get-insert_same, get-insert_other, get-remove-some, get-remove_other,
}
use portus_window.Protocol.Frame.{Bytes}
use portus_window.Media.Serve.{AdmittedMediaInfo, AdmittedMedia}
use portus_window.Media.Registry.{MediaRegistry, free_token, enter, admit, revoke_window}

-- The two maps are inverse to each other.
pub record IsPaired (r : MediaRegistry) : Type 0 where
  pub owner :
      (window token : Text)
      → get window r.by_window ≡ some token
      → (m : AdmittedMedia) × (get token r.by_token ≡ some m) × (m.window_session_id ≡ window)
  pub token :
      (token : Text) (m : AdmittedMedia)
      → get token r.by_token ≡ some m
      → (get m.window_session_id r.by_window ≡ some token) × (m.info.token ≡ token)

none-some : {A : Type 0} {a : A} → ◌≡◌ {A = Option A} none (some a) → ⊥
none-some e = cc

some_injective : {A : Type 0} {a b : A} → some a ≡ some b → a ≡ b
some_injective e = cc

free_token-free :
    (r : MediaRegistry) (drawn : List Text) (token : Text)
    → free_token r drawn ≡ some token
    → get token r.by_token ≡ none
unfolding free_token contains_key
free_token-free r [] token h = absurd cc
free_token-free r (c ∷ drawn) token h = elim (Option-cases (get c r.by_token)) [
  | inl free ↦
      let q : some c ≡ some token = (rw free at h) in
      let e : c ≡ token = cc in subst (λ t. get t r.by_token ≡ none) e free
  | inr (m, e) ↦ free_token-free r drawn token (rw e at h)
]

enter-IsPaired :
    (r : MediaRegistry) (window : Text) (info : AdmittedMediaInfo) (file : Bytes) (token : Text)
    → get window r.by_window ≡ none
    → get token r.by_token ≡ none
    → IsPaired r
    → IsPaired (enter r window info file token).1
unfolding enter
enter-IsPaired r window info file token new free v = record { owner = owned; token = named }
  where
    m : AdmittedMedia
    m = record { window_session_id = window; info = record info { token = token }; file = file }

    fresh_token :
        (t : Text) (x : AdmittedMedia) → get t r.by_token ≡ some x → text_eq token t ≡ false
    fresh_token t x e =
        text_eq-false token t
          (λ q. absurd (none-some (sym (subst (λ y. get y r.by_token ≡ none) q free) ∙ e)))

    fresh_window : (w t : Text) → get w r.by_window ≡ some t → text_eq window w ≡ false
    fresh_window w t e =
        text_eq-false window w
          (λ q. absurd (none-some (sym (subst (λ y. get y r.by_window ≡ none) q new) ∙ e)))

    owned :
        (w t : Text)
        → get w (insert window token r.by_window) ≡ some t
        → (x : AdmittedMedia) × (get t (insert token m r.by_token) ≡ some x)
          × (x.window_session_id ≡ w)
    owned w t h = elim (get-insert-some window w token t r.by_window h) [
      | inl (here, e) ↦ (
        m,
        subst (λ y. get y (insert token m r.by_token) ≡ some m) e
            (get-insert_same token m r.by_token),
        here,
      )
      | inr (other, e) ↦
          let (x, at_t, own) = v.owner w t e in
          (x, get-insert_other token t m r.by_token (fresh_token t x at_t) ∙ at_t, own)
    ]

    named :
        (t : Text) (x : AdmittedMedia)
        → get t (insert token m r.by_token) ≡ some x
        → (get x.window_session_id (insert window token r.by_window) ≡ some t) × (x.info.token ≡ t)
    named t x h = elim (get-insert-some token t m x r.by_token h) [
      | inl (et, ex) ↦ (
        subst (λ y. get y.window_session_id (insert window token r.by_window) ≡ some t) ex
            (get-insert_same window token r.by_window ∙ ap some et),
        ap (λ y. y.info.token) (sym ex) ∙ et,
      )
      | inr (other, e) ↦
          let (own, same) = v.token t x e in
          (
            get-insert_other window x.window_session_id token r.by_window
                  (fresh_window x.window_session_id t own)
                ∙ own,
            same,
          )
    ]

-- The registry without one pair.
removed-IsPaired :
    (r : MediaRegistry) (window token : Text)
    → get window r.by_window ≡ some token
    → IsPaired r
    → IsPaired
        (record { by_token = remove token r.by_token; by_window = remove window r.by_window })
removed-IsPaired r window token h v = record { owner = owned; token = named }
  where
    other_token :
        (w t : Text) (x : AdmittedMedia)
        → text_eq window w ≡ false
        → get t r.by_token ≡ some x
        → x.window_session_id ≡ w
        → text_eq token t ≡ false
    other_token w t x other at_t own = text_eq-false token t λ q.
        let (y, at_token, owner) = v.owner window token h in
        let e : y ≡ x = some_injective (sym at_token ∙ ap (λ z. get z r.by_token) q ∙ at_t) in
        let d : window ≡ w = sym owner ∙ ap (λ z. z.window_session_id) e ∙ own in
        absurd (ground (arith, other, subst (λ z. text_eq window z ≡ true) d (text_eq_refl window)))

    other_window :
        (t : Text) (x : AdmittedMedia)
        → text_eq token t ≡ false
        → get x.window_session_id r.by_window ≡ some t
        → text_eq window x.window_session_id ≡ false
    other_window t x other own = text_eq-false window x.window_session_id λ q.
        let e : token ≡ t = some_injective (sym h ∙ ap (λ z. get z r.by_window) q ∙ own) in
        absurd (ground (arith, other, subst (λ z. text_eq token z ≡ true) e (text_eq_refl token)))

    owned :
        (w t : Text)
        → get w (remove window r.by_window) ≡ some t
        → (x : AdmittedMedia) × (get t (remove token r.by_token) ≡ some x)
          × (x.window_session_id ≡ w)
    owned w t e =
        let (other, at_w) = get-remove-some window w t r.by_window e in
        let (x, at_t, own) = v.owner w t at_w in
        (x, get-remove_other token t r.by_token (other_token w t x other at_t own) ∙ at_t, own)

    named :
        (t : Text) (x : AdmittedMedia)
        → get t (remove token r.by_token) ≡ some x
        → (get x.window_session_id (remove window r.by_window) ≡ some t) × (x.info.token ≡ t)
    named t x e =
        let (other, at_t) = get-remove-some token t x r.by_token e in
        let (own, same) = v.token t x at_t in
        (
          get-remove_other window x.window_session_id r.by_window (other_window t x other own)
              ∙ own,
          same,
        )

pub revoke_window-IsPaired :
    (r : MediaRegistry) (window : Text) → IsPaired r → IsPaired (revoke_window r window).1
unfolding revoke_window
revoke_window-IsPaired r window v = elim (Option-cases (get window r.by_window)) [
  | inl e ↦ rw (e, revoke_window) v
  | inr (token, e) ↦ rw (e, revoke_window) (removed-IsPaired r window token e v)
]

pub admit-IsPaired :
    (r : MediaRegistry) (window : Text) (info : AdmittedMediaInfo) (file : Bytes)
    (drawn : List Text)
    → IsPaired r
    → IsPaired (admit r window info file drawn).1
unfolding admit contains_key
admit-IsPaired r window info file drawn v = elim (Option-cases (get window r.by_window)) [
  | inr (token, e) ↦ rw (e, admit) v
  | inl new ↦ elim (Option-cases (free_token r drawn)) [
    | inl e ↦ rw (new, admit, e) v
    | inr (token, e) ↦
        rw (new, admit, e)
          (enter-IsPaired r window info file token new (free_token-free r drawn token e) v)
  ]
]
