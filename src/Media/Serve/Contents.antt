-- ===== src/Media/Serve/Contents.antt =====
-- What bytes a request for content is answered with (portus-window/src/media.rs).
use mathlib.Core.Path.{subst}
use portus_window.Protocol.Windows.{ContentKind}
use Prim.Native.Nat.{min}
use portus_window.Base.{
  ℕ, ◌+◌, ◌-◌, ◌≤◌, ◌<◌, ◌^◌, ◌≡◌, ◌∙◌, refl, sym, ap, ◌⊎◌, inl, inr, false, Option-cases, Option,
  none, some, arith, Text, length, length-take, length-drop, take, drop, ltb, le→ltb, lt→ltb,
  take_all, if◌then◌else◌, ok,
}
use portus_window.Protocol.Frame.{Bytes}
use portus_window.Media.Ranges.{max_media_response_bytes, parse_range, saturating_add, cap_range}
use portus_window.Media.Ranges.Laws.{
  IsWithin, IsAsked, parse_range-IsWithin, parse_range-IsAsked, cap_range-IsWithin,
}
use portus_window.Media.Serve.{
  AdmittedMedia, get, MediaResponse, range_not_satisfiable, read_range, is_image, whole, select,
  content_response, serve_capped, serve_range, serve_content,
}

-- The bytes of the file from the first to the last of a range, or the first 8 MiB of these.
abbrev pub IsSlice : AdmittedMedia → ℕ × ℕ → MediaResponse → Type 0
IsSlice m (start, end) r =
    let n = min (end - start + 1) max_media_response_bytes in
    (r.body ≡ take n (drop start m.file))
    × (r.content_length ≡ some n)
    × (length r.body ≡ n)
    × (start + n ≤ m.info.bytes)
    × (0 < n)

-- Without a range the whole file; with one, the bytes that it asks for, or its refusal if it is none
-- of this file.
abbrev pub IsPart : AdmittedMedia → Option Text → MediaResponse → Type 0
IsPart m none r = IsSlice m (0, m.info.bytes - 1) r
IsPart m (some value) r =
    ((parse_range value m.info.bytes ≡ none) × (r ≡ range_not_satisfiable m.info.bytes))
    ⊎ ((asked : ℕ × ℕ) × IsAsked value m.info.bytes asked × (r.status ≡ 206) × IsSlice m asked r)

read_range-whole :
    (failed : Text) (file : Bytes) (start n : ℕ)
    → start + n ≤ length file
    → read_range failed file start n ≡ ok (take n (drop start file))
unfolding read_range
read_range-whole failed file start n h = rw enough refl
  where
    enough : ltb (length (take n (drop start file))) n ≡ false
    enough =
        le→ltb (length (take n (drop start file))) n
          (omega (arith, length-take n (drop start file), length-drop start file))

whole-IsWithin :
    (kind : ContentKind) (total : ℕ)
    → 0 < total
    → total < 2 ^ 64
    → IsWithin total (whole kind total)
unfolding whole is_image
whole-IsWithin kind total some_bytes small = ground arith

-- The whole is cut no earlier than a response is.
whole-IsSlice :
    (m : AdmittedMedia) (r : MediaResponse)
    → 0 < m.info.bytes
    → m.info.bytes < 2 ^ 64
    → IsSlice m (whole m.info.content_kind m.info.bytes) r
    → IsSlice m (0, m.info.bytes - 1) r
unfolding whole is_image
whole-IsSlice m r some_bytes small h =
    subst
      (λ (s, n).
        (r.body ≡ take n (drop s m.file))
        × (r.content_length ≡ some n)
        × (length r.body ≡ n)
        × (s + n ≤ m.info.bytes)
        × (0 < n))
      (cut m.info.content_kind m.info.bytes some_bytes small) h
  where
    cut :
        (kind : ContentKind) (total : ℕ)
        → 0 < total
        → total < 2 ^ 64
        → ◌≡◌ {A = ℕ × ℕ}
            (
              (whole kind total).0,
              min ((whole kind total).1 - (whole kind total).0 + 1) max_media_response_bytes,
            )
            (0, min (total - 1 - 0 + 1) max_media_response_bytes)
    cut kind total some_bytes small = ground arith

serve_range-IsSlice :
    (failed : Text) (m : AdmittedMedia) (range : Option Text) (s e : ℕ)
    → m.info.bytes < 2 ^ 64
    → length m.file ≡ m.info.bytes
    → IsWithin m.info.bytes (s, e)
    → IsSlice m (s, e) (serve_range failed m (record { method = get; range = range }) (some (s, e)))
unfolding serve_range serve_capped content_response cap_range saturating_add
serve_range-IsSlice failed m range s e small same h =
    let last = (cap_range s e).1 in
    let n = last - s + 1 in
    let (start, within, short, size) = cap_range-IsWithin m.info.bytes s e small h in
    let same_n : n ≡ min (e - s + 1) max_media_response_bytes = ground (arith, h.0, h.1) in
    rw (read_range-whole failed m.file s n (omega (arith, within.0, within.1, same))) (
      ap (λ k. take k (drop s m.file)) same_n,
      ap some same_n,
      omega (
        arith,
        length-take n (drop s m.file),
        length-drop s m.file,
        within.0,
        within.1,
        same,
        same_n,
      ),
      omega (arith, within.0, within.1, same_n),
      omega (arith, same_n),
    )

-- A range is answered as partial content.
serve_range-partial :
    (failed : Text) (m : AdmittedMedia) (value : Text) (s e : ℕ)
    → m.info.bytes < 2 ^ 64
    → length m.file ≡ m.info.bytes
    → IsWithin m.info.bytes (s, e)
    → (serve_range failed m (record { method = get; range = some value }) (some (s, e))).status
      ≡ 206
unfolding serve_range serve_capped content_response cap_range
serve_range-partial failed m value s e small same h =
    let (start, within, short, size) = cap_range-IsWithin m.info.bytes s e small h in
    rw
      (read_range-whole failed m.file s ((cap_range s e).1 - s + 1)
        (omega (arith, within.0, within.1, same)))
      refl

-- A client that gets content of a file that holds at least one byte, and is as long as it was when
-- it was admitted, receives without a range the file from its start, and with one the bytes that its
-- header asks for, with 206: complete, with their length, or the first 8 MiB of these. A header that
-- `parse_range` does not accept is refused.
pub serve_content-IsPart :
    (failed : Text) (m : AdmittedMedia) (range : Option Text)
    → 0 < m.info.bytes
    → m.info.bytes < 2 ^ 64
    → length m.file ≡ m.info.bytes
    → IsPart m range (serve_content failed m (record { method = get; range = range }))
unfolding serve_content select
serve_content-IsPart failed m none some_bytes small same =
    let r = whole m.info.content_kind m.info.bytes in
    let inside = whole-IsWithin m.info.content_kind m.info.bytes some_bytes small in
    let slice = serve_range-IsSlice failed m none r.0 r.1 small same inside in
    whole-IsSlice m (serve_range failed m (record { method = get; range = none }) (some r))
      some_bytes small slice
serve_content-IsPart failed m (some value) some_bytes small same =
    elim (Option-cases (parse_range value m.info.bytes)) [
      | inl q ↦ inl (q, rw q (unfold serve_range in refl))
      | inr ((s, e), q) ↦
          let inside = parse_range-IsWithin value m.info.bytes (s, e) q in
          inr (
            (s, e),
            parse_range-IsAsked value m.info.bytes (s, e) q,
            rw q (serve_range-partial failed m value s e small same inside),
            rw q (serve_range-IsSlice failed m (some value) s e small same inside),
          )
    ]

capped-whole :
    (kind : ContentKind) (total : ℕ)
    → 0 < total
    → total < 2 ^ 64
    → cap_range (whole kind total).0 (whole kind total).1
      ≡ (0, min (total - 1) (max_media_response_bytes - 1))
unfolding cap_range whole is_image saturating_add
capped-whole kind total some_bytes small = ground arith

-- From the start of the file.
serve_capped-start :
    (failed : Text) (m : AdmittedMedia) (k : ℕ)
    → k + 1 ≤ length m.file
    → let r = serve_capped failed m (record { method = get; range = none }) (0, k) in
      (r.status ≡ (if ltb (k + 1) m.info.bytes then 206 else 200)) × (r.body ≡ take (k + 1) m.file)
unfolding serve_capped content_response
serve_capped-start failed m k fits =
    let part = read_range-whole failed m.file 0 (k - 0 + 1) (omega arith) in
    let size : k - 0 + 1 ≡ k + 1 = omega arith in rw part (refl, ap (λ n. take n m.file) size)

serve_range-start :
    (failed : Text) (m : AdmittedMedia) (range : ℕ × ℕ) (k : ℕ)
    → cap_range range.0 range.1 ≡ (0, k)
    → k + 1 ≤ length m.file
    → let r = serve_range failed m (record { method = get; range = none }) (some range) in
      (r.status ≡ (if ltb (k + 1) m.info.bytes then 206 else 200)) × (r.body ≡ take (k + 1) m.file)
unfolding serve_range
serve_range-start failed m range k q fits =
    subst
      (λ c.
        let r = serve_capped failed m (record { method = get; range = none }) c in
        (r.status ≡ (if ltb (k + 1) m.info.bytes then 206 else 200))
        × (r.body ≡ take (k + 1) m.file))
      (sym q) (serve_capped-start failed m k fits)

-- Without a range, a file of at most 8 MiB is sent whole with 200, and of a larger one, an image
-- too, its first 8 MiB with 206.
pub serve_content-no_range :
    (failed : Text) (m : AdmittedMedia)
    → 0 < m.info.bytes
    → m.info.bytes < 2 ^ 64
    → length m.file ≡ m.info.bytes
    → let r = serve_content failed m (record { method = get; range = none }) in
      (m.info.bytes ≤ max_media_response_bytes → (r.status ≡ 200) × (r.body ≡ m.file))
      × (max_media_response_bytes < m.info.bytes
          → (r.status ≡ 206) × (r.body ≡ take max_media_response_bytes m.file))
unfolding serve_content select
serve_content-no_range failed m some_bytes small same =
    let total = m.info.bytes in
    let k = min (total - 1) (max_media_response_bytes - 1) in
    let (status, body) =
      serve_range-start failed m (whole m.info.content_kind total) k
        (capped-whole m.info.content_kind total some_bytes small) (omega (arith, same)) in
    (
      λ fits.
          let size : k + 1 ≡ length m.file = omega (arith, same) in
          (
            status ∙ rw (le→ltb (k + 1) total (omega arith)) refl,
            body ∙ ap (λ n. take n m.file) size ∙ take_all (length m.file) m.file (omega arith),
          ),
      λ large.
          let size : k + 1 ≡ max_media_response_bytes = omega arith in
          (
            status ∙ rw (lt→ltb (k + 1) total (omega arith)) refl,
            body ∙ ap (λ n. take n m.file) size,
          ),
    )
