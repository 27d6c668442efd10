-- ===== src/Protocol/Frame/RoundTrip.antt =====
-- What `encode_frame` makes, and that `decode_frame` reads it back.
use portus_window.Base.{
  ℕ, ◌≤◌, ◌≡◌, some, [], ◌∷◌, ◌++◌, arith, length, ok, strip_suffix_char, Result-cases, inl, inr,
  le→ltb,
}
use portus_window.Protocol.Limits.{max_frame_bytes}
use portus_window.Protocol.Frame.{Bytes, Json, IsFaithful, terminate, encode_frame, decode_frame}

strip_suffix_char-append : (b : Bytes) (c : ℕ) → strip_suffix_char (b ++ c ∷ []) c ≡ some b
unfolding strip_suffix_char
strip_suffix_char-append [] c = ground arith
strip_suffix_char-append (x ∷ []) c = ground arith
strip_suffix_char-append (x ∷ y ∷ b) c = rw (strip_suffix_char-append (y ∷ b) c)

terminate-eq-ok :
    (b frame : Bytes)
    → terminate b ≡ ok frame
    → (frame ≡ b ++ 10 ∷ []) × (length (b ++ 10 ∷ []) ≤ max_frame_bytes)
unfolding terminate
terminate-eq-ok b frame h = ground arith

module _ {A : Type 0} (j : Json A) where
  -- A frame that was encoded is the JSON form and a newline, within the limit.
  pub encode_frame-eq-ok :
      (a : A) (frame : Bytes)
      → encode_frame j a ≡ ok frame
      → (b : Bytes) × (j.to_vec a ≡ ok b)
        × (frame ≡ b ++ 10 ∷ [])
        × (length (b ++ 10 ∷ []) ≤ max_frame_bytes)
  unfolding encode_frame
  encode_frame-eq-ok a frame h = elim (Result-cases (j.to_vec a)) [
    | inl (b, e) ↦ let t = terminate-eq-ok b frame (rw (e, encode_frame) at h) in (b, e, t.0, t.1)
    | inr (m, e) ↦ absurd (ground arith)
  ]

  -- A frame that `encode_frame` returns is decoded to the value that it was made of, if serde_json
  -- reads that value back.
  pub decode_frame-encode_frame :
      (a : A) (frame : Bytes)
      → IsFaithful j a
      → encode_frame j a ≡ ok frame
      → decode_frame j frame ≡ ok a
  unfolding decode_frame
  decode_frame-encode_frame a frame faithful h =
      let (b, e, shape, fits) = encode_frame-eq-ok a frame h in
      rw (shape, le→ltb _ _ fits, strip_suffix_char-append b 10, faithful.reads_back b e)
