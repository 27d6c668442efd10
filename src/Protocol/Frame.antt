-- ===== src/Protocol/Frame.antt =====
-- Frames: one JSON value and a newline (`encode_frame` and `decode_frame` of
-- portus-window-protocol/src/lib.rs). The serializer of serde_json is a parameter.
pub mod RoundTrip
use portus_window.Base.{
  ℕ, ◌≡◌, ◌≢◌, Option, none, some, List, [], ◌∷◌, ◌++◌, if◌then◌else◌, ltb, length, Text, Result,
  ok, err, strip_suffix_char, All,
}
use portus_window.Protocol.Limits.{max_frame_bytes}

abbrev pub Bytes : Type 0
Bytes = List ℕ

pub data FrameError : Type 0 where
  too_large : (actual maximum : ℕ) → FrameError
  invalid_json : (message : Text) → FrameError

-- serde_json at one type.
pub record Json (A : Type 0) : Type 0 where
  pub to_vec : A → Result Text Bytes
  pub from_slice : Bytes → Result Text A

-- What serde_json makes of one value: if it writes it, it reads it back, and its compact form holds no
-- newline. A value that holds a number that is not finite is not of this kind: serde_json writes the
-- number as null.
pub record IsFaithful {A : Type 0} (j : Json A) (a : A) : Type 0 where
  pub reads_back : (b : Bytes) → j.to_vec a ≡ ok b → j.from_slice b ≡ ok a
  pub one_line : (b : Bytes) → j.to_vec a ≡ ok b → All (λ c. c ≢ 10) b

abbrev pub map_err {ℓ} : {A : Type ℓ} → Result Text A → Result FrameError A
map_err (ok a) = ok a
map_err (err e) = err (invalid_json e)

-- The pushed newline and the test on the size.
terminate : Bytes → Result FrameError Bytes
terminate json =
    let encoded = json ++ 10 ∷ [] in
    if ltb max_frame_bytes (length encoded)
    then err (too_large (length encoded) max_frame_bytes)
    else ok encoded

unfoldable pub encode_frame : {A : Type 0} → Json A → A → Result FrameError Bytes
unfolding terminate
encode_frame j value = elim (j.to_vec value) [
  | err e ↦ err (invalid_json e)
  | ok json ↦ terminate json
]

abbrev pub unwrap_or : Option Bytes → Bytes → Bytes
unwrap_or none b = b
unwrap_or (some r) b = r

unfoldable pub decode_frame : {A : Type 0} → Json A → Bytes → Result FrameError A
decode_frame j bytes =
    if ltb max_frame_bytes (length bytes)
    then err (too_large (length bytes) max_frame_bytes)
    else map_err (j.from_slice (unwrap_or (strip_suffix_char bytes 10) bytes))
