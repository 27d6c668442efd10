-- ===== src/Tests/Frames.antt =====
-- Frames and connections (portus-window-protocol/src/lib.rs and portus-window/src/ipc.rs).
use portus_window.Base.{
  ℕ, zero, suc, ◌≡◌, ◌≢◌, refl, ap, none, [], ◌∷◌, ◌++◌, arith, Text, text, length, All, Result, ok,
  err, if◌then◌else◌, ◌==◌,
}
use portus_window.Protocol.Requests.{Request, ping, request_version, ping_request}
use portus_window.Protocol.Responses
use portus_window.Protocol.Responses.{Response, success, failure, internal, version_mismatch}
use portus_window.Protocol.Frame.{Bytes, too_large, Json, IsFaithful, encode_frame, decode_frame}
use portus_window.Ipc.Reading
use portus_window.Ipc.Reading.{
  IoError, invalid_data, Ending, closed, stalled, read_frame, at_end, FrameReadError,
  missing_terminator,
}
use portus_window.Ipc.Reading.Frames.{read_frame-long}
use portus_window.Ipc.Connection.{Handler, handle_connection, send, version_text}
use portus_window.Ipc.Connection.Replies.{
  handle_connection-answers, handle_connection-version_mismatch, handle_connection-unanswered,
}

-- A number in unary.
abbrev ones : ℕ → Bytes
ones zero = []
ones (suc n) = 0x31 ∷ ones n

length-ones : (n : ℕ) → length (ones n) ≡ n
length-ones zero = refl
length-ones (suc n) = ap suc (length-ones n)

ones-IsLine : (n : ℕ) → All (λ c. c ≢ 10) (ones n)
ones-IsLine zero = tt
ones-IsLine (suc n) = (λ e. omega arith, ones-IsLine n)

-- A serializer that knows pings, and one of responses that carry a number.
abbrev write_request : Request → Result Text Bytes
write_request (ping v) = ok (ones v)
write_request _ = err (text "unknown request")

abbrev pub requests : Json Request
requests = record { to_vec = write_request; from_slice = λ b. ok (ping (length b)) }

-- Responses that carry a number, in unary.
abbrev write_response : Response ℕ → Result Text Bytes
write_response (Responses.ok v n) = if v == 7 then ok (ones n) else err (text "another version")
write_response (Responses.error v e) = err (text "an error")

abbrev pub responses : Json (Response ℕ)
responses = record { to_vec = write_response; from_slice = λ b. ok (success (length b)) }

written_request :
    (r : Request) (b : Bytes) → write_request r ≡ ok b → (v : ℕ) × (r ≡ ping v) × (b ≡ ones v)
written_request r b h = ground arith

written_response :
    (r : Response ℕ) (b : Bytes)
    → write_response r ≡ ok b
    → (n : ℕ) × (r ≡ success n) × (b ≡ ones n)
written_response r b h = ground arith

requests-reads_back :
    (r : Request) (b : Bytes)
    → write_request r ≡ ok b
    → ◌≡◌ {A = Result Text Request} (ok (ping (length b))) (ok r)
requests-reads_back r b h = let (v, e, q) = written_request r b h in rw (e, q, length-ones v) refl

requests-one_line : (r : Request) (b : Bytes) → write_request r ≡ ok b → All (λ c. c ≢ 10) b
requests-one_line r b h = let (v, e, q) = written_request r b h in rw q (ones-IsLine v)

pub requests-IsFaithful : (r : Request) → IsFaithful requests r
requests-IsFaithful r = record {
  reads_back = requests-reads_back r;
  one_line = requests-one_line r;
}

responses-reads_back :
    (r : Response ℕ) (b : Bytes)
    → write_response r ≡ ok b
    → ◌≡◌ {A = Result Text (Response ℕ)} (ok (success (length b))) (ok r)
responses-reads_back r b h = let (n, e, q) = written_response r b h in rw (e, q, length-ones n) refl

responses-one_line : (r : Response ℕ) (b : Bytes) → write_response r ≡ ok b → All (λ c. c ≢ 10) b
responses-one_line r b h = let (n, e, q) = written_response r b h in rw q (ones-IsLine n)

pub responses-IsFaithful : (r : Response ℕ) → IsFaithful responses r
responses-IsFaithful r = record {
  reads_back = responses-reads_back r;
  one_line = responses-one_line r;
}

abbrev ping_frame : Bytes
ping_frame = ones 7 ++ 10 ∷ []

ping_frame-eq : encode_frame requests ping_request ≡ ok ping_frame
unfolding encode_frame
ping_frame-eq = refl

-- A handler that answers with a number.
abbrev pub numbered : ℕ → Handler ℕ
numbered n r = success n

handle_connection-answers_example :
    (handle_connection requests responses (ping_frame ++ text "more") stalled none (numbered 2)
      ≡ ok (ones 2 ++ 10 ∷ []))
    × (decode_frame responses (ones 2 ++ 10 ∷ []) ≡ ok (success 2))
unfolding encode_frame request_version
handle_connection-answers_example =
    handle_connection-answers requests responses ping_request ping_frame (ones 2 ++ 10 ∷ [])
      (text "more") stalled (numbered 2) (requests-IsFaithful ping_request)
      (responses-IsFaithful (success 2)) refl ping_frame-eq refl

handle_connection-version_mismatch_example :
    handle_connection requests responses (ones 6 ++ 10 ∷ []) closed none (numbered 2)
    ≡ send requests responses none (failure version_mismatch (version_text 6))
unfolding encode_frame request_version
handle_connection-version_mismatch_example =
    handle_connection-version_mismatch requests responses (ping 6) (ones 6 ++ 10 ∷ []) [] closed
      none (numbered 2) (requests-IsFaithful (ping 6)) (λ e. omega arith) refl

-- A response of one byte too many.
overlong : encode_frame responses (success 65536) ≡ err (too_large 65537 65536)
unfolding encode_frame
overlong = refl

handle_connection-unanswered_example :
    handle_connection requests responses ping_frame closed none (numbered 65536)
    ≡ err (invalid_data (too_large 65537 65536))
unfolding request_version
handle_connection-unanswered_example =
    handle_connection-unanswered requests responses ping_request ping_frame [] closed
      (numbered 65536) (too_large 65537 65536) (requests-IsFaithful ping_request) refl ping_frame-eq
      overlong

read_frame-long_example : read_frame (ones 65537 ++ text "more") closed ≡ err Reading.too_large
read_frame-long_example =
    read_frame-long (ones 65537) (text "more") closed (ones-IsLine 65537)
      (omega (arith, length-ones 65537))

read_frame_missing : read_frame (ones 3) closed ≡ err missing_terminator
unfolding read_frame
read_frame_missing = refl
