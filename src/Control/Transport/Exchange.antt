-- ===== src/Control/Transport/Exchange.antt =====
-- A message that is written is read again, and nothing of what follows it.
use vertex_testbed.Control.Transport.Chunks.{NotNewline, split_line_joined}
use vertex_testbed.Control.Transport.Blob.{read_blob_total}
use vertex_testbed.Control.Transport.{
  is_length, checked_payload, StreamReader, joined, received, read_line, read_request,
  read_response, write_response, read_blob, stream_limit, split_line,
}
use vertex_testbed.Control.Protocol.{
  Json, Request, Response, Kind, json, blob, encode_request, encode_response, decode_request,
  decode_response, parse, check_version, newline, protocol_version, max_line,
}
use vertex_testbed.Common.{
  Bool-cases, Result-cases, inr, length-append, inl, ◌⊎◌, drop-length_append, ==_iff, result_or,
  take-length_append, List, [], ◌∷◌, ℕ, Option, none, some, Result, ok, err, true, false, ◌++◌, ◌≡◌,
  ltb, length, ◌≤◌, refl, All, arith, ap, sym, ◌∙◌, take, drop, Exception,
}
use vertex_testbed.Common.Bytes.{Bytes}
use vertex_testbed.Common.Int.{ℤ, pos, negsuc}
use mathlib.Core.List.{append_assoc}

-- What the source relies on of `json` and pydantic: a document that a model was dumped to comes
-- back from its text, which holds no newline, is an object with the model's version, and is valid.
pub record Faithful {Doc Args : Type 0} (lib : Json Doc Args) : Type 0 where
  pub loads_request :
      (r : Request Args) → lib.loads (lib.dumps (lib.dump_request r)) ≡ some (lib.dump_request r)
  pub loads_response :
      (r : Response Args) → lib.loads (lib.dumps (lib.dump_response r)) ≡ some (lib.dump_response r)
  pub request_one_line : (r : Request Args) → All NotNewline (lib.dumps (lib.dump_request r))
  pub response_one_line : (r : Response Args) → All NotNewline (lib.dumps (lib.dump_response r))
  pub request_object : (r : Request Args) → lib.is_object (lib.dump_request r) ≡ true
  pub response_object : (r : Response Args) → lib.is_object (lib.dump_response r) ≡ true
  pub request_version : (r : Request Args) → lib.version_of (lib.dump_request r) ≡ r.version
  pub response_version : (r : Response Args) → lib.version_of (lib.dump_response r) ≡ r.version
  pub request_valid : (r : Request Args) → lib.validate_request (lib.dump_request r) ≡ some r
  pub response_valid : (r : Response Args) → lib.validate_response (lib.dump_response r) ≡ some r

abbrev ReadsLine : StreamReader → Bytes → Bytes → Type 0
ReadsLine r line tail =
    (rest : List Bytes) × (read_line r ≡ ok (some line, record r { arriving = rest }))
    × (joined rest ≡ tail)

read_line_received :
    (r : StreamReader) (line tail : Bytes)
    → All NotNewline line
    → length line ≤ stream_limit
    → received r ≡ line ++ (newline ∷ tail)
    → ReadsLine r line tail
unfolding read_line
read_line_received r line tail h k e = found (split_line_joined r.arriving line tail h e)
  where
    short : ltb stream_limit (length line) ≡ false
    short = ground arith

    found :
        (rest : List Bytes) × (split_line r.arriving ≡ some (line, rest)) × (joined rest ≡ tail)
        → ReadsLine r line tail
    found (rest, q, eq) = (rest, rw (q, read_line) (rw short refl), eq)

-- The payload of a response of the kind.
abbrev pub payload_of : Kind → Option Bytes → Bytes
payload_of json payload = []
payload_of blob none = []
payload_of blob (some payload) = payload

-- `if resp.kind == "blob"` of `ControlClient.call`
abbrev pub read_payload : Kind → ℤ → StreamReader → Result (Bytes × StreamReader)
read_payload json n r = ok ([], r)
read_payload blob n r = read_blob r n

abbrev PayloadRead : Kind → ℤ → Option Bytes → StreamReader → Bytes → Type 0
PayloadRead kind n payload r tail =
    (rest : List Bytes) × (read_payload kind n r
      ≡ ok (payload_of kind payload, record r { arriving = rest }))
    × (joined rest ≡ tail)

is_length-length : (n : ℤ) (m : ℕ) → is_length n m ≡ true → n ≡ pos m
is_length-length (pos n) m h = ap pos ((==_iff n m).0 h)
is_length-length (negsuc n) m h = absurd (ground arith)

read_blob_whole :
    (payload : Bytes) (r : StreamReader) (tail : Bytes)
    → received r ≡ payload ++ tail
    → PayloadRead blob (pos (length payload)) (some payload) r tail
read_blob_whole payload r tail e = go (
    (read_blob_total (length payload) r).0 (omega (arith, length-append payload tail, ap length e)))
  where
    go :
        (rest : List Bytes) × (read_blob r (pos (length payload))
            ≡ ok (take (length payload) (received r), record r { arriving = rest }))
          × (joined rest ≡ drop (length payload) (received r))
        → PayloadRead blob (pos (length payload)) (some payload) r tail
    go (rest, q, eq) = (
      rest,
      q
          ∙ ap (λ b. ok (b, record r { arriving = rest }))
              (ap (take (length payload)) e ∙ take-length_append payload tail),
      eq ∙ ap (drop (length payload)) e ∙ drop-length_append payload tail,
    )

read_payload_checked :
    (kind : Kind) (n : ℤ) (payload : Option Bytes) (sent : Bytes) (r : StreamReader) (tail : Bytes)
    → checked_payload kind n payload ≡ ok sent
    → received r ≡ sent ++ tail
    → PayloadRead kind n payload r tail
unfolding checked_payload
read_payload_checked json n payload sent r tail w e =
    let none_sent : [] ≡ sent = ap (λ x. result_or x []) w in
    (r.arriving, refl, e ∙ ap (λ s. s ++ tail) (sym none_sent))
read_payload_checked blob n none sent r tail w e = absurd (ground arith)
read_payload_checked blob n (some payload) sent r tail w e =
    go (Bool-cases (is_length n (length payload)))
  where
    go :
        (is_length n (length payload) ≡ true) ⊎ (is_length n (length payload) ≡ false)
        → PayloadRead blob n (some payload) r tail
    go (inl t) =
        let all_sent : payload ≡ sent = ap (λ x. result_or x []) (rw t at w) in
        rw (is_length-length n (length payload) t)
          (read_blob_whole payload r tail (e ∙ ap (λ s. s ++ tail) (sym all_sent)))
    go (inr f) = let bad : err Exception.value_error ≡ ok sent = rw f at w in absurd (ground arith)

module _ {Doc Args : Type 0} (lib : Json Doc Args) (laws : Faithful lib) where
  decode_request-dumps :
      (req : Request Args)
      → req.version ≡ protocol_version
      → length (lib.dumps (lib.dump_request req)) ≤ stream_limit
      → decode_request lib (lib.dumps (lib.dump_request req)) ≡ ok req
  unfolding decode_request parse check_version
  decode_request-dumps req v k =
      let short : ltb max_line (length (lib.dumps (lib.dump_request req))) ≡ false = ground arith in
      rw short (
        rw (laws.loads_request req) (
          rw (laws.request_object req)
            (rw (laws.request_version req ∙ v) (rw (laws.request_valid req) refl))))

  decode_response-dumps :
      (resp : Response Args)
      → resp.version ≡ protocol_version
      → length (lib.dumps (lib.dump_response resp)) ≤ stream_limit
      → decode_response lib (lib.dumps (lib.dump_response resp)) ≡ ok resp
  unfolding decode_response parse check_version
  decode_response-dumps resp v k =
      let short : ltb max_line (length (lib.dumps (lib.dump_response resp))) ≡ false =
        ground arith in
      rw short (
        rw (laws.loads_response resp) (
          rw (laws.response_object resp)
            (rw (laws.response_version resp ∙ v) (rw (laws.response_valid resp) refl))))

  pub read_request_received :
      (r : StreamReader) (req : Request Args) (tail : Bytes)
      → req.version ≡ protocol_version
      → length (lib.dumps (lib.dump_request req)) ≤ stream_limit
      → received r ≡ encode_request lib req ++ tail
      → (rest : List Bytes) × (read_request lib r ≡ ok (some req, record r { arriving = rest }))
        × (joined rest ≡ tail)
  unfolding read_request encode_request
  read_request_received r req tail v k e = go (
      read_line_received r (lib.dumps (lib.dump_request req)) tail (laws.request_one_line req) k
        (e ∙ append_assoc (lib.dumps (lib.dump_request req)) (newline ∷ []) tail))
    where
      go :
          ReadsLine r (lib.dumps (lib.dump_request req)) tail
          → (rest : List Bytes) × (read_request lib r ≡ ok (some req, record r { arriving = rest }))
            × (joined rest ≡ tail)
      go (rest, q, eq) = (rest, rw q (rw (decode_request-dumps req v k) refl), eq)

  read_response_received :
      (r : StreamReader) (resp : Response Args) (tail : Bytes)
      → resp.version ≡ protocol_version
      → length (lib.dumps (lib.dump_response resp)) ≤ stream_limit
      → received r ≡ encode_response lib resp ++ tail
      → (rest : List Bytes) × (read_response lib r ≡ ok (some resp, record r { arriving = rest }))
        × (joined rest ≡ tail)
  unfolding read_response encode_response
  read_response_received r resp tail v k e = go (
      read_line_received r (lib.dumps (lib.dump_response resp)) tail (laws.response_one_line resp) k
        (e ∙ append_assoc (lib.dumps (lib.dump_response resp)) (newline ∷ []) tail))
    where
      go :
          ReadsLine r (lib.dumps (lib.dump_response resp)) tail
          → (rest : List Bytes) × (read_response lib r
              ≡ ok (some resp, record r { arriving = rest }))
            × (joined rest ≡ tail)
      go (rest, q, eq) = (rest, rw q (rw (decode_response-dumps resp v k) refl), eq)

  abbrev pub Receives : StreamReader → Response Args → Option Bytes → Bytes → Type 0
  Receives r resp payload tail =
      (mid : List Bytes) × (rest : List Bytes) × (read_response lib r
        ≡ ok (some resp, record r { arriving = mid }))
      × (read_payload resp.kind resp.n_bytes (record r { arriving = mid })
          ≡ ok (payload_of resp.kind payload, record r { arriving = rest }))
      × (joined rest ≡ tail)

  -- What the agent's `write_response` sends, the hub's `read_response` and `read_blob` receive:
  -- the response and its payload come back whatever the chunks they arrive in, and the stream is
  -- left where the next response starts. The response's document is within the stream's limit.
  pub receive-write_response :
      (r : StreamReader) (resp : Response Args) (payload : Option Bytes) (sent tail : Bytes)
      → resp.version ≡ protocol_version
      → length (lib.dumps (lib.dump_response resp)) ≤ stream_limit
      → write_response lib [] resp payload ≡ ok sent
      → received r ≡ sent ++ tail
      → Receives r resp payload tail
  unfolding write_response
  receive-write_response r resp payload sent tail v k w e =
      go (Result-cases (checked_payload resp.kind resp.n_bytes payload))
    where
      m : Bytes
      m = encode_response lib resp

      read_both :
          (p : Bytes)
          → checked_payload resp.kind resp.n_bytes payload ≡ ok p
          → ((mid : List Bytes) × (read_response lib r
                ≡ ok (some resp, record r { arriving = mid }))
              × (joined mid ≡ p ++ tail))
          → Receives r resp payload tail
      read_both p c (mid, q, eq) = then_payload (
          read_payload_checked resp.kind resp.n_bytes payload p (record r { arriving = mid }) tail c
            eq)
        where
          then_payload :
              PayloadRead resp.kind resp.n_bytes payload (record r { arriving = mid }) tail
              → Receives r resp payload tail
          then_payload (rest, q', eq') = (mid, rest, q, q', eq')

      go :
          ((p : Bytes) × (checked_payload resp.kind resp.n_bytes payload ≡ ok p))
            ⊎ ((x : Exception) × (checked_payload resp.kind resp.n_bytes payload ≡ err x))
          → Receives r resp payload tail
      go (inl (p, c)) =
          let all_sent : m ++ p ≡ sent = ap (λ x. result_or x []) (rw c at w) in
          read_both p c (
            read_response_received r resp (p ++ tail) v k
              (e ∙ ap (λ s. s ++ tail) (sym all_sent) ∙ append_assoc m p tail))
      go (inr (x, c)) = let bad : err x ≡ ok sent = rw c at w in absurd (ground arith)
