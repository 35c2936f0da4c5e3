-- ===== src/Control/Transport.antt =====
-- vertex/control/transport.py, over asyncio's streams. A reader is what it will find in its buffer
-- each time it looks, in turn, and what comes behind that: the peer closes, or stays silent. A wait
-- that has no end is `timeout_error`, as `asyncio.wait_for` makes it. The writer of a stream is the
-- bytes written.
pub mod Chunks
pub mod Blob
pub mod Exchange
use vertex_testbed.Control.Protocol.{
  Json, Request, Response, Kind, json, blob, encode_request, encode_response, decode_request,
  decode_response, newline,
}
use vertex_testbed.Common.{
  List, [], ◌∷◌, ℕ, zero, suc, Option, none, some, Result, ok, err, true, false, Bool, ◌++◌, ◌≡◌,
  Exception, ltb, length, require, ◌>>◌, ◌>>=◌, ◌==◌, not, take, drop, min, ◌-◌, if◌then◌else◌, ◌^◌,
  leb, ◌+◌,
}
use vertex_testbed.Common.Bytes.{Bytes}
use vertex_testbed.Common.Int.{ℤ, pos, negsuc}

pub data Ending : Type 0 where
  closed silent : Ending

pub record StreamReader : Type 0 where
  pub arriving : List Bytes
  pub ending : Ending

-- The buffer's limit where `start_server` and `open_connection` are given none.
abbrev pub stream_limit : ℕ
stream_limit = 2 ^ 16

abbrev pub joined : List Bytes → Bytes
joined [] = []
joined (c ∷ cs) = c ++ joined cs

-- All the bytes of a stream.
abbrev pub received : StreamReader → Bytes
received r = joined r.arriving

-- What stands before the first newline of the bytes, and behind it.
unfoldable pub take_line : Bytes → Option (Bytes × Bytes)
take_line [] = none
take_line (b ∷ bs) =
    let rest = take_line bs in
    if b == newline then some ([], bs) else elim rest [ none ↦ none | some p ↦ some (b ∷ p.0, p.1) ]

unfoldable pub split_line : List Bytes → Option (Bytes × List Bytes)
unfolding take_line
split_line [] = none
split_line (c ∷ cs) =
    let rest = split_line cs in
    elim (take_line c) [
      | some p ↦ some (p.0, p.1 ∷ cs)
      | none ↦ elim rest [ none ↦ none | some q ↦ some (c ++ q.0, q.1) ]
    ]

-- `_read_line`, with `reader.readuntil(b"\n")` in it: its two exceptions become `ProtocolError`,
-- and an end of stream between two messages is `none`.
unfoldable pub at_end : Ending → Bytes → Result (Option Bytes × StreamReader)
at_end silent partial = err Exception.timeout_error
at_end closed [] = ok (none, record { arriving = []; ending = closed })
at_end closed (b ∷ bs) = err Exception.protocol_error

unfoldable pub read_line : StreamReader → Result (Option Bytes × StreamReader)
unfolding split_line at_end
read_line r = elim (split_line r.arriving) [
  | some p ↦ do
    require (not (ltb stream_limit (length p.0))) Exception.protocol_error
    ok (some p.0, record r { arriving = p.1 })
  | none ↦ do
    require (not (ltb stream_limit (length (received r)))) Exception.protocol_error
    at_end r.ending (received r)
]

-- `resp.n_bytes != len(blob)`
abbrev pub is_length : ℤ → ℕ → Bool
is_length (pos n) k = n == k
is_length (negsuc n) k = false

-- The payload that goes out behind a response: none of a response that is no blob.
unfoldable pub checked_payload : Kind → ℤ → Option Bytes → Result Bytes
checked_payload json n payload = ok []
checked_payload blob n none = err Exception.value_error
checked_payload blob n (some payload) = do
  require (is_length n (length payload)) Exception.value_error
  ok payload

module _ {Doc Args : Type 0} (lib : Json Doc Args) where
  unfoldable pub read_request : StreamReader → Result (Option (Request Args) × StreamReader)
  unfolding read_line
  read_request r = read_line r >>= λ p. elim (p.0) [
    | none ↦ ok (none, p.1)
    | some line ↦ decode_request lib line >>= λ req. ok (some req, p.1)
  ]

  unfoldable pub read_response : StreamReader → Result (Option (Response Args) × StreamReader)
  unfolding read_line
  read_response r = read_line r >>= λ p. elim (p.0) [
    | none ↦ ok (none, p.1)
    | some line ↦ decode_response lib line >>= λ resp. ok (some resp, p.1)
  ]

  unfoldable pub write_request : Bytes → Request Args → Bytes
  unfolding encode_request
  write_request written req = written ++ encode_request lib req

  unfoldable pub write_response : Bytes → Response Args → Option Bytes → Result Bytes
  unfolding encode_response checked_payload
  write_response written resp payload = checked_payload resp.kind resp.n_bytes payload >>= λ tail.
      ok (written ++ encode_response lib resp ++ tail)

-- `BLOB_CHUNK`
abbrev pub blob_chunk : ℕ
blob_chunk = 2 ^ 16

-- `reader.read(want)`: what the buffer holds, `want` bytes of it at most, and nothing at the end.
unfoldable pub read : ℕ → List Bytes → Ending → Result (Bytes × List Bytes)
read want [] closed = ok ([], [])
read want [] silent = err Exception.timeout_error
read want ([] ∷ cs) ending = read want cs ending
read want ((b ∷ bs) ∷ cs) ending = ok (take want (b ∷ bs), drop want (b ∷ bs) ∷ cs)

-- A stalled read and an empty one, which is the end of the stream, raise.
unfoldable pub next_chunk : Result (Bytes × List Bytes) → Result (Bytes × List Bytes)
next_chunk (err e) = err Exception.protocol_error
next_chunk (ok ([], rest)) = err Exception.protocol_error
next_chunk (ok (b ∷ bs, rest)) = ok (b ∷ bs, rest)

-- The loop of `read_blob`, with `buf` read so far.
unfoldable pub read_from : ℕ → ℕ → Bytes → List Bytes → Ending → Result (Bytes × List Bytes)
unfolding read next_chunk
read_from zero n buf cs ending =
    if leb n (length buf) then ok (buf, cs) else err Exception.runtime_error
read_from (suc fuel) n buf cs ending = elim (leb n (length buf)) [
  | true ↦ ok (buf, cs)
  | false ↦ next_chunk (read (min blob_chunk (n - length buf)) cs ending) >>= λ p.
      read_from fuel n (buf ++ p.0) p.1 ending
]

-- `read_blob` with a `stall_timeout`; the loop for a negative length has no round.
unfoldable pub read_blob : StreamReader → ℤ → Result (Bytes × StreamReader)
unfolding read_from
read_blob r (negsuc n) = ok ([], r)
read_blob r (pos n) =
    read_from n n [] r.arriving r.ending >>= λ p. ok (p.0, record r { arriving = p.1 })
