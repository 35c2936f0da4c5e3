-- ===== src/Tests/ControlRuns.antt =====
-- The control connection on concrete inputs.
use vertex_testbed.Tests.TextCodec.{text_codec, text_codec-Faithful}
use vertex_testbed.Control.Protocol.{
  Request, Response, Command, blob, respond_ok, encode_request, encode_response,
}
use vertex_testbed.Control.Transport.{
  write_request, StreamReader, closed, silent, received, joined, read_blob, write_response,
  checked_payload,
}
use vertex_testbed.Control.Transport.Blob.{read_blob_total}
use vertex_testbed.Control.Transport.Exchange.{receive-write_response, Receives}
use vertex_testbed.Control.Server.{Connection, CommandHandler, returned, out_of_fuel, serve}
use mathlib.Core.List.{append-nil}
use vertex_testbed.Control.Server.Loop.{serve_ends}
use vertex_testbed.Control.Server.Replies.{serve-answer_all, answer_all, AreSound, IsSound}
use vertex_testbed.Control.Client.Calls.{call-served, Answered, outcome}
use vertex_testbed.Common.{
  subst, List, [], ◌∷◌, ℕ, Option, none, some, ok, err, true, Exception, ◌++◌, ◌≡◌, ◌≢◌, refl, take,
  drop, arith, ◌+◌, ◌≤◌, ◌<◌, length, ap,
}
use vertex_testbed.Common.Bytes.{Bytes}
use vertex_testbed.Common.Int.{pos}

-- A blob that arrives in three chunks, and the start of what follows it.
abbrev chunks : StreamReader
chunks = record { arriving = (7 ∷ 8 ∷ []) ∷ [] ∷ (9 ∷ 1 ∷ []) ∷ []; ending = silent }

read_blob_total_example :
    (3 ≤ length (received chunks)
      → (rest : List Bytes) × (read_blob chunks (pos 3)
          ≡ ok (take 3 (received chunks), record chunks { arriving = rest }))
        × (joined rest ≡ drop 3 (received chunks)))
    × (length (received chunks) < 3 → read_blob chunks (pos 3) ≡ err Exception.protocol_error)
read_blob_total_example = read_blob_total 3 chunks

-- The response to a fetch, with a payload of two bytes.
abbrev two_bytes : Response ℕ
two_bytes = record {
  ok = true;
  kind = blob;
  data_ = 0;
  error = none;
  n_bytes = pos 2;
  name = 5 ∷ [];
  version = 1;
}

abbrev two_bytes_sent : Bytes
two_bytes_sent = 1 ∷ 1 ∷ 1 ∷ 11 ∷ 12 ∷ 0 ∷ 13 ∷ 16 ∷ 0 ∷ 0 ∷ 10 ∷ 200 ∷ 201 ∷ []

abbrev reply_stream : StreamReader
reply_stream = record {
  arriving = take 4 two_bytes_sent ∷ (drop 4 two_bytes_sent ++ (77 ∷ [])) ∷ [];
  ending = silent;
}

receive-write_response_example :
    Receives text_codec text_codec-Faithful reply_stream two_bytes (some (200 ∷ 201 ∷ [])) (77 ∷ [])
unfolding write_response checked_payload encode_response
receive-write_response_example =
    receive-write_response text_codec text_codec-Faithful reply_stream two_bytes
      (some (200 ∷ 201 ∷ [])) two_bytes_sent (77 ∷ []) refl (omega arith) refl refl

-- Handlers on a number: `start` adds its argument, `stop` raises, the rest is not served.
abbrev text : Exception → Bytes
text e = 3 ∷ []

abbrev handlers : Command → Option (CommandHandler ℕ ℕ)
handlers Command.start = some (λ args s. (s + args, ok (respond_ok args, none)))
handlers Command.stop = some (λ args s. (s, err Exception.runtime_error))
handlers c = none

abbrev connection : Connection ℕ
connection = record { state = 5; written = []; served = 0; errors = 0 }

serve_ends_example : (serve text_codec 0 text handlers 6 chunks connection).0 ≢ out_of_fuel
serve_ends_example = serve_ends text_codec 0 text handlers 6 chunks connection (omega arith)

abbrev start_request : Request ℕ
start_request = record { command = Command.start; args = 4; version = 1 }

abbrev stop_request : Request ℕ
stop_request = record { command = Command.stop; args = 0; version = 1 }

abbrev requests : List (Request ℕ)
requests = start_request ∷ stop_request ∷ []

abbrev request_stream : StreamReader
request_stream = record {
  arriving = (0 ∷ 2 ∷ 15 ∷ []) ∷ (12 ∷ 10 ∷ 0 ∷ 3 ∷ 11 ∷ 12 ∷ 10 ∷ []) ∷ [];
  ending = closed;
}

abbrev handler_or : Option (CommandHandler ℕ ℕ) → CommandHandler ℕ ℕ → CommandHandler ℕ ℕ
handler_or none f = f
handler_or (some g) f = g

by_handler :
    (f : CommandHandler ℕ ℕ) (args s : ℕ) (o : Option (CommandHandler ℕ ℕ))
    → o ≡ some f
    → IsSound text_codec 0 text handlers (handler_or o f args s)
    → IsSound text_codec 0 text handlers (f args s)
by_handler f args s o e h =
    subst (λ g. IsSound text_codec 0 text handlers (g args s)) (ap (λ x. handler_or x f) e) h

handlers-AreSound : AreSound text_codec 0 text handlers
unfolding checked_payload
handlers-AreSound Command.start f e args s = by_handler f args s _ e refl
handlers-AreSound Command.stop f e args s = by_handler f args s _ e tt
handlers-AreSound Command.status f e args s = absurd (ground arith)
handlers-AreSound Command.configure f e args s = absurd (ground arith)
handlers-AreSound Command.list_runs f e args s = absurd (ground arith)
handlers-AreSound Command.fetch f e args s = absurd (ground arith)

serve-answer_all_example :
    serve text_codec 0 text handlers 3 request_stream connection
    ≡ (returned, answer_all text_codec 0 text handlers requests connection)
unfolding encode_request
serve-answer_all_example =
    serve-answer_all text_codec 0 text handlers text_codec-Faithful handlers-AreSound requests 3
      request_stream connection ((refl, omega arith), ((refl, omega arith), tt)) refl refl
      (omega arith)

abbrev one_request : StreamReader
one_request = record { arriving = (0 ∷ 2 ∷ 15 ∷ []) ∷ (12 ∷ 10 ∷ []) ∷ []; ending = closed }

-- What the server writes for it arrives in one piece, and a byte of what follows.
abbrev one_reply : StreamReader
one_reply = record {
  arriving =
      ((serve text_codec 0 text handlers 2 one_request connection).1.written ++ (77 ∷ [])) ∷ [];
  ending = silent;
}

call-served_example :
    ((serve text_codec 0 text handlers 2 one_request connection).0 ≡ returned)
    × ((serve text_codec 0 text handlers 2 one_request connection).1.state ≡ 9)
    × Answered text_codec text_codec-Faithful 0 text one_reply []
        (77 ∷ [])
        start_request
        (outcome text_codec text_codec-Faithful 0 text {S = ℕ} (9, ok (respond_ok 4, none)))
unfolding encode_request write_request checked_payload
call-served_example =
    call-served text_codec text_codec-Faithful 0 text handlers
      (λ args s. (s + args, ok (respond_ok args, none))) start_request one_request one_reply
      connection 2 (77 ∷ []) handlers-AreSound refl (refl, omega arith)
      ((refl, omega arith), refl, refl) refl refl refl (omega arith)
      (append-nil
        ((serve text_codec 0 text handlers 2 one_request connection).1.written ++ (77 ∷ [])))
