-- ===== src/Control/Server/Replies.antt =====
-- The byte loop of `ControlServer._serve` against a description of a conversation: a list of
-- requests, each answered by its handler in turn.
use vertex_testbed.Control.Server.{
  Connection, returned, goes_on, CommandHandler, respond, count_served, count_unsupported,
  send_result, handle, act, proceed, serve,
}
use vertex_testbed.Control.Protocol.{
  decode_request, Json, Request, Response, Command, fail, encode_request, encode_response,
  protocol_version,
}
use vertex_testbed.Control.Transport.{
  take_line, StreamReader, closed, received, joined, read_request, stream_limit, write_response,
  checked_payload, read_line, at_end, split_line,
}
use vertex_testbed.Control.Transport.Exchange.{Faithful, read_request_received, payload_of}
use vertex_testbed.Common.{
  ◌<◌, List, [], ◌∷◌, ℕ, zero, suc, Option, none, some, Result, ok, err, ◌++◌, ◌≡◌, All, Exception,
  length, ◌≤◌, ◌>>=◌, arith, refl, ap, ◌∙◌,
}
use vertex_testbed.Common.Bytes.{Bytes}

split_line-empty : (cs : List Bytes) → joined cs ≡ [] → split_line cs ≡ none
unfolding split_line take_line
split_line-empty [] e = refl
split_line-empty ([] ∷ cs) e = rw (split_line-empty cs e) refl
split_line-empty ((b ∷ bs) ∷ cs) e = absurd (omega (arith, ap length e))

read_line-end :
    (r : StreamReader)
    → r.ending ≡ closed
    → received r ≡ []
    → read_line r ≡ ok (none, record { arriving = []; ending = closed })
unfolding read_line at_end
read_line-end r e k = rw (split_line-empty r.arriving k, read_line) (rw k (rw e refl))

module _ {Doc Args S : Type 0} (lib : Json Doc Args) (empty : Args) (text : Exception → Bytes)
    (handlers : Command → Option (CommandHandler Args S)) where
  abbrev pub request_bytes : List (Request Args) → Bytes
  request_bytes [] = []
  request_bytes (req ∷ reqs) = encode_request lib req ++ request_bytes reqs

  -- What a handler's outcome does to the conversation.
  abbrev pub replied : Connection S → S × Result (Response Args × Option Bytes) → Connection S
  replied c (s, ok (resp, blob)) = record c {
    state = s;
    written = c.written ++ encode_response lib resp ++ payload_of resp.kind blob;
    served = suc c.served;
  }
  replied c (s, err e) = record c {
    state = s;
    written = c.written ++ encode_response lib (fail empty (text e)) ++ [];
    served = suc c.served;
    errors = suc c.errors;
  }

  abbrev pub answered : Option (CommandHandler Args S) → Connection S → Request Args → Connection S
  answered none c req = record c {
    written = c.written ++ encode_response lib (fail empty (text Exception.value_error)) ++ [];
    errors = suc c.errors;
  }
  answered (some handler) c req = replied c (handler req.args c.state)

  -- Each request is answered in turn.
  abbrev pub answer_all : List (Request Args) → Connection S → Connection S
  answer_all [] c = c
  answer_all (req ∷ reqs) c = answer_all reqs (answered (handlers req.command) c req)

  -- The reply carries the payload that it declares.
  abbrev pub IsSound : S × Result (Response Args × Option Bytes) → Type 0
  IsSound (s, err e) = Unit {0}
  IsSound (s, ok (resp, blob)) =
      checked_payload resp.kind resp.n_bytes blob ≡ ok (payload_of resp.kind blob)

  abbrev pub AreSound : Type 0
  AreSound =
      (command : Command) (handler : CommandHandler Args S)
      → handlers command ≡ some handler
      → (args : Args) (s : S) → IsSound (handler args s)

  -- A request that this build speaks, and that fits the stream's buffer.
  abbrev pub IsCurrent : Request Args → Type 0
  IsCurrent req =
      (req.version ≡ protocol_version) × (length (lib.dumps (lib.dump_request req)) ≤ stream_limit)

  send_result-replied :
      (r : StreamReader) (c : Connection S) (x : S × Result (Response Args × Option Bytes))
      → IsSound x
      → send_result lib empty text handlers r c x ≡ goes_on r (replied c x)
  unfolding send_result count_served respond write_response checked_payload
  send_result-replied r c (s, err e) h = refl
  send_result-replied r c (s, ok (resp, blob)) h =
      ap
        (λ x.
          count_served lib empty text handlers r (record c { state = s })
            (elim x [ err e ↦ err e | ok w ↦ ok (record c { state = s; written = w }) ]))
        (ap (λ p. p >>= λ tail. ok (c.written ++ encode_response lib resp ++ tail)) h)

  handle-answered :
      (r : StreamReader) (c : Connection S) (req : Request Args)
      (o : Option (CommandHandler Args S))
      → ((handler : CommandHandler Args S) → o ≡ some handler → IsSound (handler req.args c.state))
      → handle lib empty text handlers r c req o ≡ goes_on r (answered o c req)
  unfolding handle count_unsupported respond write_response checked_payload
  handle-answered r c req none h = refl
  handle-answered r c req (some f) h = send_result-replied r c (f req.args c.state) (h f refl)

  module _ (laws : Faithful lib) (sound : AreSound) where
    serve-step :
        (fuel : ℕ) (r : StreamReader) (c : Connection S) (req : Request Args) (mid : List Bytes)
        → read_request lib r ≡ ok (some req, record r { arriving = mid })
        → serve lib empty text handlers (suc fuel) r c
          ≡ serve lib empty text handlers fuel
              (record r { arriving = mid })
              (answered (handlers req.command) c req)
    unfolding serve act
    serve-step fuel r c req mid q =
        ap
          (λ x.
            proceed lib empty text handlers (serve lib empty text handlers fuel)
              (act lib empty text handlers c x))
          q
        ∙ ap (proceed lib empty text handlers (serve lib empty text handlers fuel)) (
            handle-answered (record r { arriving = mid }) c req (handlers req.command)
              λ f e. sound req.command f e req.args c.state)

    serve-end :
        (fuel : ℕ) (r : StreamReader) (c : Connection S)
        → r.ending ≡ closed
        → received r ≡ []
        → serve lib empty text handlers (suc fuel) r c ≡ (returned, c)
    unfolding serve act read_request read_line at_end
    serve-end fuel r c e k =
        ap
          (λ x. proceed lib empty text handlers (serve lib empty text handlers fuel) (
            act lib empty text handlers c (
              x >>= λ p. elim (p.0) [
                | none ↦ ok (none, p.1)
                | some line ↦ decode_request lib line >>= λ req. ok (some req, p.1)
              ])))
          (read_line-end r e k)

    -- The server's loop is a conversation: on a stream of requests that the peer closes behind the
    -- last, it returns after as many rounds and one more. What it has written, the state of the
    -- handlers and its counters are those of answering each request in turn, an unknown command
    -- and a handler that raises with a refusal. Each request is of this version and fits the
    -- stream's buffer, and no handler declares a payload that it does not return.
    pub serve-answer_all :
        (reqs : List (Request Args)) (fuel : ℕ) (r : StreamReader) (c : Connection S)
        → All IsCurrent reqs
        → r.ending ≡ closed
        → received r ≡ request_bytes reqs
        → length reqs < fuel
        → serve lib empty text handlers fuel r c ≡ (returned, answer_all reqs c)
    serve-answer_all reqs zero r c h d e k = absurd (omega arith)
    serve-answer_all [] (suc fuel) r c h d e k = serve-end fuel r c d e
    serve-answer_all (req ∷ reqs) (suc fuel) r c h d e k =
        go (read_request_received lib laws r req (request_bytes reqs) h.0.0 h.0.1 e) (λ mid e'.
          serve-answer_all reqs fuel (record r { arriving = mid })
            (answered (handlers req.command) c req) h.1 d e' (omega arith))
      where
        go :
            ((mid : List Bytes) × (read_request lib r ≡ ok (some req, record r { arriving = mid }))
              × (joined mid ≡ request_bytes reqs))
            → ((mid : List Bytes)
                → joined mid ≡ request_bytes reqs
                → serve lib empty text handlers fuel
                    (record r { arriving = mid })
                    (answered (handlers req.command) c req)
                  ≡ (returned, answer_all (req ∷ reqs) c))
            → serve lib empty text handlers (suc fuel) r c ≡ (returned, answer_all (req ∷ reqs) c)
        go (mid, q, eq) ih = serve-step fuel r c req mid q ∙ ih mid eq
