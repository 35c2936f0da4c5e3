-- ===== src/Control/Client/Calls.antt =====
-- The hub's call and the agent's server together.
use vertex_testbed.Control.Client.{connect, finish_call, take_response, exchange, call}
use vertex_testbed.Control.Server.{Connection, CommandHandler, serve, returned}
use vertex_testbed.Control.Server.Replies.{replied, answered, AreSound, IsCurrent, serve-answer_all}
use mathlib.Core.List.{append-nil}
use vertex_testbed.Control.Protocol.{
  Json, Request, Response, Command, encode_request, fail, encode_response, protocol_version,
}
use vertex_testbed.Control.Transport.{
  StreamReader, closed, received, joined, stream_limit, write_response, write_request,
  checked_payload,
}
use vertex_testbed.Control.Transport.Exchange.{
  Faithful, receive-write_response, payload_of, Receives,
}
use vertex_testbed.Common.{
  sym, arith, ◌∷◌, ◌<◌, ℕ, List, [], Option, none, some, Result, ok, err, true, ◌++◌, ◌≡◌,
  Exception, length, ◌≤◌, refl, ap, ◌∙◌,
}
use vertex_testbed.Common.Bytes.{Bytes}

module _ {Doc Args : Type 0} (lib : Json Doc Args) (laws : Faithful lib) (empty : Args)
    (text : Exception → Bytes) where
  abbrev pub Fits : Response Args → Type 0
  Fits resp =
      (resp.version ≡ protocol_version)
      × (length (lib.dumps (lib.dump_response resp)) ≤ stream_limit)

  -- What the hub makes of a handler's outcome, and when the outcome is one that can be sent.
  abbrev pub outcome :
      {S : Type 0} → S × Result (Response Args × Option Bytes) → Result (Response Args × Bytes)
  outcome (s, err e) = err Exception.control_error
  outcome (s, ok (resp, blob)) = ok (resp, payload_of resp.kind blob)

  abbrev pub CanSend : {S : Type 0} → S × Result (Response Args × Option Bytes) → Type 0
  CanSend (s, err e) = Fits (fail empty (text e))
  CanSend (s, ok (resp, blob)) =
      Fits resp
      × (resp.ok ≡ true)
      × (checked_payload resp.kind resp.n_bytes blob ≡ ok (payload_of resp.kind blob))

  abbrev pub Answered :
      StreamReader → Bytes → Bytes → Request Args → Result (Response Args × Bytes) → Type 0
  Answered r written tail req res =
      (rest : List Bytes) × (call lib none (some req)
          (record { wire = some (record { reader = r; written = written }) })
        ≡ (
          res,
          record {
            wire = some (record {
              reader = record r { arriving = rest };
              written = write_request lib written req;
            });
          },
        ))
      × (joined rest ≡ tail)

  call-received :
      (r : StreamReader) (written tail : Bytes) (req : Request Args) (resp : Response Args)
      (blob : Option Bytes)
      → resp.ok ≡ true
      → Receives lib laws r resp blob tail
      → Answered r written tail req (ok (resp, payload_of resp.kind blob))
  unfolding call exchange connect take_response finish_call
  call-received r written tail req resp blob good (mid, rest, p, q, eq) =
      (rest, rw p (rw good (rw q refl)), eq)

  call-refused :
      (r : StreamReader) (written tail : Bytes) (req : Request Args) (e : Exception)
      → Receives lib laws r (fail empty (text e)) none tail
      → Answered r written tail req (err Exception.control_error)
  unfolding call exchange connect take_response
  call-refused r written tail req e (mid, rest, p, q, eq) =
      (mid, rw p refl, ap (λ x. joined (arriving_of x)) q ∙ eq)
    where
      arriving_of : Result (Bytes × StreamReader) → List Bytes
      arriving_of (err x) = []
      arriving_of (ok (b, r')) = r'.arriving

  -- A call on a connection where the reply to it arrives.
  call-replied :
      {S : Type 0} (c : Connection S) (x : S × Result (Response Args × Option Bytes))
      (r : StreamReader) (written tail : Bytes) (req : Request Args)
      → CanSend x
      → received r
        ≡ (replied lib empty text (λ _. none) (record c { written = [] }) x).written ++ tail
      → Answered r written tail req (outcome x)
  unfolding write_response checked_payload
  call-replied c (s, err e) r written tail req h k = call-refused r written tail req e (
      receive-write_response lib laws r (fail empty (text e)) none
        (encode_response lib (fail empty (text e)) ++ []) tail h.0 h.1 refl k)
  call-replied c (s, ok (resp, blob)) r written tail req (fits, good, h) k =
      call-received r written tail req resp blob good (
        receive-write_response lib laws r resp blob
          (encode_response lib resp ++ payload_of resp.kind blob) tail fits.0 fits.1 (rw h refl) k)

  -- The hub's call and the agent's server together. A request is written to an agent, which has a
  -- handler for it, by a hub that then closes its half of the stream. The agent's server returns with
  -- the state that the handler left. On a connection where what the server wrote arrives, in whatever
  -- chunks, the hub's call of this request returns the handler's response with its payload, or raises
  -- `ControlError` where the handler raised; either way the connection stays open, at the byte behind
  -- the reply. The request is of this version, request and response fit the stream's buffer, the
  -- response is a success, and no handler declares a payload that it does not return.
  pub call-served :
      {S : Type 0} (handlers : Command → Option (CommandHandler Args S))
      (handler : CommandHandler Args S) (req : Request Args) (rs r : StreamReader)
      (c : Connection S) (fuel : ℕ) (tail : Bytes)
      → AreSound lib empty text handlers
      → handlers req.command ≡ some handler
      → IsCurrent lib empty text handlers req
      → CanSend (handler req.args c.state)
      → c.written ≡ []
      → rs.ending ≡ closed
      → received rs ≡ write_request lib [] req
      → 1 < fuel
      → received r ≡ (serve lib empty text handlers fuel rs c).1.written ++ tail
      → ((serve lib empty text handlers fuel rs c).0 ≡ returned)
        × ((serve lib empty text handlers fuel rs c).1.state ≡ (handler req.args c.state).0)
        × Answered r [] tail req (outcome (handler req.args c.state))
  unfolding write_request
  call-served {S = S} handlers handler req rs r c fuel tail sound known current can fresh ends sent
        enough arrives =
      (
        ap (λ p. p.0) served,
        ap (λ p. p.1.state) served ∙ state_of x,
        call-replied c x r [] tail req can
            (arrives ∙ ap (λ p. p.1.written ++ tail) served ∙ ap (λ w. w ++ tail) (written_of x)),
      )
    where
      x : S × Result (Response Args × Option Bytes)
      x = handler req.args c.state

      served :
          serve lib empty text handlers fuel rs c ≡ (returned, replied lib empty text handlers c x)
      served =
          serve-answer_all lib empty text handlers laws sound (req ∷ []) fuel rs c (current, tt)
            ends (sent ∙ sym (append-nil (encode_request lib req))) (omega arith)
          ∙ ap (λ o. (returned, answered lib empty text handlers o c req)) known

      state_of :
          (y : S × Result (Response Args × Option Bytes))
          → (replied lib empty text handlers c y).state ≡ y.0
      state_of (s, err e) = refl
      state_of (s, ok (resp, blob)) = refl

      written_of :
          (y : S × Result (Response Args × Option Bytes))
          → (replied lib empty text handlers c y).written
            ≡ (replied lib empty text (λ _. none) (record c { written = [] }) y).written
      written_of (s, err e) = ap (λ w. w ++ encode_response lib (fail empty (text e)) ++ []) fresh
      written_of (s, ok (resp, blob)) =
          ap (λ w. w ++ encode_response lib resp ++ payload_of resp.kind blob) fresh
