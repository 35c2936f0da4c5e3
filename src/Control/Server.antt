-- ===== src/Control/Server.antt =====
-- `ControlServer._serve` of vertex/control/server.py, on one connection. What the handlers work on
-- is a state `S`. The listening socket and the set of open writers are left out, and so is a
-- connection that is reset.
pub mod Loop
pub mod Replies
use vertex_testbed.Control.Protocol.{Json, Request, Response, Command, fail}
use vertex_testbed.Control.Transport.{StreamReader, read_request, write_response}
use vertex_testbed.Common.{
  if◌then◌else◌, Bool, List, [], ◌∷◌, ℕ, zero, suc, Option, none, some, Result, ok, err, true,
  false, ◌++◌, ◌≡◌, Exception,
}
use vertex_testbed.Common.Bytes.{Bytes}

-- `CommandHandler`: it may change the state and raise.
abbrev pub CommandHandler : Type 0 → Type 0 → Type 0
CommandHandler Args S = Args → S → S × Result (Response Args × Option Bytes)

-- One connection: what the handlers work on, what has been written, and the server's two counters.
pub record Connection (S : Type 0) : Type 0 where
  pub state : S
  pub written : Bytes
  pub served : ℕ
  pub errors : ℕ

-- How the loop ends: by a `return`, with an exception of `write_response`, in a read that has no
-- end, or with the fuel.
pub data Exit : Type 0 where
  returned waiting out_of_fuel : Exit
  raised : Exception → Exit

pub data Round (S : Type 0) : Type 0 where
  goes_on : StreamReader → Connection S → Round S
  stops : Exit → Connection S → Round S

-- A read that has no end.
abbrev pub is_timeout : Exception → Bool
is_timeout Exception.timeout_error = true
is_timeout _ = false

-- `empty` is the empty dictionary, and `text` the message made of an exception.
module _ {Doc Args S : Type 0} (lib : Json Doc Args) (empty : Args) (text : Exception → Bytes)
    (handlers : Command → Option (CommandHandler Args S)) where
  -- `await write_response(writer, resp, blob)`
  unfoldable pub respond : Response Args → Option Bytes → Connection S → Result (Connection S)
  unfolding write_response
  respond resp blob c = elim (write_response lib c.written resp blob) [
    | err e ↦ err e
    | ok written ↦ ok (record c { written = written })
  ]

  unfoldable pub count_served : StreamReader → Connection S → Result (Connection S) → Round S
  count_served r c (err e) = stops (Exit.raised e) c
  count_served r c (ok c') = goes_on r (record c' { served = suc c'.served })

  unfoldable pub count_unsupported : StreamReader → Connection S → Result (Connection S) → Round S
  count_unsupported r c (err e) = stops (Exit.raised e) c
  count_unsupported r c (ok c') = goes_on r c'

  unfoldable close_after : Connection S → Result (Connection S) → Round S
  close_after c (err e) = stops (Exit.raised e) c
  close_after c (ok c') = stops Exit.returned c'

  -- What a handler returned or raised goes out.
  unfoldable pub send_result :
      StreamReader → Connection S → S × Result (Response Args × Option Bytes) → Round S
  unfolding respond count_served
  send_result r c (s, ok (resp, blob)) =
      let c' : Connection S = record c { state = s } in count_served r c' (respond resp blob c')
  send_result r c (s, err e) =
      let c' : Connection S = record c { state = s; errors = suc c.errors } in
      count_served r c' (respond (fail empty (text e)) none c')

  unfoldable pub handle :
      StreamReader → Connection S → Request Args → Option (CommandHandler Args S) → Round S
  unfolding send_result count_unsupported respond
  handle r c req none =
      let c' : Connection S = record c { errors = suc c.errors } in
      count_unsupported r c' (respond (fail empty (text Exception.value_error)) none c')
  handle r c req (some handler) = send_result r c (handler req.args c.state)

  -- One round of the loop, after the read.
  unfoldable pub act : Connection S → Result (Option (Request Args) × StreamReader) → Round S
  unfolding handle close_after respond
  act c (err e) =
      let c' : Connection S = record c { errors = suc c.errors } in
      if is_timeout e
      then stops Exit.waiting c
      else close_after c' (respond (fail empty (text e)) none c')
  act c (ok (none, r)) = stops Exit.returned c
  act c (ok (some req, r)) = handle r c req (handlers req.command)

  abbrev pub proceed :
      (StreamReader → Connection S → Exit × Connection S) → Round S → Exit × Connection S
  proceed again (goes_on r c) = again r c
  proceed again (stops exit c) = (exit, c)

  -- `while True`
  unfoldable pub serve : ℕ → StreamReader → Connection S → Exit × Connection S
  unfolding act read_request
  serve zero r c = (Exit.out_of_fuel, c)
  serve (suc fuel) r c = proceed (serve fuel) (act c (read_request lib r))
