-- ===== src/Control/Client.antt =====
-- `ControlClient` of vertex/control/client.py. A connection is its reader, with all that will
-- arrive, and what has been written to it. Calls are serialised by the client's lock, so that one
-- stands behind the other.
pub mod Calls
use vertex_testbed.Control.Protocol.{Json, Request, Response}
use vertex_testbed.Control.Transport.{StreamReader, read_response, write_request, read_blob}
use vertex_testbed.Control.Transport.Exchange.{read_payload}
use vertex_testbed.Common.{
  List, [], ◌∷◌, Option, none, some, Result, ok, err, true, false, Bool, Exception, if◌then◌else◌,
}
use vertex_testbed.Common.Bytes.{Bytes}

pub record Wire : Type 0 where
  pub reader : StreamReader
  pub written : Bytes

-- `_reader` and `_writer`, which are `None` together.
pub record ControlClient : Type 0 where
  pub wire : Option Wire

-- What `asyncio.open_connection` gives: a reader, or nothing where it raises or times out.
unfoldable opened_with : Option StreamReader → ControlClient → Result Wire × ControlClient
opened_with none c = (err Exception.control_error, c)
opened_with (some r) c =
    let w : Wire = record { reader = r; written = [] } in (ok w, record c { wire = some w })

-- `connect`
unfoldable pub connect : Option StreamReader → ControlClient → Result Wire × ControlClient
unfolding opened_with
connect opened c = elim c.wire [ some w ↦ (ok w, c) | none ↦ opened_with opened c ]

-- `close`
unfoldable pub close : ControlClient → ControlClient
close c = record c { wire = none }

module _ {Doc Args : Type 0} (lib : Json Doc Args) where
  -- The end of `call`, after the payload has been read.
  unfoldable pub finish_call :
      Wire
      → Response Args
      → ControlClient
      → Result (Bytes × StreamReader)
      → Result (Response Args × Bytes) × ControlClient
  unfolding close
  finish_call w resp c (err e) = (err Exception.control_error, close c)
  finish_call w resp c (ok (blob, r)) =
      (ok (resp, blob), record c { wire = some (record w { reader = r }) })

  -- What `call` does with what it read of the response.
  unfoldable pub take_response :
      Wire
      → ControlClient
      → Result (Option (Response Args) × StreamReader)
      → Result (Response Args × Bytes) × ControlClient
  unfolding close finish_call
  take_response w c (err e) = (err Exception.control_error, close c)
  take_response w c (ok (none, r)) = (err Exception.control_error, close c)
  take_response w c (ok (some resp, r)) =
      let c' : ControlClient = record c { wire = some (record w { reader = r }) } in
      if resp.ok
      then finish_call w resp c' (read_payload resp.kind resp.n_bytes r)
      else (err Exception.control_error, c')

  unfoldable pub exchange :
      Request Args → Result Wire × ControlClient → Result (Response Args × Bytes) × ControlClient
  unfolding take_response read_response write_request
  exchange req (err e, c) = (err e, c)
  exchange req (ok w, c) =
      let w' : Wire = record w { written = write_request lib w.written req } in
      take_response w' (record c { wire = some w' }) (read_response lib w'.reader)

  -- `call`, with the request that was built of the command and its arguments, or `none` where it
  -- is no command.
  unfoldable pub call :
      Option StreamReader
      → Option (Request Args)
      → ControlClient
      → Result (Response Args × Bytes) × ControlClient
  unfolding exchange connect
  call opened none c = (err Exception.control_error, c)
  call opened (some req) c = exchange req (connect opened c)
