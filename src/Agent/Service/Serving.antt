-- ===== src/Agent/Service/Serving.antt =====
-- The control server over the commands of the service.
use vertex_testbed.Agent.RunLog.{RunLog}
use vertex_testbed.Agent.Service.Lifecycle.{configuring, starting, stopping}
use vertex_testbed.Agent.Service.Phases.{Order, executed}
use vertex_testbed.Agent.Service.{
  finalize, finished, BleRelay, AgentService, World, configure, start, stop, is_some, is_relay,
  is_running, finish_run, stopped_relay,
}
use vertex_testbed.Agent.Service.Handlers.{DataDir, Dictionaries, handlers, status_running}
use vertex_testbed.Agent.Relay.{BleRelay}
use vertex_testbed.Agent.Relay
use vertex_testbed.Serial.Frame.{Frame}
use vertex_testbed.Serial.FrameType
use vertex_testbed.Serial.Payload.{encode_control}
use vertex_testbed.Control.Protocol.{Json, Request, Response, Command}
use vertex_testbed.Control.Server.{CommandHandler}
use vertex_testbed.Control.Server.Replies.{IsSound}
use vertex_testbed.Common.{
  [], ◌∷◌, List, Option, none, some, Result, ok, err, true, false, Exception, length, ◌≡◌, refl,
  arith,
}
use vertex_testbed.Common.Bytes.{Bytes}

module _ {Doc Args : Type 0} (lib : Json Doc Args) (text : Exception → Bytes) (world : World Args)
    (data_dir : DataDir) (dicts : Dictionaries Args) where
  abbrev Outcome : Type 0
  Outcome = AgentService × Result (Response Args × Option Bytes)

  abbrev Sound : AgentService × Result (Response Args × Option Bytes) → Type 0
  Sound = IsSound lib dicts.empty text (handlers world data_dir dicts)

  abbrev Handler : Type 0
  Handler = CommandHandler Args AgentService

  abbrev handler_or : Option Handler → Handler → Handler
  handler_or none f = f
  handler_or (some g) f = g

  -- What a request asks of the life cycle: nothing where it only reads.
  abbrev pub order_of : Command → Args → Option (Order Args)
  order_of Command.configure args = some (configuring, (world, args))
  order_of Command.start args = some (starting (dicts.start_name args), (world, args))
  order_of Command.stop args = some (stopping, (world, args))
  order_of command args = none

  abbrev pub added : Option (Order Args) → List (Order Args) → List (Order Args)
  added none os = os
  added (some o) os = o ∷ os

  abbrev pub orders : List (Request Args) → List (Order Args)
  orders [] = []
  orders (req ∷ reqs) = added (order_of req.command req.args) (orders reqs)

  abbrev ordered : Option (Order Args) → AgentService → AgentService
  ordered none s = s
  ordered (some o) s = (executed s o).0

stop-t0 : (link : Relay.RequestLink) (r : BleRelay) → (Relay.stop link r).0.t0 ≡ r.t0
unfolding Relay.stop Relay.send_control Relay.send Relay.sent_as
stop-t0 link r = by_payload (encode_control false 0 0)
  where
    by_frame : (r' : BleRelay) (x : Result Frame) → (Relay.sent_as r' x).0.t0 ≡ r'.t0
    by_frame r' (err e) = refl
    by_frame r' (ok f) = refl

    by_payload : (x : Result Bytes) → (Relay.send_control link r x).0.t0 ≡ r.t0
    by_payload (err e) = refl
    by_payload (ok p) = by_frame _ (link (length r.requests) FrameType.control p)

-- After a stop that succeeds, the status of a relay that had been triggered says running, which the
-- property of its service does not: `BleRelay.stop` leaves `_t0` as it was.
stop-status_running :
    (Args : Type 0) (world : World Args) (s : AgentService) (r : BleRelay)
    → is_relay s ≡ true
    → is_some s.run_name ≡ true
    → s.tasks ≡ false
    → s.relay ≡ some r
    → world.log_closes ≡ true
    → world.log_finalizes ≡ true
    → r.t0 ≡ true
    → (is_running (stop world s).0 ≡ false) × (status_running (stop world s).0 ≡ true)
unfolding stop status_running Relay.is_running finish_run finalize finished
stop-status_running Args world s r h n k e l w t = rw (stop, h, n) (by_relay s.relay s.runlog e)
  where
    stopped : Option BleRelay → Option RunLog → AgentService
    stopped o log =
        (finished world (record s { relay = stopped_relay world o }) (finalize world log)).0

    by_relay :
        (o : Option BleRelay) (log : Option RunLog)
        → o ≡ some r
        → (is_running (stopped o log) ≡ false) × (status_running (stopped o log) ≡ true)
    by_relay none log q = absurd (ground arith)
    by_relay (some r') none q = ground (arith, stop-t0 world.link r')
    by_relay (some r') (some x) q = ground (arith, l, w, stop-t0 world.link r')
