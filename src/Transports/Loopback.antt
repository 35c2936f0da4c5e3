-- ===== src/Transports/Loopback.antt =====
-- `LoopbackBus` of vertex/transports/loopback.py. The draws of its random generator and the delays of
-- its links are a parameter, `Channel`.
use vertex_testbed.Wire.Codec.{encode_manufacturer_data, decode_manufacturer_data}
use vertex_testbed.Common.Bytes.{Bytes}
use vertex_testbed.Wire.Packet.{company_id, StatePacket}
use vertex_testbed.Common.{
  Exception, elem, not, ◌++◌, require, ◌+◌, ◌>>◌, ◌==◌, ◌>>=◌, if◌then◌else◌, Result, Bool, List,
  [], ◌∷◌, ℕ, Option, none, some, ok, true, false,
}

-- Between a sender and a receiver: whether the draw loses the packet, and whether there is a delay.
pub record Channel : Type 0 where
  pub loses : ℕ → ℕ → Bool
  pub delays : ℕ → ℕ → Bool

-- A packet on its way: the receiver, the bytes when the bus serialises, and the packet.
pub record Transit : Type 0 where
  pub receiver : ℕ
  pub wire : Option Bytes
  pub packet : StatePacket

-- `received` is what the callbacks were called with, in order, and `delayed` the tasks that
-- `broadcast` left to deliver later.
pub record LoopbackBus : Type 0 where
  pub serialise : Bool
  pub subscribers : List ℕ
  pub sent : ℕ
  pub delivered : ℕ
  pub dropped : ℕ
  pub received : List (ℕ × StatePacket)
  pub delayed : List Transit

unfoldable subscribe : LoopbackBus → ℕ → Result LoopbackBus
subscribe bus id = do
  require (not (elem id bus.subscribers)) Exception.value_error
  ok (record bus { subscribers = bus.subscribers ++ (id ∷ []) })

abbrev remove : ℕ → List ℕ → List ℕ
remove x [] = []
remove x (y ∷ ys) = let rest = remove x ys in if x == y then rest else y ∷ rest

unfoldable unsubscribe : LoopbackBus → ℕ → LoopbackBus
unsubscribe bus id = record bus { subscribers = remove id bus.subscribers }

-- What `_deliver` hands to the callback.
unfoldable pub unwrapped : Option Bytes → StatePacket → Result StatePacket
unwrapped none packet = ok packet
unwrapped (some wire) packet = decode_manufacturer_data company_id wire

unfoldable pub deliver : LoopbackBus → Transit → Result LoopbackBus
unfolding unwrapped
deliver bus x = do
  packet ← unwrapped x.wire x.packet
  ok (record bus {
    received = bus.received ++ ((x.receiver, packet) ∷ []);
    delivered = bus.delivered + 1;
  })

-- The loop of `broadcast` over the subscribers that are left.
unfoldable pub broadcast_from :
    Channel → ℕ → Option Bytes → StatePacket → List ℕ → LoopbackBus → Result LoopbackBus
unfolding deliver
broadcast_from channel sender wire packet [] bus = ok bus
broadcast_from channel sender wire packet (id ∷ ids) bus =
    let x : Transit = record { receiver = id; wire = wire; packet = packet } in
    let next = broadcast_from channel sender wire packet ids in
    if id == sender
    then next bus
    else if channel.loses sender id
    then next (record bus { dropped = bus.dropped + 1 })
    else if channel.delays sender id
    then next (record bus { delayed = bus.delayed ++ (x ∷ []) })
    else deliver bus x >>= next

unfoldable pub wire_of : Bool → StatePacket → Result (Option Bytes)
wire_of false packet = ok none
wire_of true packet = do bytes ← encode_manufacturer_data packet; ok (some bytes)

unfoldable pub broadcast : Channel → LoopbackBus → ℕ → StatePacket → Result LoopbackBus
unfolding broadcast_from wire_of
broadcast channel bus sender packet = do
  wire ← wire_of bus.serialise packet
  broadcast_from channel sender wire packet bus.subscribers (record bus { sent = bus.sent + 1 })

-- `LoopbackTransport`: one agent's attachment to the bus.
pub record LoopbackTransport : Type 0 where
  pub node_id : ℕ
  pub started : Bool

unfoldable start_transport :
    LoopbackTransport → LoopbackBus → Result (LoopbackTransport × LoopbackBus)
start_transport t bus =
    if t.started
    then ok (t, bus)
    else (do bus1 ← subscribe bus t.node_id; ok (record t { started = true }, bus1))

unfoldable stop_transport : LoopbackTransport → LoopbackBus → LoopbackTransport × LoopbackBus
stop_transport t bus = (record t { started = false }, unsubscribe bus t.node_id)

unfoldable publish_transport :
    Channel → LoopbackTransport → LoopbackBus → StatePacket → Result LoopbackBus
publish_transport channel t bus packet = do
  require t.started Exception.runtime_error
  broadcast channel bus t.node_id packet
