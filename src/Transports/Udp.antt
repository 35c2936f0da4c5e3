-- ===== src/Transports/Udp.antt =====
-- `UdpTransport` of vertex/transports/udp.py. The socket is a parameter: whether `sendto` raises;
-- and so is the callback, which may raise too.
pub mod Delivery
use vertex_testbed.Wire.Packet.{StatePacket, company_id}
use vertex_testbed.Wire.Codec.{encode_manufacturer_data, decode_manufacturer_data, decode_any}
use vertex_testbed.Agent.Neighbors.{Reception}
use vertex_testbed.Common.Bytes.{Bytes, from_le}
use vertex_testbed.Common.Int.{ℤ, pos}
use vertex_testbed.Common.{
  List, [], ◌∷◌, ℕ, suc, Option, none, some, Result, ok, err, true, false, Bool, Exception, ◌++◌,
  ◌==◌, ◌&&◌, leb, length, take, if◌then◌else◌, require, ◌>>◌, ◌>>=◌,
}

pub record UdpStats : Type 0 where
  pub sent : ℕ
  pub send_errors : ℕ
  pub received : ℕ
  pub delivered : ℕ
  pub self_filtered : ℕ
  pub undecodable : ℕ

-- `is_open` is whether `_transport` is set, `subscribed` whether `_on_receive` is; `wire` is the
-- datagrams sent, and `calls` what the callback was called with, in order.
pub record UdpTransport : Type 0 where
  pub node_id : ℕ
  pub is_open : Bool
  pub subscribed : Bool
  pub stats : UdpStats
  pub wire : List Bytes
  pub calls : List Reception

-- The constructor.
abbrev pub udp_transport : ℕ → UdpTransport
udp_transport node_id = record {
  node_id = node_id;
  is_open = false;
  subscribed = false;
  stats = record {
    sent = 0;
    send_errors = 0;
    received = 0;
    delivered = 0;
    self_filtered = 0;
    undecodable = 0;
  };
  wire = [];
  calls = [];
}

-- `start`, where the socket is bound; `stop`.
unfoldable pub start : UdpTransport → UdpTransport
start u = if u.is_open then u else record u { is_open = true; subscribed = true }

unfoldable pub stop : UdpTransport → UdpTransport
stop u = record u { is_open = false; subscribed = false }

unfoldable pub sent_as : UdpTransport → Bytes → Bool → UdpTransport
sent_as u payload true = record u {
  wire = u.wire ++ (payload ∷ []);
  stats = record (u.stats) { sent = suc u.stats.sent };
}
sent_as u payload false = record u {
  stats = record (u.stats) { send_errors = suc u.stats.send_errors };
}

-- `publish`; `sends` is whether `sendto` returns.
unfoldable pub publish : Bool → UdpTransport → StatePacket → Result UdpTransport
unfolding sent_as
publish sends u packet = do
  require u.is_open Exception.runtime_error
  payload ← encode_manufacturer_data packet
  ok (sent_as u payload sends)

-- `_decode`
unfoldable pub decode_datagram : Bytes → Result StatePacket
decode_datagram data_ =
    if leb 2 (length data_) && from_le (take 2 data_) == company_id
    then decode_manufacturer_data company_id data_
    else decode_any data_

unfoldable pub called : (Reception → Bool) → UdpTransport → Reception → UdpTransport
called returns u reception =
    let u' : UdpTransport = record u { calls = u.calls ++ (reception ∷ []) } in
    if returns reception
    then record u' { stats = record (u'.stats) { delivered = suc u'.stats.delivered } }
    else u'

unfoldable pub handle_packet :
    (Reception → Bool) → UdpTransport → ℕ → Result StatePacket → UdpTransport
unfolding called
handle_packet returns u now (err e) = record u {
  stats = record (u.stats) { undecodable = suc u.stats.undecodable };
}
handle_packet returns u now (ok packet) =
    if packet.node_id == u.node_id
    then record u { stats = record (u.stats) { self_filtered = suc u.stats.self_filtered } }
    else (if u.subscribed
        then called returns u (record { packet = packet; rx_time_us = pos now; rssi = none })
        else u)

-- `_handle`, at the reading `now` of the clock.
unfoldable pub handle : (Reception → Bool) → UdpTransport → Bytes → ℕ → UdpTransport
unfolding handle_packet decode_datagram
handle returns u data_ now =
    handle_packet returns
      (record u { stats = record (u.stats) { received = suc u.stats.received } }) now
      (decode_datagram data_)
