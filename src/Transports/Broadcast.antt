-- ===== src/Transports/Broadcast.antt =====
-- Who hears a broadcast on the bus of vertex/transports/loopback.py, and what.
use vertex_testbed.Wire.Codec.{encode_manufacturer_data}
use vertex_testbed.Wire.Reencode.{decode_manufacturer_data-encode}
use vertex_testbed.Common.Bytes.{Bytes}
use vertex_testbed.Wire.Packet.{company_id, IsValid, StatePacket}
use mathlib.Core.List.{append_assoc, append-nil}
use vertex_testbed.Transports.Loopback.{wire_of}
use vertex_testbed.Common.{
  refl, ◌∙◌, length, inr, inl, map, Bool-cases, ◌&&◌, arith, ◌++◌, ◌==◌, sym, ◌+◌, ◌≡◌, not, Bool,
  if◌then◌else◌, List, [], ◌∷◌, ℕ, Option, none, some, ok, true, false,
}
use vertex_testbed.Transports.Loopback.{
  LoopbackBus, Channel, broadcast, broadcast_from, deliver, unwrapped,
}

-- The subscribers that hear the packet at once, and those that the draw keeps it from.
abbrev pub hears : Channel → ℕ → ℕ → Bool
hears channel sender id =
    not (id == sender) && not (channel.loses sender id) && not (channel.delays sender id)

abbrev misses : Channel → ℕ → ℕ → Bool
misses channel sender id = not (id == sender) && channel.loses sender id

abbrev hearers : Channel → ℕ → List ℕ → List ℕ
hearers channel sender [] = []
hearers channel sender (id ∷ ids) =
    let rest = hearers channel sender ids in if hears channel sender id then id ∷ rest else rest

abbrev missers : Channel → ℕ → List ℕ → List ℕ
missers channel sender [] = []
missers channel sender (id ∷ ids) =
    let rest = missers channel sender ids in if misses channel sender id then id ∷ rest else rest

-- The bus after a broadcast of `packet` to `ids`.
pub record Heard (channel : Channel) (sender : ℕ) (packet : StatePacket) (ids : List ℕ)
    (bus bus' : LoopbackBus) : Type 0 where
  pub calls : bus'.received ≡ bus.received ++ map (λ id. (id, packet)) (hearers channel sender ids)
  pub deliveries : bus'.delivered ≡ bus.delivered + length (hearers channel sender ids)
  pub drops : bus'.dropped ≡ bus.dropped + length (missers channel sender ids)
  pub sends : bus'.sent ≡ bus.sent
  pub same_subscribers : bus'.subscribers ≡ bus.subscribers

broadcast_from-Heard :
    (channel : Channel) (sender : ℕ) (wire : Option Bytes) (packet : StatePacket)
    → unwrapped wire packet ≡ ok packet
    → (ids : List ℕ) (bus : LoopbackBus)
    → (bus' : LoopbackBus) × (broadcast_from channel sender wire packet ids bus ≡ ok bus')
      × Heard channel sender packet ids bus bus'
unfolding broadcast_from deliver
broadcast_from-Heard channel sender wire packet same [] bus = (
  bus,
  refl,
  record {
    calls = sym (append-nil bus.received);
    deliveries = omega arith;
    drops = omega arith;
    sends = refl;
    same_subscribers = refl;
  },
)
broadcast_from-Heard channel sender wire packet same (id ∷ ids) bus =
    elim (Bool-cases (id == sender)) [
      | inl e ↦
          let (bus', ran, h) = broadcast_from-Heard channel sender wire packet same ids bus in
          (
            bus',
            rw e ran,
            (record {
              calls = rw e h.calls;
              deliveries = rw e h.deliveries;
              drops = rw e h.drops;
              sends = h.sends;
              same_subscribers = h.same_subscribers;
            }),
          )
      | inr e ↦ elim (Bool-cases (channel.loses sender id)) [
        | inl f ↦
            let (bus', ran, h) =
              broadcast_from-Heard channel sender wire packet same ids
                (record bus { dropped = bus.dropped + 1 }) in
            (
              bus',
              rw (e, f) ran,
              (record {
                calls = rw (e, f) h.calls;
                deliveries = rw (e, f) h.deliveries;
                drops = rw (e, f) (omega (arith, h.drops));
                sends = h.sends;
                same_subscribers = h.same_subscribers;
              }),
            )
        | inr f ↦ elim (Bool-cases (channel.delays sender id)) [
          | inl g ↦
              let (bus', ran, h) =
                broadcast_from-Heard channel sender wire packet same ids (record bus {
                  delayed =
                      bus.delayed ++ (record { receiver = id; wire = wire; packet = packet } ∷ []);
                }) in
              (
                bus',
                rw (e, f, g) ran,
                (record {
                  calls = rw (e, f, g) h.calls;
                  deliveries = rw (e, f, g) h.deliveries;
                  drops = rw (e, f) h.drops;
                  sends = h.sends;
                  same_subscribers = h.same_subscribers;
                }),
              )
          | inr g ↦
              let (bus', ran, h) =
                broadcast_from-Heard channel sender wire packet same ids (record bus {
                  received = bus.received ++ ((id, packet) ∷ []);
                  delivered = bus.delivered + 1;
                }) in
              (
                bus',
                rw (e, f, g, same) ran,
                (record {
                  calls =
                      rw (e, f, g)
                        (h.calls
                          ∙ append_assoc bus.received ((id, packet) ∷ [])
                              (map (λ i. (i, packet)) (hearers channel sender ids)));
                  deliveries = rw (e, f, g) (omega (arith, h.deliveries));
                  drops = rw (e, f) h.drops;
                  sends = h.sends;
                  same_subscribers = h.same_subscribers;
                }),
              )
        ]
      ]
    ]

wire_none : (b : Bool) (packet : StatePacket) → b ≡ false → wire_of b packet ≡ ok none
unfolding wire_of
wire_none b packet e = rw e refl

wire_some :
    (b : Bool) (packet : StatePacket) (out : Bytes)
    → b ≡ true
    → encode_manufacturer_data packet ≡ ok out
    → wire_of b packet ≡ ok (some out)
unfolding wire_of
wire_some b packet out e written = rw (e, written) refl

-- A valid packet that is broadcast arrives unchanged, through the codec or not, at every subscriber
-- but the sender that the draw does not keep it from and that no delay holds up, once and in their
-- order; the bus counts one packet sent, each delivery, and each loss.
pub broadcast-Heard :
    (channel : Channel) (bus : LoopbackBus) (sender : ℕ) (packet : StatePacket)
    → IsValid packet
    → (bus' : LoopbackBus) × (broadcast channel bus sender packet ≡ ok bus')
      × Heard channel sender packet bus.subscribers (record bus { sent = bus.sent + 1 }) bus'
unfolding broadcast unwrapped
broadcast-Heard channel bus sender packet valid = elim (Bool-cases bus.serialise) [
  | inr e ↦
      let (bus', ran, h) =
        broadcast_from-Heard channel sender none packet refl bus.subscribers started in
      (bus', rw (wire_none bus.serialise packet e) ran, h)
  | inl e ↦
      let (out, written, back) = decode_manufacturer_data-encode packet company_id valid in
      let (bus', ran, h) =
        broadcast_from-Heard channel sender (some out) packet back bus.subscribers started in
      (bus', rw (wire_some bus.serialise packet out e written) ran, h)
]
  where
    started : LoopbackBus
    started = record bus { sent = bus.sent + 1 }
