-- ===== src/Transports/Udp/Delivery.antt =====
-- What one transport broadcasts another delivers, and no datagram goes uncounted.
use vertex_testbed.Transports.Udp.{
  UdpStats, UdpTransport, publish, sent_as, decode_datagram, called, handle_packet, handle,
}
use vertex_testbed.Wire.Packet.{StatePacket, company_id}
use vertex_testbed.Wire.Packet
use vertex_testbed.Wire.Codec.{encode_manufacturer_data, decode_manufacturer_data}
use vertex_testbed.Wire.Reencode.{decode_manufacturer_data-encode}
use vertex_testbed.Agent.Neighbors.{Reception}
use vertex_testbed.Common.Bytes.{Bytes, from_le}
use vertex_testbed.Common.Int.{pos}
use vertex_testbed.Common.{
  length-append, List, [], ◌∷◌, ℕ, suc, none, Result, ok, err, true, false, Bool, Exception, ◌++◌,
  ◌==◌, ◌≡◌, ◌+◌, ◌⊎◌, inl, inr, leb, length, take, if◌then◌else◌, refl, ◌∙◌, Bool-cases, arith,
}

decode_datagram-prefixed :
    (out : Bytes) (p : StatePacket)
    → decode_manufacturer_data company_id out ≡ ok p
    → decode_datagram out ≡ ok p
unfolding decode_datagram decode_manufacturer_data
decode_datagram-prefixed out p e =
    go (Bool-cases (leb 2 (length out))) (Bool-cases (from_le (take 2 out) == company_id))
  where
    go :
        (leb 2 (length out) ≡ true) ⊎ (leb 2 (length out) ≡ false)
        → ((from_le (take 2 out) == company_id) ≡ true)
          ⊎ ((from_le (take 2 out) == company_id) ≡ false)
        → decode_datagram out ≡ ok p
    go (inl a) (inl b) = rw (decode_datagram, a, b) (rw (a, b) at e)
    go (inl a) (inr b) =
        let bad : err Exception.decode_error ≡ ok p = rw (a, b) at e in absurd (ground arith)
    go (inr a) b = let bad : err Exception.decode_error ≡ ok p = rw a at e in absurd (ground arith)

-- The receiver after a datagram that it hands on.
abbrev pub after_delivery : UdpTransport → Reception → UdpTransport
after_delivery u reception = record u {
  calls = u.calls ++ (reception ∷ []);
  stats = record (u.stats) { received = suc u.stats.received; delivered = suc u.stats.delivered };
}

abbrev pub after_echo : UdpTransport → UdpTransport
after_echo u = record u {
  stats = record (u.stats) {
    received = suc u.stats.received;
    self_filtered = suc u.stats.self_filtered;
  };
}

-- The sender after a broadcast: one datagram more is on the wire, and counted.
abbrev pub after_send : UdpTransport → Bytes → UdpTransport
after_send u payload = record u {
  wire = u.wire ++ (payload ∷ []);
  stats = record (u.stats) { sent = suc u.stats.sent };
}

-- A broadcast arrives. What an open transport puts on the wire for a valid packet, a transport of
-- another node that is subscribed, and whose callback returns, hands on as that packet with the
-- time of its arrival, once; a transport of the same node counts it as its own echo and hands
-- nothing on.
pub publish-handle :
    (u v : UdpTransport) (p : StatePacket) (returns : Reception → Bool) (now : ℕ)
    → Packet.IsValid p
    → u.is_open ≡ true
    → v.subscribed ≡ true
    → returns (record { packet = p; rx_time_us = pos now; rssi = none }) ≡ true
    → (payload : Bytes) × (publish true u p ≡ ok (after_send u payload))
      × (((p.node_id == v.node_id) ≡ false
            → handle returns v payload now
              ≡ after_delivery v (record { packet = p; rx_time_us = pos now; rssi = none }))
          × ((p.node_id == v.node_id) ≡ true → handle returns v payload now ≡ after_echo v))
unfolding publish handle handle_packet called sent_as
publish-handle u v p returns now h o s r = go (decode_manufacturer_data-encode p company_id h)
  where
    reception : Reception
    reception = record { packet = p; rx_time_us = pos now; rssi = none }

    arrives :
        (out : Bytes)
        → encode_manufacturer_data p ≡ ok out
        → decode_datagram out ≡ ok p
        → (payload : Bytes) × (publish true u p ≡ ok (after_send u payload))
          × (((p.node_id == v.node_id) ≡ false
                → handle returns v payload now ≡ after_delivery v reception)
              × ((p.node_id == v.node_id) ≡ true → handle returns v payload now ≡ after_echo v))
    arrives out e d = (
      out,
      rw (publish, o, e) refl,
      ((λ f. rw (handle, d) (rw f (rw s (rw r refl)))), (λ t. rw (handle, d) (rw t refl))),
    )

    go :
        (out : Bytes) × (encode_manufacturer_data p ≡ ok out)
          × (decode_manufacturer_data company_id out
              ≡ (if company_id == company_id then ok p else err Exception.decode_error))
        → (payload : Bytes) × (publish true u p ≡ ok (after_send u payload))
          × (((p.node_id == v.node_id) ≡ false
                → handle returns v payload now ≡ after_delivery v reception)
              × ((p.node_id == v.node_id) ≡ true → handle returns v payload now ≡ after_echo v))
    go (out, e, d) = arrives out e (decode_datagram-prefixed out p d)

abbrev pub handle_all : (Reception → Bool) → UdpTransport → List (Bytes × ℕ) → UdpTransport
handle_all returns u [] = u
handle_all returns u ((data_, now) ∷ ds) = handle_all returns (handle returns u data_ now) ds

abbrev settled : UdpStats → ℕ
settled s = s.delivered + s.self_filtered + s.undecodable

abbrev Counted : UdpTransport → ℕ → UdpTransport → Type 0
Counted u n u' =
    (u'.subscribed ≡ u.subscribed)
    × (u'.stats.received ≡ u.stats.received + n)
    × (settled u'.stats ≡ settled u.stats + n)
    × (length u'.calls + u.stats.delivered ≡ length u.calls + u'.stats.delivered)

handle_packet-Counted :
    (returns : Reception → Bool) (u : UdpTransport) (now : ℕ) (x : Result StatePacket)
    → ((r : Reception) → returns r ≡ true)
    → u.subscribed ≡ true
    → Counted u 1 (
        handle_packet returns
          (record u { stats = record (u.stats) { received = suc u.stats.received } })
          now
          x)
unfolding handle_packet called
handle_packet-Counted returns u now (err e) h s = (refl, omega arith, omega arith, omega arith)
handle_packet-Counted returns u now (ok p) h s = go (Bool-cases (p.node_id == u.node_id))
  where
    r : Reception
    r = record { packet = p; rx_time_us = pos now; rssi = none }

    go :
        ((p.node_id == u.node_id) ≡ true) ⊎ ((p.node_id == u.node_id) ≡ false)
        → Counted u 1 (
            handle_packet returns
              (record u { stats = record (u.stats) { received = suc u.stats.received } })
              now
              (ok p))
    go (inl t) = rw (handle_packet, t) (refl, omega arith, omega arith, omega arith)
    go (inr f) =
        rw (handle_packet, f)
          (rw s (
            rw (h r)
              (refl, omega arith, omega arith, omega (arith, length-append u.calls (r ∷ [])))))

-- No datagram goes uncounted: where the transport is subscribed and its callback returns, the
-- datagrams received are those delivered, those of the node itself and those that do not decode,
-- and the callback is called once for each that is counted as delivered.
handle_all-Counted :
    (returns : Reception → Bool) (ds : List (Bytes × ℕ)) (u : UdpTransport)
    → ((r : Reception) → returns r ≡ true)
    → u.subscribed ≡ true
    → Counted u (length ds) (handle_all returns u ds)
unfolding handle
handle_all-Counted returns [] u h s = (refl, omega arith, omega arith, omega arith)
handle_all-Counted returns ((data_, now) ∷ ds) u h s =
    go (handle returns u data_ now)
      (handle_packet-Counted returns u now (decode_datagram data_) h s)
      (handle_all-Counted returns ds (handle returns u data_ now) h)
  where
    go :
        (u' : UdpTransport)
        → Counted u 1 u'
        → (u'.subscribed ≡ true → Counted u' (length ds) (handle_all returns u' ds))
        → Counted u (suc (length ds)) (handle_all returns u' ds)
    go u' (k, a, b, c) ih = both (ih (k ∙ s))
      where
        both :
            Counted u' (length ds) (handle_all returns u' ds)
            → Counted u (suc (length ds)) (handle_all returns u' ds)
        both (k', a', b', c') = (k' ∙ k, omega arith, omega arith, omega arith)
