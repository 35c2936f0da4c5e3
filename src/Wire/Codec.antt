-- ===== src/Wire/Codec.antt =====
-- `encode`, `decode`, `_decode_v2`, the manufacturer framing, the v0 format and `decode_any` of
-- vertex/wire/codec.py.
use vertex_testbed.Common.{
  ℕ, Bool, false, not, ◌&&◌, ◌||◌, List, [], ◌∷◌, ◌++◌, leb, ◌==◌, if◌then◌else◌, length, take,
  drop, Result, ok, err, Exception, require, ◌>>=◌, ◌>>◌, bit_and, bit_or,
}
use vertex_testbed.Common.Int.{ℤ, fits_int32}
use vertex_testbed.Common.Bytes.{Bytes, from_le, pack_u, pack_i32, to_bytes, unpack_u, unpack_i32}
use vertex_testbed.Wire.Packet.{
  StatePacket, state_packet, version, v2_version, payload_size, v2_payload_size, company_id,
  v0_payload_size, v0_flag_enabled, v0_flag_disabled, flag_enabled, flag_disturbance,
}

-- `data[:1] == bytes([b])`
abbrev pub starts_with_byte : ℕ → Bytes → Bool
starts_with_byte b [] = false
starts_with_byte b (x ∷ _) = x == b

-- `bool(flags & mask)`
abbrev pub has_flag : ℕ → ℕ → Bool
has_flag flags mask = not (bit_and flags mask == 0)

unfoldable pub packet_flags : StatePacket → ℕ
packet_flags p =
    bit_or (if p.enabled then flag_enabled else 0)
      (if p.disturbance_on then flag_disturbance else 0)

-- `_HEAD.pack(VERSION, flags, self.node_id, 0, self.seq, self.vstate[0])`
unfoldable pub pack_head : ℕ → ℕ → ℕ → ℤ → Result Bytes
pack_head flags node_id seq v = do
  a ← pack_u 1 version
  b ← pack_u 1 flags
  c ← pack_u 1 node_id
  d ← pack_u 1 0
  e ← pack_u 2 seq
  f ← pack_i32 v
  ok (a ++ (b ++ (c ++ (d ++ (e ++ f)))))

-- `_HEAD2.pack(V2_VERSION, flags, self.node_id, self.seq, self.vstate[0], self.vstate[1])`
unfoldable pub pack_head2 : ℕ → ℕ → ℕ → ℤ → ℤ → Result Bytes
pack_head2 flags node_id seq v w = do
  a ← pack_u 1 v2_version
  b ← pack_u 1 flags
  c ← pack_u 1 node_id
  e ← pack_u 2 seq
  f ← pack_i32 v
  g ← pack_i32 w
  ok (a ++ (b ++ (c ++ (e ++ (f ++ g)))))

-- The branch on `len(self.vstate)`; indexing past the end is Python's `IndexError`.
encode_head : ℕ → StatePacket → List ℤ → Result Bytes
encode_head flags p [] = err Exception.index_error
encode_head flags p (v ∷ []) = pack_head flags p.node_id p.seq v
encode_head flags p (v ∷ w ∷ _) = pack_head2 flags p.node_id p.seq v w

unfoldable pub encode : StatePacket → Result Bytes
unfolding encode_head
encode p = do
  out ← encode_head (packet_flags p) p p.vstate
  time ← to_bytes 6 p.tx_time_us
  ok (out ++ time)

unfoldable pub decode_v2 : Bytes → Result StatePacket
decode_v2 bytes = do
  (ver, r1) ← unpack_u 1 bytes
  (flags, r2) ← unpack_u 1 r1
  (node_id, r3) ← unpack_u 1 r2
  (seq, r4) ← unpack_u 2 r3
  (z_p, r5) ← unpack_i32 r4
  (z_q, r6) ← unpack_i32 r5
  require (ver == v2_version) Exception.decode_error
  require (not (node_id == 0)) Exception.decode_error
  state_packet (record {
    node_id = node_id;
    vstate = z_p ∷ z_q ∷ [];
    seq = seq;
    tx_time_us = from_le (take 6 (drop 13 bytes));
    enabled = has_flag flags flag_enabled;
    disturbance_on = has_flag flags flag_disturbance;
  })

-- The v1 part of `decode`, past the tests on the length.
unfoldable pub decode_v1 : Bytes → Result StatePacket
decode_v1 bytes = do
  (ver, r1) ← unpack_u 1 bytes
  (flags, r2) ← unpack_u 1 r1
  (node_id, r3) ← unpack_u 1 r2
  (reserved, r4) ← unpack_u 1 r3
  (seq, r5) ← unpack_u 2 r4
  (v, r6) ← unpack_i32 r5
  require (ver == version) Exception.decode_error
  require (reserved == 0) Exception.decode_error
  require (not (node_id == 0)) Exception.decode_error
  state_packet (record {
    node_id = node_id;
    vstate = v ∷ [];
    seq = seq;
    tx_time_us = from_le (take 6 (drop 10 bytes));
    enabled = has_flag flags flag_enabled;
    disturbance_on = has_flag flags flag_disturbance;
  })

unfoldable pub decode : Bytes → Result StatePacket
decode bytes =
    if length bytes == v2_payload_size && starts_with_byte v2_version bytes
    then decode_v2 bytes
    else if not (length bytes == payload_size)
    then err Exception.decode_error
    else decode_v1 bytes

unfoldable pub encode_manufacturer_data : StatePacket → Result Bytes
encode_manufacturer_data p = do id ← to_bytes 2 company_id; body ← encode p; ok (id ++ body)

unfoldable pub decode_manufacturer_data : ℕ → Bytes → Result StatePacket
decode_manufacturer_data company bytes = do
  require (leb 2 (length bytes)) Exception.decode_error
  require (from_le (take 2 bytes) == company) Exception.decode_error
  decode (drop 2 bytes)

unfoldable pub encode_v0 : ℕ → ℤ → Bool → Result Bytes
encode_v0 node_id v enabled = do
  require (fits_int32 v) Exception.value_error
  a ← pack_u 1 (if enabled then v0_flag_enabled else v0_flag_disabled)
  b ← pack_u 1 node_id
  c ← pack_i32 v
  ok (a ++ (b ++ c))

unfoldable pub decode_v0 : Bytes → Result StatePacket
decode_v0 bytes = do
  require (leb v0_payload_size (length bytes)) Exception.decode_error
  (flag, r1) ← unpack_u 1 bytes
  (node_id, r2) ← unpack_u 1 r1
  (v, r3) ← unpack_i32 r2
  require (flag == v0_flag_enabled || flag == v0_flag_disabled) Exception.decode_error
  require (not (node_id == 0)) Exception.decode_error
  state_packet (record {
    node_id = node_id;
    vstate = v ∷ [];
    seq = 0;
    tx_time_us = 0;
    enabled = flag == v0_flag_enabled;
    disturbance_on = false;
  })

unfoldable pub decode_any : Bytes → Result StatePacket
decode_any [] = err Exception.decode_error
decode_any (first ∷ rest) =
    let bytes = first ∷ rest in
    if first == v2_version && length bytes == v2_payload_size
    then decode bytes
    else if first == version && length bytes == payload_size
    then decode bytes
    else if first == v0_flag_enabled || first == v0_flag_disabled
    then decode_v0 bytes
    else err Exception.decode_error
