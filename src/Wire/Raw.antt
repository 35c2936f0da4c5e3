-- ===== src/Wire/Raw.antt =====
-- Byte strings of a frame's length as raw fields, and what the decoders of vertex/wire/codec.py
-- make of any fields.
use mathlib.Core.List.{append-nil}
use vertex_testbed.Common.{
  ℕ, ◌^◌, ◌<◌, ◌≡◌, refl, not, [], ◌∷◌, ◌++◌, arith, ◌==◌, length, take, drop, All, Exception,
  require, ◌>>◌,
}
use vertex_testbed.Common.Int.{of_word}
use vertex_testbed.Common.Bytes.{
  Bytes, IsByte, le_bytes, from_le-le_bytes, unpack_u-append, unpack_i32-word, Split-fields, Split,
}
use vertex_testbed.Wire.Packet.{
  StatePacket, state_packet, flag_enabled, flag_disturbance, version, v2_version,
}
use vertex_testbed.Wire.Codec.{decode_v1, decode_v2, has_flag}

-- The fields of a frame; v1 frames have a reserved byte, v2 frames a second coordinate.
pub record Fields : Type 0 where
  pub ver : ℕ
  pub flags : ℕ
  pub id : ℕ
  pub extra : ℕ
  pub seq : ℕ
  pub word : ℕ
  pub time : ℕ

pub record IsRaw (k : ℕ) (f : Fields) : Type 0 where
  pub ver_small : f.ver < 256
  pub flags_small : f.flags < 256
  pub id_small : f.id < 256
  pub extra_small : f.extra < 256 ^ k
  pub seq_small : f.seq < 2 ^ 16
  pub word_small : f.word < 2 ^ 32
  pub time_small : f.time < 2 ^ 48

abbrev pub raw_v1 : Fields → Bytes
raw_v1 f =
    le_bytes 1 f.ver
    ++ (le_bytes 1 f.flags
        ++ (le_bytes 1 f.id
            ++ (le_bytes 1 f.extra
                ++ (le_bytes 2 f.seq ++ (le_bytes 4 f.word ++ le_bytes 6 f.time)))))

abbrev pub raw_v2 : Fields → Bytes
raw_v2 f =
    le_bytes 1 f.ver
    ++ (le_bytes 1 f.flags
        ++ (le_bytes 1 f.id
            ++ (le_bytes 2 f.seq
                ++ (le_bytes 4 f.word ++ (le_bytes 4 f.extra ++ le_bytes 6 f.time)))))

of_Split_v1 :
    (bs : Bytes)
    → Split (1 ∷ 1 ∷ 1 ∷ 1 ∷ 2 ∷ 4 ∷ 6 ∷ []) bs
    → (f : Fields) × IsRaw 1 f × (bs ≡ raw_v1 f)
of_Split_v1 bs
      (
        ver,
        r1,
        e1,
        s1,
        (
          flags,
          r2,
          e2,
          s2,
          (
            id,
            r3,
            e3,
            s3,
            (res, r4, e4, s4, (seq, r5, e5, s5, (word, r6, e6, s6, (time, r7, e7, s7, e8)))),
          ),
        ),
      ) =
    (
      record {
        ver = ver;
        flags = flags;
        id = id;
        extra = res;
        seq = seq;
        word = word;
        time = time;
      },
      omega arith,
      rw (e1, e2, e3, e4, e5, e6, e7, e8, append-nil),
    )

pub fields_v1 :
    (bs : Bytes) → All IsByte bs → length bs ≡ 16 → (f : Fields) × IsRaw 1 f × (bs ≡ raw_v1 f)
fields_v1 bs h e = of_Split_v1 bs (Split-fields (1 ∷ 1 ∷ 1 ∷ 1 ∷ 2 ∷ 4 ∷ 6 ∷ []) bs h e)

of_Split_v2 :
    (bs : Bytes)
    → Split (1 ∷ 1 ∷ 1 ∷ 2 ∷ 4 ∷ 4 ∷ 6 ∷ []) bs
    → (f : Fields) × IsRaw 4 f × (bs ≡ raw_v2 f)
of_Split_v2 bs
      (
        ver,
        r1,
        e1,
        s1,
        (
          flags,
          r2,
          e2,
          s2,
          (
            id,
            r3,
            e3,
            s3,
            (seq, r4, e4, s4, (word, r5, e5, s5, (second, r6, e6, s6, (time, r7, e7, s7, e8)))),
          ),
        ),
      ) =
    (
      record {
        ver = ver;
        flags = flags;
        id = id;
        extra = second;
        seq = seq;
        word = word;
        time = time;
      },
      omega arith,
      rw (e1, e2, e3, e4, e5, e6, e7, e8, append-nil),
    )

pub fields_v2 :
    (bs : Bytes) → All IsByte bs → length bs ≡ 19 → (f : Fields) × IsRaw 4 f × (bs ≡ raw_v2 f)
fields_v2 bs h e = of_Split_v2 bs (Split-fields (1 ∷ 1 ∷ 1 ∷ 2 ∷ 4 ∷ 4 ∷ 6 ∷ []) bs h e)

-- The packet that the fields stand for.
abbrev pub packet_v1 : Fields → StatePacket
packet_v1 f = record {
  node_id = f.id;
  vstate = of_word (2 ^ 32) f.word ∷ [];
  seq = f.seq;
  tx_time_us = f.time;
  enabled = has_flag f.flags flag_enabled;
  disturbance_on = has_flag f.flags flag_disturbance;
}

abbrev pub packet_v2 : Fields → StatePacket
packet_v2 f = record (packet_v1 f) {
  vstate = of_word (2 ^ 32) f.word ∷ of_word (2 ^ 32) f.extra ∷ [];
}

pub decode_v1-raw :
    (f : Fields)
    → IsRaw 1 f
    → decode_v1 (raw_v1 f) ≡ (do
      require (f.ver == version) Exception.decode_error
      require (f.extra == 0) Exception.decode_error
      require (not (f.id == 0)) Exception.decode_error
      state_packet (packet_v1 f))
unfolding decode_v1
decode_v1-raw f h = rw (
  unpack_u-append 1 f.ver _ (omega arith),
  unpack_u-append 1 f.flags _ (omega arith),
  unpack_u-append 1 f.id _ (omega arith),
  unpack_u-append 1 f.extra _ (omega arith),
  unpack_u-append 2 f.seq _ (omega arith),
  unpack_i32-word f.word _ (omega arith),
  tail,
  from_le-le_bytes 6 f.time (omega arith),
)
  where
    tail : take 6 (drop 10 (raw_v1 f)) ≡ le_bytes 6 f.time
    tail = unfold le_bytes in refl

pub decode_v2-raw :
    (f : Fields)
    → IsRaw 4 f
    → decode_v2 (raw_v2 f) ≡ (do
      require (f.ver == v2_version) Exception.decode_error
      require (not (f.id == 0)) Exception.decode_error
      state_packet (packet_v2 f))
unfolding decode_v2
decode_v2-raw f h = rw (
  unpack_u-append 1 f.ver _ (omega arith),
  unpack_u-append 1 f.flags _ (omega arith),
  unpack_u-append 1 f.id _ (omega arith),
  unpack_u-append 2 f.seq _ (omega arith),
  unpack_i32-word f.word _ (omega arith),
  unpack_i32-word f.extra _ (omega arith),
  tail,
  from_le-le_bytes 6 f.time (omega arith),
)
  where
    tail : take 6 (drop 13 (raw_v2 f)) ≡ le_bytes 6 f.time
    tail = unfold le_bytes in refl
