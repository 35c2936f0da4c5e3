-- ===== src/Wire/Reencode.antt =====
-- Encoding what `decode` of vertex/wire/codec.py accepted, the manufacturer framing and the v0 form.
use mathlib.Core.List.{append-nil}
use vertex_testbed.Wire.RoundTrip.{encode-frame_v2, encode-frame_v1, decode-encode}
use vertex_testbed.Common.Bytes.{
  IsByte, unpack_i32-append, length-le_bytes, from_le-le_bytes, unpack_u-append, drop-le_bytes,
  take-le_bytes, pack_i32, pack_u, le_bytes, Bytes, to_bytes,
}
use vertex_testbed.Common.Int.{to_word-of_word, of_word, to_word, fits_int32, ℤ}
use vertex_testbed.Common.{
  ap, subst, ◌⊎◌, ==_iff, inr, inl, not, All, get_or, length-append, zero, ◌∙◌, sym, length, arith,
  suc, ◌^◌, refl, ◌>>◌, require, bit_or, Result, false, ◌++◌, [], ◌∷◌, Exception, err, ◌==◌,
  if◌then◌else◌, ok, true, ◌≡◌, Bool, ◌<◌, ℕ,
}
use vertex_testbed.Wire.Codec.{
  decode, decode_v2, decode_v0, has_flag, decode_any, encode_v0, encode, decode_v1,
  decode_manufacturer_data, packet_flags, encode_manufacturer_data,
}
use vertex_testbed.Wire.Raw.{
  fields_v1, fields_v2, packet_v2, decode_v2-raw, raw_v2, decode_v1-raw, raw_v1, packet_v1, IsRaw,
  Fields,
}
use vertex_testbed.Wire.Packet.{
  v2_version, version, state_packet-IsValid, flag_disturbance, flag_enabled, v0_flag_disabled,
  v0_flag_enabled, company_id, StatePacket, IsValid, state_packet,
}

-- The two bits of the flags byte that are defined.
flags_twice :
    (n : ℕ)
    → n < 4
    → bit_or
        (if has_flag n flag_enabled then flag_enabled else 0)
        (if has_flag n flag_disturbance then flag_disturbance else 0)
      ≡ n
flags_twice zero h = refl
flags_twice (suc zero) h = refl
flags_twice (suc (suc zero)) h = refl
flags_twice (suc (suc (suc zero))) h = refl
flags_twice (suc (suc (suc (suc n)))) h = absurd (omega arith)

-- A chain of `require` that returned passed every test.
passed {ℓ} :
    {A : Type ℓ} (b : Bool) (x : Exception) (k : Result A) {a : A}
    → (require b x >> k) ≡ ok a
    → (b ≡ true) × (k ≡ ok a)
passed true x k h = (refl, h)
passed false x k h = cc

reencode_v1 :
    (f : Fields) (p : StatePacket)
    → IsRaw 1 f
    → f.flags < 4
    → decode_v1 (raw_v1 f) ≡ ok p
    → encode p ≡ ok (raw_v1 f)
unfolding packet_flags
reencode_v1 f p raw small e =
    let (ver, e1) =
      passed (f.ver == version) Exception.decode_error _ (sym (decode_v1-raw f raw) ∙ e) in
    let (extra, e2) = passed (f.extra == 0) Exception.decode_error _ e1 in
    let (id, e3) =
      passed (not (f.id == 0)) Exception.decode_error (state_packet (packet_v1 f)) e2 in
    let (same, valid) = state_packet-IsValid (packet_v1 f) p e3 in
    rw same (
      encode-frame_v1 (packet_v1 f) (of_word (2 ^ 32) f.word) refl valid
      ∙ rw (
        flags_twice f.flags small,
        to_word-of_word f.word (omega arith),
        (==_iff f.ver version).0 ver,
        (==_iff f.extra 0).0 extra,
      ))

reencode_v2 :
    (f : Fields) (p : StatePacket)
    → IsRaw 4 f
    → f.flags < 4
    → decode_v2 (raw_v2 f) ≡ ok p
    → encode p ≡ ok (raw_v2 f)
unfolding packet_flags
reencode_v2 f p raw small e =
    let (ver, e1) =
      passed (f.ver == v2_version) Exception.decode_error _ (sym (decode_v2-raw f raw) ∙ e) in
    let (id, e3) =
      passed (not (f.id == 0)) Exception.decode_error (state_packet (packet_v2 f)) e1 in
    let (same, valid) = state_packet-IsValid (packet_v2 f) p e3 in
    rw same (
      encode-frame_v2 (packet_v2 f) (of_word (2 ^ 32) f.word) (of_word (2 ^ 32) f.extra) refl valid
      ∙ rw (
        flags_twice f.flags small,
        to_word-of_word f.word (omega arith),
        to_word-of_word f.extra (omega arith),
        (==_iff f.ver v2_version).0 ver,
      ))

-- The flags byte stands at offset 1 of both frames.
second_byte_v1 : (f : Fields) → f.flags < 256 → get_or (raw_v1 f) 1 0 ≡ f.flags
unfolding le_bytes
second_byte_v1 f h = omega arith

second_byte_v2 : (f : Fields) → f.flags < 256 → get_or (raw_v2 f) 1 0 ≡ f.flags
unfolding le_bytes
second_byte_v2 f h = omega arith

encode-decode_v1 :
    (bs : Bytes) (p : StatePacket)
    → ((f : Fields) × IsRaw 1 f × (bs ≡ raw_v1 f))
    → get_or bs 1 0 < 4
    → decode_v1 bs ≡ ok p
    → encode p ≡ ok bs
encode-decode_v1 bs p (f, raw, same) small e =
    let low : f.flags < 4 =
      subst (λ n. n < 4) (ap (λ l. get_or l 1 0) same ∙ second_byte_v1 f (omega arith)) small in
    reencode_v1 f p raw low (sym (ap decode_v1 same) ∙ e) ∙ ap ok (sym same)

encode-decode_v2 :
    (bs : Bytes) (p : StatePacket)
    → ((f : Fields) × IsRaw 4 f × (bs ≡ raw_v2 f))
    → get_or bs 1 0 < 4
    → decode_v2 bs ≡ ok p
    → encode p ≡ ok bs
encode-decode_v2 bs p (f, raw, same) small e =
    let low : f.flags < 4 =
      subst (λ n. n < 4) (ap (λ l. get_or l 1 0) same ∙ second_byte_v2 f (omega arith)) small in
    reencode_v2 f p raw low (sym (ap decode_v2 same) ∙ e) ∙ ap ok (sym same)

-- Which decoder answered.
decode-cases :
    (bs : Bytes) (p : StatePacket)
    → decode bs ≡ ok p
    → ((length bs ≡ 19) × (decode_v2 bs ≡ ok p)) ⊎ ((length bs ≡ 16) × (decode_v1 bs ≡ ok p))
unfolding decode
decode-cases bs p e = ground arith

-- What `decode` accepts with no undefined bit in the flags byte, `encode` writes back byte for
-- byte: the two are inverse to each other.
pub encode-decode :
    (bs : Bytes) (p : StatePacket)
    → All IsByte bs
    → get_or bs 1 0 < 4
    → decode bs ≡ ok p
    → encode p ≡ ok bs
encode-decode bs p h small e = elim (decode-cases bs p e) [
  | inl (len, read) ↦ encode-decode_v2 bs p (fields_v2 bs h len) small read
  | inr (len, read) ↦ encode-decode_v1 bs p (fields_v1 bs h len) small read
]

-- `decode` of the manufacturer data of a valid packet gives the packet back; under another company
-- id the same bytes are refused with `DecodeError`.
pub decode_manufacturer_data-encode :
    (p : StatePacket) (company : ℕ)
    → IsValid p
    → (out : Bytes) × (encode_manufacturer_data p ≡ ok out)
      × (decode_manufacturer_data company out
          ≡ (if company == company_id then ok p else err Exception.decode_error))
unfolding encode_manufacturer_data decode_manufacturer_data to_bytes
decode_manufacturer_data-encode p company h =
    let (out, written, size, back, any) = decode-encode p h in
    (
      le_bytes 2 company_id ++ out,
      rw written,
      ground (
        arith,
        take-le_bytes 2 company_id out,
        drop-le_bytes 2 company_id out,
        from_le-le_bytes 2 company_id (omega arith),
        length-append (le_bytes 2 company_id) out,
        length-le_bytes 2 company_id,
        back,
      ),
    )

-- The bytes of a v0 payload.
frame_v0 : ℕ → ℤ → Bool → Bytes
frame_v0 id v on =
    le_bytes 1 (if on then v0_flag_enabled else v0_flag_disabled)
    ++ (le_bytes 1 id ++ le_bytes 4 (to_word (2 ^ 32) v))

decode_any-frame_v0 :
    (id : ℕ) (v : ℤ) (on : Bool) → decode_any (frame_v0 id v on) ≡ decode_v0 (frame_v0 id v on)
unfolding decode_any frame_v0 le_bytes
decode_any-frame_v0 id v true = refl
decode_any-frame_v0 id v false = refl

length-frame_v0 : (id : ℕ) (v : ℤ) (on : Bool) → length (frame_v0 id v on) ≡ 6
unfolding frame_v0 le_bytes
length-frame_v0 id v on = refl

flag_v0 : (on : Bool) → (if on then v0_flag_enabled else v0_flag_disabled) < 256
flag_v0 true = omega arith
flag_v0 false = omega arith

decode_v0-frame :
    (id : ℕ) (v : ℤ) (on : Bool)
    → id < 256
    → fits_int32 v ≡ true
    → decode_v0 (frame_v0 id v on) ≡ (
        if id == 0
        then err Exception.decode_error
        else ok (record {
          node_id = id;
          vstate = v ∷ [];
          seq = 0;
          tx_time_us = 0;
          enabled = on;
          disturbance_on = false;
        }))
unfolding decode_v0 frame_v0
decode_v0-frame id v on small fits =
    rw
      (
        length-frame_v0 id v on,
        unpack_u-append 1 (if on then v0_flag_enabled else v0_flag_disabled) _ (flag_v0 on),
        unpack_u-append 1 id _ small,
        ← append-nil (le_bytes 4 (to_word (2 ^ 32) v)),
        unpack_i32-append v [] fits,
      )
      (unfold state_packet in ground (arith, fits))

-- A v0 payload is read back by `decode_any` with no sequence number and no time; a node id of 0,
-- which `encode_v0` writes without complaint, is refused by `decode_any`.
decode_any-encode_v0 :
    (id : ℕ) (v : ℤ) (on : Bool)
    → id < 256
    → fits_int32 v ≡ true
    → (out : Bytes) × (encode_v0 id v on ≡ ok out)
      × (decode_any out ≡ (
          if id == 0
          then err Exception.decode_error
          else ok (record {
            node_id = id;
            vstate = v ∷ [];
            seq = 0;
            tx_time_us = 0;
            enabled = on;
            disturbance_on = false;
          })))
decode_any-encode_v0 id v on small fits = (
  frame_v0 id v on,
  unfold encode_v0 pack_u pack_i32 frame_v0 in ground arith,
  decode_any-frame_v0 id v on ∙ decode_v0-frame id v on small fits,
)
