-- ===== src/Serial/UsbPacket.antt =====
-- The microgrid frames of vertex/serial/proto.py and the 64 bytes of a USB packet.
use vertex_testbed.Serial.Payload.{pack_i32s, flag_byte, is_positive}
use vertex_testbed.Serial.Frame.{crc16, build_frame-frame_bytes, frame_bytes, Frame, build_frame}
use vertex_testbed.Common.Dict.{lookup, Dict}
use vertex_testbed.Common.Bytes.{le_bytes, Bytes}
use vertex_testbed.Common.Int.{ℤ}
use vertex_testbed.Common.{
  ◌>>=◌, ltb, ◌&&◌, length-append, Exception, ◌++◌, ◌||◌, Result, refl, ◌*◌, ap, arith, ◌==◌, not,
  map, ◌+◌, ◌≤◌, ◌≡◌, length, ◌<◌, Bool, List, [], ◌∷◌, ℕ, suc, ok,
}
use vertex_testbed.Serial.FrameType
use vertex_testbed.Serial.Microgrid.{
  mg_virtual_fields, reference_q, mg_plant_fields, reference_p, none_extra, q_max, is_zero, p_max,
  mg_iface_fields, all_given, law_microgrid_lc, pin, kappa, given_zero, law_microgrid_adaptive,
  value_of, mg_block, encode_microgrid_plant, encode_microgrid_virtual, encode_microgrid_iface,
}
use vertex_testbed.Serial.PayloadLen.{
  HasLen-pack_i32s, HasLen-bind, HasLen-ok, HasLen-require, HasLen, has,
}

-- A payload that the encoder of a microgrid block builds for its frame type.
pub data Block : ℕ → Bytes → Type 0 where
  plant :
      {bs : Bytes} (profile : ℕ) (got : Dict ℤ)
      → encode_microgrid_plant profile got ≡ ok bs
      → Block FrameType.mg_plant bs
  virtual :
      {bs : Bytes} (got : Dict ℤ)
      → encode_microgrid_virtual got ≡ ok bs
      → Block FrameType.mg_virtual bs
  iface :
      {bs : Bytes} (law : ℕ) (terminal : Bool) (got : Dict ℤ)
      → encode_microgrid_iface law terminal got ≡ ok bs
      → Block FrameType.mg_iface bs

length-map : (f : ℕ → ℤ) (xs : List ℕ) → length (map f xs) ≡ length xs
length-map f [] = refl
length-map f (x ∷ xs) = ap suc (length-map f xs)

HasLen-mg_block :
    (fields : List ℕ) (head : Bytes) (got : Dict ℤ)
    → HasLen (mg_block fields head got) (length head + 4 * length fields)
unfolding mg_block
HasLen-mg_block fields head got =
    let n = length head + 4 * length fields in
    let tail : Bytes → Result Bytes = λ packed. ok (head ++ packed) in
    let values = map (value_of got) fields in
    HasLen-require (all_given fields got) Exception.proto_error _ n (
      HasLen-require (none_extra fields got) Exception.proto_error (pack_i32s values >>= tail) n (
        HasLen-bind (pack_i32s values) tail (4 * length values) n (HasLen-pack_i32s values) (λ bs h.
          has (omega (arith, h, length-append head bs, length-map (value_of got) fields)))))

HasLen-plant : (profile : ℕ) (got : Dict ℤ) → HasLen (encode_microgrid_plant profile got) 29
unfolding encode_microgrid_plant
HasLen-plant profile got =
    HasLen-require (is_positive (value_of got kappa)) Exception.proto_error _ 29 (
      HasLen-require (is_positive (value_of got p_max) && is_positive (value_of got q_max))
        Exception.proto_error _ 29
        (HasLen-require (ltb profile 256) Exception.value_error
          (mg_block mg_plant_fields (profile ∷ []) got) 29
          (HasLen-mg_block mg_plant_fields (profile ∷ []) got)))

HasLen-virtual : (got : Dict ℤ) → HasLen (encode_microgrid_virtual got) 48
unfolding encode_microgrid_virtual
HasLen-virtual got =
    HasLen-require
      (not (
        given_zero (lookup pin got)
        && (not (is_zero (value_of got reference_p)) || not (is_zero (value_of got reference_q)))))
      Exception.proto_error (mg_block mg_virtual_fields [] got) 48
      (HasLen-mg_block mg_virtual_fields [] got)

HasLen-iface :
    (law : ℕ) (terminal : Bool) (got : Dict ℤ) → HasLen (encode_microgrid_iface law terminal got) 38
unfolding encode_microgrid_iface
HasLen-iface law terminal got =
    HasLen-require (law == law_microgrid_adaptive || law == law_microgrid_lc) Exception.proto_error
      (mg_block mg_iface_fields (law ∷ flag_byte terminal ∷ []) got) 38
      (HasLen-mg_block mg_iface_fields (law ∷ flag_byte terminal ∷ []) got)

frame_fits :
    (t : ℕ) (bs : Bytes)
    → t < 256
    → length bs ≤ 58
    → (frame : Bytes) × (build_frame t bs ≡ ok frame) × (length frame ≤ 64)
unfolding le_bytes
frame_fits t bs h short =
    let f : Frame = record { type = t; payload = bs } in
    (
      frame_bytes f,
      build_frame-frame_bytes f h (omega arith),
      omega (arith, length-append bs (le_bytes 2 (crc16 ((t ∷ le_bytes 2 (length bs)) ++ bs)))),
    )

-- Every microgrid block that is built goes into a frame, and the frame fits one USB packet of 64
-- bytes.
Block-build_frame :
    (t : ℕ) (bs : Bytes)
    → Block t bs
    → (frame : Bytes) × (build_frame t bs ≡ ok frame) × (length frame ≤ 64)
Block-build_frame t bs (plant profile got e) =
    frame_fits t bs (omega arith) (omega (arith, HasLen-ok (HasLen-plant profile got) e))
Block-build_frame t bs (virtual got e) =
    frame_fits t bs (omega arith) (omega (arith, HasLen-ok (HasLen-virtual got) e))
Block-build_frame t bs (iface law terminal got e) =
    frame_fits t bs (omega arith) (omega (arith, HasLen-ok (HasLen-iface law terminal got) e))
