-- ===== src/Serial/PayloadLen.antt =====
-- The lengths of the payloads that the encoders of vertex/serial/proto.py build, against the table
-- `PAYLOAD_LEN` of what the peer accepts.
use vertex_testbed.Serial.Frame.{max_payload}
use vertex_testbed.Common.Int.{to_word, fits_int32, ℤ}
use vertex_testbed.Common.{
  if◌then◌else◌, refl, ◌&&◌, not, ◌-◌, true, inr, ◌==◌, ◌>>◌, require, inl, subst, leb, ◌^◌,
  length-append, ◌++◌, ap, arith, length, ◌*◌, ◌>>=◌, ltb, false, ◌≡◌, Exception, Result,
  Bool-cases, Bool, List, [], ◌∷◌, ℕ, suc, Option, none, some, ok, err,
}
use vertex_testbed.Common.Bytes.{length-le_bytes, Bytes, pack_u, pack_i32, to_bytes}
use vertex_testbed.Serial.FrameType
use vertex_testbed.Serial.Payload.{
  flag_byte, payload_len, is_positive, Algorithm, Disturbance, pack_i32s, encode_algorithm,
  encode_disturbance, encode_control,
}

-- A payload that an encoder builds for its frame type: those of a fixed length and 32-bit fields.
pub data Built : ℕ → Bytes → Type 0 where
  algorithm :
      {bs : Bytes} (a : Algorithm) → encode_algorithm a ≡ ok bs → Built FrameType.algorithm bs
  disturbance :
      {bs : Bytes} (d : Disturbance) → encode_disturbance d ≡ ok bs → Built FrameType.disturbance bs
  control :
      {bs : Bytes} (on : Bool) (seed epoch : ℕ)
      → encode_control on seed epoch ≡ ok bs
      → Built FrameType.control bs

-- What the table says of a length.
abbrev pub accepts : Option (Option ℕ) → ℕ → Bool
accepts none n = false
accepts (some none) n = leb n max_payload
accepts (some (some m)) n = n == m

-- What is built has `n` bytes.
pub data HasLen : Result Bytes → ℕ → Type 0 where
  has : {bs : Bytes} {n : ℕ} → length bs ≡ n → HasLen (ok bs) n
  fails : {e : Exception} {n : ℕ} → HasLen (err e) n

len_of : {bs : Bytes} {n : ℕ} → HasLen (ok bs) n → length bs ≡ n
len_of (has h) = h

pub HasLen-ok : {r : Result Bytes} {bs : Bytes} {n : ℕ} → HasLen r n → r ≡ ok bs → length bs ≡ n
HasLen-ok {r} {bs} {n} h e = len_of (subst (λ x. HasLen x n) e h)

pub HasLen-require :
    (b : Bool) (e : Exception) (r : Result Bytes) (n : ℕ) → HasLen r n → HasLen (require b e >> r) n
HasLen-require true e r n h = h
HasLen-require false e r n h = fails

pub HasLen-bind :
    (r : Result Bytes) (f : Bytes → Result Bytes) (m n : ℕ)
    → HasLen r m
    → ((bs : Bytes) → length bs ≡ m → HasLen (f bs) n)
    → HasLen (r >>= f) n
HasLen-bind (ok bs) f m n (has h) k = k bs h
HasLen-bind (err e) f m n h k = fails

HasLen-pack_u : (k n : ℕ) → HasLen (pack_u k n) k
unfolding pack_u
HasLen-pack_u k n = elim (Bool-cases (ltb n (256 ^ k))) [
  | inl e ↦ rw e (has (length-le_bytes k n))
  | inr e ↦ rw e fails
]

HasLen-to_bytes : (k n : ℕ) → HasLen (to_bytes k n) k
unfolding to_bytes
HasLen-to_bytes k n = elim (Bool-cases (ltb n (256 ^ k))) [
  | inl e ↦ rw e (has (length-le_bytes k n))
  | inr e ↦ rw e fails
]

HasLen-pack_i32 : (v : ℤ) → HasLen (pack_i32 v) 4
unfolding pack_i32
HasLen-pack_i32 v = elim (Bool-cases (fits_int32 v)) [
  | inl e ↦ rw e (has (length-le_bytes 4 (to_word (2 ^ 32) v)))
  | inr e ↦ rw e fails
]

pub HasLen-pack_i32s : (vs : List ℤ) → HasLen (pack_i32s vs) (4 * length vs)
unfolding pack_i32s
HasLen-pack_i32s [] = has (omega arith)
HasLen-pack_i32s (v ∷ vs) = HasLen-bind (pack_i32 v) _ 4 _ (HasLen-pack_i32 v) (λ a la.
    HasLen-bind (pack_i32s vs) _ (4 * length vs) _ (HasLen-pack_i32s vs)
      (λ b lb. has (omega (arith, la, lb, length-append a b))))

HasLen-control : (on : Bool) (seed epoch : ℕ) → HasLen (encode_control on seed epoch) 11
unfolding encode_control
HasLen-control on seed epoch =
    let tail : Bytes → Bytes → Result Bytes = λ a b. ok (flag_byte on ∷ (a ++ b)) in
    let packed = λ (a : Bytes). to_bytes 6 epoch >>= tail a in
    HasLen-require (leb seed 0xFFFFFFFF) Exception.proto_error _ 11 (
      HasLen-require (leb epoch (2 ^ 48 - 1)) Exception.proto_error (pack_u 4 seed >>= packed) 11 (
        HasLen-bind (pack_u 4 seed) packed 4 11 (HasLen-pack_u 4 seed) (λ a la.
          HasLen-bind (to_bytes 6 epoch) (tail a) 6 11 (HasLen-to_bytes 6 epoch) (λ b lb.
            has {bs = flag_byte on ∷ (a ++ b)} (omega (arith, la, lb, length-append a b))))))

HasLen-disturbance : (d : Disturbance) → HasLen (encode_disturbance d) 29
unfolding encode_disturbance
HasLen-disturbance d =
    let fields =
      d.sine_amplitude ∷ d.frequency ∷ d.phase ∷ d.noise_amplitude ∷ d.noise_offset ∷ d.beta
      ∷ d.samples ∷ [] in
    let tail : Bytes → Result Bytes = λ bs. ok (flag_byte d.active ∷ bs) in
    HasLen-require (is_positive d.samples) Exception.proto_error (pack_i32s fields >>= tail) 29 (
      HasLen-bind (pack_i32s fields) tail 28 29 (HasLen-pack_i32s fields) (λ a la. has (ap suc la)))

HasLen-algorithm : (a : Algorithm) → HasLen (encode_algorithm a) 40
unfolding encode_algorithm
HasLen-algorithm a =
    let fields =
      a.dt_ms ∷ a.clock_ms ∷ a.state0 ∷ a.vstate0 ∷ a.vartheta0 ∷ a.counter0 ∷ a.gain_ij ∷ a.delta
      ∷ a.eta ∷ a.alpha ∷ [] in
    HasLen-require (is_positive a.dt_ms && is_positive a.clock_ms) Exception.proto_error _ 40 (
      HasLen-require (is_positive a.alpha) Exception.proto_error (pack_i32s fields) 40
        (HasLen-pack_i32s fields))

-- The bytes of an ALGORITHM, a DISTURBANCE and a CONTROL payload.
abbrev pub built_len : ℕ → ℕ
built_len t = if t == FrameType.algorithm then 40 else if t == FrameType.disturbance then 29 else 11

-- An ALGORITHM payload that is built is of 40 bytes, a DISTURBANCE payload of 29 and a CONTROL
-- payload of 11. That is the length that the table gives the type of the last two, and not the one
-- that it gives the first.
pub Built-payload_len :
    (t : ℕ) (bs : Bytes)
    → Built t bs
    → (length bs ≡ built_len t)
      × (accepts (payload_len t) (length bs) ≡ not (t == FrameType.algorithm))
Built-payload_len t bs (algorithm a e) = rw (HasLen-ok (HasLen-algorithm a) e) (refl, refl)
Built-payload_len t bs (disturbance d e) = rw (HasLen-ok (HasLen-disturbance d) e) (refl, refl)
Built-payload_len t bs (control on seed epoch e) =
    rw (HasLen-ok (HasLen-control on seed epoch) e) (refl, refl)
