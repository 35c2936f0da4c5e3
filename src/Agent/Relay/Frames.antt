-- ===== src/Agent/Relay/Frames.antt =====
-- What `BleRelay.configure` asks of the board.
use vertex_testbed.Serial.FrameType
use vertex_testbed.Serial.Frame.{Frame}
use vertex_testbed.Serial.Payload.{encode_network, encode_algorithm, encode_disturbance}
use vertex_testbed.Serial.Stats.{PeerStats}
use vertex_testbed.Agent.Relay.{
  radio_frames, Assignment, BleRelay, RequestLink, TypedPayload, assignment_to_frames,
  trigger_frames, sent_as, send, send_all, then_do, noted, read_stats, push, configure,
}
use vertex_testbed.Common.{
  List, [], ◌∷◌, Option, none, some, Result, ok, err, ◌++◌, ◌≡◌, ◌≢◌, All, All-append, refl, ap,
  sym, ◌∙◌, ◌>>=◌, length, arith,
}
use vertex_testbed.Common.Bytes.{Bytes}
use mathlib.Core.List.{append_assoc, append-nil}

abbrev NotControl : TypedPayload → Type 0
NotControl f = f.0 ≢ FrameType.control

-- The requests that a call added, none of them a trigger.
abbrev pub AsksQuietly : BleRelay → BleRelay → Type 0
AsksQuietly r r' =
    (new : List TypedPayload) × (r'.requests ≡ r.requests ++ new) × All NotControl new

asks_nothing : (r r' : BleRelay) → r'.requests ≡ r.requests → AsksQuietly r r'
asks_nothing r r' e = ([], e ∙ sym (append-nil r.requests), tt)

asks_then : (r r' r'' : BleRelay) → AsksQuietly r r' → AsksQuietly r' r'' → AsksQuietly r r''
asks_then r r' r'' (new, e, h) (new', e', h') = (
  new ++ new',
  e' ∙ ap (λ l. l ++ new') e ∙ append_assoc r.requests new new',
  All-append NotControl new new' h h',
)

abbrev Keeps : BleRelay → BleRelay → Type 0
Keeps r r' = AsksQuietly r r' × (r'.assignment ≡ r.assignment)

sent_as-Keeps : (r r' : BleRelay) (x : Result Frame) → Keeps r r' → Keeps r (sent_as r' x).0
unfolding sent_as
sent_as-Keeps r r' (ok frame) h = h
sent_as-Keeps r r' (err e) h = h

send-Keeps :
    (link : RequestLink) (r : BleRelay) (f : TypedPayload)
    → NotControl f
    → Keeps r (send link r f).0
unfolding send
send-Keeps link r (type, payload) h =
    sent_as-Keeps r (record r { requests = r.requests ++ ((type, payload) ∷ []) })
      (link (length r.requests) type payload) ((((type, payload) ∷ []), refl, (h, tt)), refl)

Keeps-trans : (r r' r'' : BleRelay) → Keeps r r' → Keeps r' r'' → Keeps r r''
Keeps-trans r r' r'' (h, e) (h', e') = (asks_then r r' r'' h h', e' ∙ e)

send_all-Keeps :
    (link : RequestLink) (r : BleRelay) (fs : List TypedPayload)
    → All NotControl fs
    → Keeps r (send_all link r fs).0
unfolding send_all
send_all-Keeps link r [] h = (asks_nothing r r refl, refl)
send_all-Keeps link r (f ∷ fs) h =
    go (send link r f) (send-Keeps link r f h.0) (λ r'. send_all-Keeps link r' fs h.1)
  where
    go :
        (x : BleRelay × Result (Unit {0}))
        → Keeps r (x.0)
        → ((r' : BleRelay) → Keeps r' (send_all link r' fs).0)
        → Keeps r (then_do x λ r'. send_all link r' fs).0
    go (r', err e) k ih = k
    go (r', ok u) k ih = Keeps-trans r r' (send_all link r' fs).0 k (ih r')

noted-Keeps : (r r' : BleRelay) (x : Result PeerStats) → Keeps r r' → Keeps r (noted r' x)
unfolding noted
noted-Keeps r r' (ok values) h = h
noted-Keeps r r' (err e) h = h

read_stats-Keeps : (link : RequestLink) (r : BleRelay) → Keeps r (read_stats link r)
unfolding read_stats
read_stats-Keeps link r =
    noted-Keeps r (record r { requests = r.requests ++ ((FrameType.stats_req, []) ∷ []) }) _
      (((FrameType.stats_req, []) ∷ [], refl, (λ q. omega arith, tt)), refl)

-- The assignment after a configuration of which the outcome is known.
abbrev pub assignment_after : BleRelay → Assignment → Result (Unit {0}) → Option Assignment
assignment_after r a (ok u) = some a
assignment_after r a (err e) = r.assignment

abbrev AllQuiet : Result (List TypedPayload) → Type 0
AllQuiet (err e) = Unit {0}
AllQuiet (ok fs) = All NotControl fs

assignment_to_frames-AllQuiet : (a : Assignment) → AllQuiet (assignment_to_frames a none 0)
unfolding assignment_to_frames trigger_frames
assignment_to_frames-AllQuiet a =
    go (encode_network a.enabled a.node_id a.neighbors) (encode_algorithm a.algorithm)
      (encode_disturbance a.disturbance)
  where
    go :
        (x y z : Result Bytes)
        → AllQuiet (
            x >>= λ n. y >>= λ g. z >>= λ d.
            ok
              ((FrameType.network, n) ∷ (FrameType.algorithm, g) ∷ (FrameType.disturbance, d) ∷ []))
    go (err e) y z = tt
    go (ok n) (err e) z = tt
    go (ok n) (ok g) (err e) = tt
    go (ok n) (ok g) (ok d) = ((λ q. omega arith), ((λ q. omega arith), ((λ q. omega arith), tt)))

abbrev IsQuiet : Option TypedPayload → Type 0
IsQuiet none = Unit {0}
IsQuiet (some f) = NotControl f

radio_quiet :
    (fs : List TypedPayload) (radio : Option TypedPayload)
    → All NotControl fs
    → IsQuiet radio
    → All NotControl (fs ++ radio_frames radio)
radio_quiet fs none h k = All-append NotControl fs [] h tt
radio_quiet fs (some f) h k = All-append NotControl fs (f ∷ []) h (k, tt)

-- Configuring a relay does not start its run: whatever the board answers, none of the frames that
-- `configure` sends is the trigger, and the relay takes the assignment over exactly where it does
-- not raise. The radio frame, if there is one, is of another type too.
pub configure-AsksQuietly :
    (link : RequestLink) (r : BleRelay) (a : Assignment) (radio : Option TypedPayload)
    → IsQuiet radio
    → AsksQuietly r (configure link r a radio).0
      × ((configure link r a radio).0.assignment
          ≡ assignment_after r a (configure link r a radio).1)
unfolding configure push
configure-AsksQuietly link r a radio k =
    by_frames (assignment_to_frames a none 0) (assignment_to_frames-AllQuiet a)
  where
    by_send :
        (x : BleRelay × Result (Unit {0}))
        → Keeps r (x.0)
        → let y = then_do x λ r'. (read_stats link (record r' { assignment = some a }), ok tt) in
          AsksQuietly r (y.0) × (y.0.assignment ≡ assignment_after r a (y.1))
    by_send (r', err e) h = h
    by_send (r', ok u) h = asked (read_stats-Keeps link (record r' { assignment = some a }))
      where
        asked :
            Keeps
              (record r' { assignment = some a })
              (read_stats link (record r' { assignment = some a }))
            → AsksQuietly r (read_stats link (record r' { assignment = some a }))
              × ((read_stats link (record r' { assignment = some a })).assignment ≡ some a)
        asked (q, e) =
            (asks_then r r' (read_stats link (record r' { assignment = some a })) (h.0) q, e)

    by_frames :
        (x : Result (List TypedPayload))
        → AllQuiet x
        → AsksQuietly r (push link r a radio x).0
          × ((push link r a radio x).0.assignment ≡ assignment_after r a (push link r a radio x).1)
    by_frames (err e) h = (asks_nothing r r refl, refl)
    by_frames (ok fs) h =
        by_send (send_all link r (fs ++ radio_frames radio))
          (send_all-Keeps link r (fs ++ radio_frames radio) (radio_quiet fs radio h k))
