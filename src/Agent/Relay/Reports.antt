-- ===== src/Agent/Relay/Reports.antt =====
-- The reports that a relay hands on.
use vertex_testbed.Serial.FrameType
use vertex_testbed.Serial.Frame.{Frame}
use vertex_testbed.Serial.StateReport.{StateReport, decode_state}
use vertex_testbed.Agent.Relay.{some, OnReport, hand_on, BleRelay, reported, handle_frame}
use vertex_testbed.Common.{
  none, List, [], ◌∷◌, ℕ, Option, Result, ok, err, true, false, ◌++◌, ◌≡◌, ◌==◌, ◌+◌, length,
  length-append, if◌then◌else◌, refl, arith, Bool-cases, inl, inr, ◌⊎◌, ap, ◌∙◌, sym,
}
use mathlib.Core.List.{append_assoc, append-nil}

-- The frames are handled in turn, also behind one from which `handle_frame` raised.
abbrev pub handle_all : OnReport → BleRelay → List (Frame × Option ℕ) → BleRelay
handle_all on_report r [] = r
handle_all on_report r ((f, t) ∷ fs) = handle_all on_report (handle_frame on_report r f t).0 fs

-- What a listener is called with, and nothing where there is none.
abbrev pub heard_by : OnReport → List (StateReport × Option ℕ) → List (StateReport × Option ℕ)
heard_by none reports = []
heard_by (some returns) reports = reports

-- The reports among the frames, with their times, and how many of the frames are STATE frames.
abbrev report_of : Result StateReport → Option ℕ → List (StateReport × Option ℕ)
report_of (err e) t = []
report_of (ok report) t = (report, t) ∷ []

abbrev state_report : Frame → Option ℕ → List (StateReport × Option ℕ)
state_report f t = if f.type == FrameType.state then report_of (decode_state f.payload) t else []

abbrev pub state_reports : List (Frame × Option ℕ) → List (StateReport × Option ℕ)
state_reports [] = []
state_reports ((f, t) ∷ fs) = state_report f t ++ state_reports fs

abbrev one : Frame → ℕ
one f = if f.type == FrameType.state then 1 else 0

abbrev pub state_frames : List (Frame × Option ℕ) → ℕ
state_frames [] = 0
state_frames ((f, t) ∷ fs) = one f + state_frames fs

abbrev Handled : OnReport → BleRelay → BleRelay → List (StateReport × Option ℕ) → ℕ → Type 0
Handled on_report r r' new n =
    (r'.handed_on ≡ r.handed_on ++ heard_by on_report new)
    × (r'.counters.reports ≡ r.counters.reports + length new)
    × (r'.counters.reports + r'.counters.malformed ≡ r.counters.reports + r.counters.malformed + n)

heard_by-nothing : (on_report : OnReport) → heard_by on_report [] ≡ []
heard_by-nothing none = refl
heard_by-nothing (some returns) = refl

heard_by-append :
    (on_report : OnReport) (xs ys : List (StateReport × Option ℕ))
    → heard_by on_report (xs ++ ys) ≡ heard_by on_report xs ++ heard_by on_report ys
heard_by-append none xs ys = refl
heard_by-append (some returns) xs ys = refl

unheard :
    (on_report : OnReport) (l : List (StateReport × Option ℕ)) → l ≡ l ++ heard_by on_report []
unheard on_report l = sym (append-nil l) ∙ ap (λ x. l ++ x) (sym (heard_by-nothing on_report))

handle_frame-Handled :
    (on_report : OnReport) (r : BleRelay) (f : Frame) (t : Option ℕ)
    → Handled on_report r (handle_frame on_report r f t).0 (state_report f t) (one f)
unfolding handle_frame reported hand_on
handle_frame-Handled on_report r f t = by_type (Bool-cases (f.type == FrameType.state))
  where
    by_report :
        (o : OnReport) (x : Result StateReport) → Handled o r (reported o r t x).0 (report_of x t) 1
    by_report o (err e) = (unheard o r.handed_on, omega arith, omega arith)
    by_report none (ok report) = (sym (append-nil r.handed_on), omega arith, omega arith)
    by_report (some returns) (ok report) = (refl, omega arith, omega arith)

    by_type :
        ((f.type == FrameType.state) ≡ true) ⊎ ((f.type == FrameType.state) ≡ false)
        → Handled on_report r (handle_frame on_report r f t).0 (state_report f t) (one f)
    by_type (inl e) = rw (e, handle_frame) (by_report on_report (decode_state f.payload))
    by_type (inr e) = rw (e, handle_frame) (unheard on_report r.handed_on, omega arith, omega arith)

Handled-trans :
    (o : OnReport) (r r' r'' : BleRelay) (new new' : List (StateReport × Option ℕ)) (n n' : ℕ)
    → Handled o r r' new n
    → Handled o r' r'' new' n'
    → Handled o r r'' (new ++ new') (n + n')
Handled-trans o r r' r'' new new' n n' (e, p, q) (e', p', q') = (
  e'
      ∙ ap (λ l. l ++ heard_by o new') e
      ∙ append_assoc r.handed_on (heard_by o new) (heard_by o new')
      ∙ ap (λ l. r.handed_on ++ l) (sym (heard_by-append o new new')),
  omega (arith, length-append new new'),
  omega arith,
)

-- A listener is called once for each report of the board that decodes, with the time of its frame,
-- in the order of arrival, and with nothing else, also where it raises; without a listener nothing
-- is handed on. Each STATE frame is counted once, as a report or as malformed, and no other frame is
-- counted.
pub handle_all-Handled :
    (on_report : OnReport) (fs : List (Frame × Option ℕ)) (r : BleRelay)
    → let r' = handle_all on_report r fs in
      (r'.handed_on ≡ r.handed_on ++ heard_by on_report (state_reports fs))
      × (r'.counters.reports ≡ r.counters.reports + length (state_reports fs))
      × (r'.counters.reports + r'.counters.malformed
          ≡ r.counters.reports + r.counters.malformed + state_frames fs)
handle_all-Handled o [] r = (unheard o r.handed_on, omega arith, omega arith)
handle_all-Handled o ((f, t) ∷ fs) r =
    let r' : BleRelay = (handle_frame o r f t).0 in
    Handled-trans o r r' (handle_all o r' fs) (state_report f t) (state_reports fs) (one f)
      (state_frames fs) (handle_frame-Handled o r f t) (handle_all-Handled o fs r')
