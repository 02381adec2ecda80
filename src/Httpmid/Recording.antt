-- ===== src/Httpmid/Recording.antt =====
-- What the recorder observes of a response.
use strava_auth_proxy.Prelude.{
  ℕ, ◌≡◌, ◌≢◌, refl, arith, Bool, true, false, not, ◌||◌, Option, none, some, List, [], ◌∷◌,
  eqb_iff,
}
use strava_auth_proxy.Httpmid.{
  Call, write_header, write, flush, Wire, is_informational, wire_step, Recorder, recorder_step,
}

-- A handler that does not switch protocols, and flushes only after a header or a write.
abbrev pub IsOrderly : Bool → List Call → Type 0
IsOrderly wrote [] = Unit {0}
IsOrderly wrote (write_header code ∷ calls) =
    (code ≢ 101) × IsOrderly (wrote || not (is_informational code)) calls
IsOrderly wrote (write n ∷ calls) = IsOrderly true calls
IsOrderly wrote (flush ∷ calls) = (wrote ≡ true) × IsOrderly true calls

abbrev pub run_recorder : List Call → Recorder → Recorder
run_recorder [] rec = rec
run_recorder (c ∷ calls) rec = run_recorder calls (recorder_step c rec)

abbrev pub run_wire : List Call → Wire → Wire
run_wire [] w = w
run_wire (c ∷ calls) w = run_wire calls (wire_step c w)

abbrev pub status_of : Wire → ℕ
status_of w = elim w.status [ none ↦ 200 | some code ↦ code ]

abbrev is_some : Option ℕ → Bool
is_some none = false
is_some (some code) = true

-- What was recorded is what was sent.
pub record IsAccurate (rec : Recorder) : Type 0 where
  pub status : rec.status ≡ status_of rec.wire
  pub bytes : rec.bytes ≡ rec.wire.bytes
  pub wrote : rec.wrote_header ≡ is_some rec.wire.status

recorder_step-IsAccurate :
    (c : Call) (rec : Recorder)
    → IsOrderly rec.wrote_header (c ∷ [])
    → IsAccurate rec
    → IsAccurate (recorder_step c rec)
unfolding recorder_step wire_step
recorder_step-IsAccurate (write_header code) rec orderly h = ground (arith, eqb_iff code 101)
recorder_step-IsAccurate (write n) rec orderly h = ground arith
recorder_step-IsAccurate flush rec orderly h = ground arith

wrote-header :
    (code : ℕ) (rec : Recorder)
    → (recorder_step (write_header code) rec).wrote_header
      ≡ (rec.wrote_header || not (is_informational code))
unfolding recorder_step
wrote-header code rec = ground arith

recorder_step-wire : (c : Call) (rec : Recorder) → (recorder_step c rec).wire ≡ wire_step c rec.wire
unfolding recorder_step
recorder_step-wire (write_header code) rec = ground arith
recorder_step-wire (write n) rec = refl
recorder_step-wire flush rec = refl

wrote-write : (n : ℕ) (rec : Recorder) → (recorder_step (write n) rec).wrote_header ≡ true
unfolding recorder_step
wrote-write n rec = refl

wrote-flush : (rec : Recorder) → (recorder_step flush rec).wrote_header ≡ rec.wrote_header
unfolding recorder_step
wrote-flush rec = refl

pub run_recorder-IsAccurate :
    (calls : List Call) (rec : Recorder)
    → IsOrderly rec.wrote_header calls
    → IsAccurate rec
    → IsAccurate (run_recorder calls rec)
run_recorder-IsAccurate [] rec orderly h = h
run_recorder-IsAccurate (write_header code ∷ calls) rec (allowed, orderly) h =
    run_recorder-IsAccurate calls (recorder_step (write_header code) rec)
      (rw (wrote-header code rec) orderly)
      (recorder_step-IsAccurate (write_header code) rec (allowed, tt) h)
run_recorder-IsAccurate (write n ∷ calls) rec orderly h =
    run_recorder-IsAccurate calls (recorder_step (write n) rec) (rw (wrote-write n rec) orderly)
      (recorder_step-IsAccurate (write n) rec tt h)
run_recorder-IsAccurate (flush ∷ calls) rec (wrote, orderly) h =
    run_recorder-IsAccurate calls (recorder_step flush rec) (rw (wrote-flush rec, wrote) orderly)
      (recorder_step-IsAccurate flush rec (wrote, tt) h)

pub run_recorder-wire :
    (calls : List Call) (rec : Recorder) → (run_recorder calls rec).wire ≡ run_wire calls rec.wire
run_recorder-wire [] rec = refl
run_recorder-wire (c ∷ calls) rec =
    rw (run_recorder-wire calls (recorder_step c rec), recorder_step-wire c rec) refl
