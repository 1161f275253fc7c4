-- ===== src/Capture/Tests.antt =====
-- Captures at concrete inputs.
use tekrion.Prelude.{◌+◌, ◌≤◌, ◌≡◌, refl, false, List, [], ◌∷◌, ok, arith, length, take}
use tekrion.Capture.{
  Bytes, CaptureMemoryBudget, BoundedByteCapture, create_capture, append, bytes, retain, claim,
  desired_bytes,
}
use tekrion.Capture.Prefix
use tekrion.Capture.Prefix.{bytes-appends-IsPrefix}
use tekrion.Capture.Sharing.{Recorder, appends, Accounts, Outcome, step, step-Accounts}

abbrev empty_capture : BoundedByteCapture
empty_capture = record {
  maximum_body_bytes = 4;
  chunks = [];
  retained = 0;
  dropped = 0;
  observed = 0;
  released = false;
  capture_closed = false;
}

abbrev budget : CaptureMemoryBudget
budget = record { maximum_bytes = 10; retained_bytes = 0 }

abbrev calls : List (CaptureMemoryBudget × Bytes)
calls = (budget, 1 ∷ 2 ∷ 3 ∷ []) ∷ (budget, 4 ∷ 5 ∷ 6 ∷ []) ∷ (budget, 7 ∷ []) ∷ []

bytes-appends-IsPrefix_example :
    (c' : BoundedByteCapture) × (Prefix.appends empty_capture calls ≡ ok c')
    × (bytes c' ≡ ok (take c'.retained (Prefix.body calls)))
    × (c'.retained + c'.dropped ≡ length (Prefix.body calls))
    × (c'.retained ≤ 4)
unfolding create_capture
bytes-appends-IsPrefix_example = bytes-appends-IsPrefix 4 empty_capture calls refl

kept_four :
    (c' : BoundedByteCapture) × (Prefix.appends empty_capture calls ≡ ok c')
    × (bytes c' ≡ ok (1 ∷ 2 ∷ 3 ∷ 4 ∷ []))
unfolding Prefix.appends append bytes retain claim desired_bytes
kept_four = (_, refl, refl)

abbrev recorder : Recorder
recorder = record { budget = budget; captures = empty_capture ∷ empty_capture ∷ [] }

step-Accounts_example : Outcome Accounts (step recorder (appends 1 (1 ∷ 2 ∷ 3 ∷ [])))
step-Accounts_example = step-Accounts recorder (appends 1 (1 ∷ 2 ∷ 3 ∷ [])) (omega arith)
