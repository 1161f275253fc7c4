-- ===== src/Capture.antt =====
-- apps/daemon/src/proxy/capture.ts: the memory budget that all captures of the recorder share, and
-- the capture of one body, which keeps a bounded prefix of it. Sizes are natural numbers, so the
-- constructors' test for an integer is the test for a positive one. The shared budget is passed
-- along explicitly: an operation of a capture takes it and returns it.
pub mod Prefix
pub mod Sharing
mod Tests
use tekrion.Prelude.{
  ℕ, zero, suc, ◌+◌, ◌-◌, min, max, Bool, true, false, List, [], ◌∷◌, ◌++◌, Result, ok, err, ◌>>=◌,
  ◌>>◌, throw_if, ltb, leb, if◌then◌else◌, length, take,
}

abbrev pub Bytes : Type 0
Bytes = List ℕ

pub record CaptureMemoryBudget : Type 0 where
  pub maximum_bytes : ℕ
  pub retained_bytes : ℕ

-- `released_more_than_retained n` leaves the budget n bytes below zero.
pub data CaptureError : Type 0 where
  budget_not_positive body_limit_not_positive : CaptureError
  append_to_released read_of_released : CaptureError
  released_more_than_retained : ℕ → CaptureError

unfoldable pub create_budget : ℕ → Result CaptureError CaptureMemoryBudget
create_budget maximum_bytes = do
  throw_if (ltb maximum_bytes 1) budget_not_positive
  ok (record { maximum_bytes = maximum_bytes; retained_bytes = 0 })

unfoldable pub claim : CaptureMemoryBudget → ℕ → CaptureMemoryBudget × ℕ
claim b requested_bytes =
    let available = max 0 (b.maximum_bytes - b.retained_bytes) in
    let granted = min requested_bytes available in
    (record b { retained_bytes = b.retained_bytes + granted }, granted)

unfoldable pub release_bytes : CaptureMemoryBudget → ℕ → Result CaptureError CaptureMemoryBudget
release_bytes b bytes = do
  throw_if (ltb b.retained_bytes bytes) (released_more_than_retained (bytes - b.retained_bytes))
  ok (record b { retained_bytes = b.retained_bytes - bytes })

pub record BoundedByteCapture : Type 0 where
  pub maximum_body_bytes : ℕ
  pub chunks : List Bytes
  pub retained : ℕ
  pub dropped : ℕ
  pub observed : ℕ
  pub released : Bool
  pub capture_closed : Bool

unfoldable pub create_capture : ℕ → Result CaptureError BoundedByteCapture
create_capture maximum_body_bytes = do
  throw_if (ltb maximum_body_bytes 1) body_limit_not_positive
  ok (record {
    maximum_body_bytes = maximum_body_bytes;
    chunks = [];
    retained = 0;
    dropped = 0;
    observed = 0;
    released = false;
    capture_closed = false;
  })

-- What `append` does with the bytes that the budget granted.
unfoldable pub retain : BoundedByteCapture → Bytes → ℕ → BoundedByteCapture
retain c buffer granted = record c {
  observed = c.observed + length buffer;
  chunks = if ltb 0 granted then c.chunks ++ take granted buffer ∷ [] else c.chunks;
  retained = if ltb 0 granted then c.retained + granted else c.retained;
  dropped = c.dropped + (length buffer - granted);
  capture_closed = if ltb granted (length buffer) then true else c.capture_closed;
}

-- The bytes that `append` asks the budget for.
unfoldable pub desired_bytes : BoundedByteCapture → ℕ → ℕ
desired_bytes c size =
    let body_capacity = max 0 (c.maximum_body_bytes - c.observed) in
    if c.capture_closed then 0 else min size body_capacity

unfoldable pub append :
    BoundedByteCapture
    → CaptureMemoryBudget
    → Bytes
    → Result CaptureError (BoundedByteCapture × CaptureMemoryBudget)
append c budget buffer = do
  throw_if c.released append_to_released
  let claimed = claim budget (desired_bytes c (length buffer))
  ok (retain c buffer claimed.1, claimed.0)

abbrev pub flatten : List Bytes → Bytes
flatten [] = []
flatten (b ∷ bs) = b ++ flatten bs

abbrev pub zeros : ℕ → Bytes
zeros zero = []
zeros (suc n) = 0 ∷ zeros n

-- `Buffer.concat(list, total)`: cut, or filled up with zeros, to the total.
abbrev pub concat : List Bytes → ℕ → Bytes
concat bs total = take total (flatten bs) ++ zeros (total - length (flatten bs))

unfoldable pub bytes : BoundedByteCapture → Result CaptureError Bytes
bytes c = do throw_if c.released read_of_released; ok (concat c.chunks c.retained)

unfoldable pub release :
    BoundedByteCapture
    → CaptureMemoryBudget
    → Result CaptureError (BoundedByteCapture × CaptureMemoryBudget)
unfolding release_bytes
release c budget = if c.released then ok (c, budget) else (do
  budget' ← release_bytes budget c.retained
  ok (record c { chunks = []; released = true }, budget'))
