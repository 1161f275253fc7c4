-- ===== src/Capture/Sharing.antt =====
-- Several captures on one budget, as apps/daemon/src/proxy/recorder-proxy.ts creates them: two for
-- each exchange, over the proxy's single budget.
use tekrion.Prelude.{
  ℕ, zero, suc, ◌+◌, ◌≤◌, ◌≡◌, List, [], ◌∷◌, Result, ok, err, ◌>>=◌, arith, if◌then◌else◌,
}
use tekrion.Capture.{
  Bytes, CaptureMemoryBudget, CaptureError, append_to_released, BoundedByteCapture, retain, append,
  claim, release, release_bytes,
}

-- The bytes that a capture holds of the budget.
abbrev pub held : BoundedByteCapture → ℕ
held c = if c.released then 0 else c.retained

abbrev pub total_held : List BoundedByteCapture → ℕ
total_held [] = 0
total_held (c ∷ cs) = held c + total_held cs

pub record Recorder : Type 0 where
  pub budget : CaptureMemoryBudget
  pub captures : List BoundedByteCapture

pub data Call : Type 0 where
  appends : ℕ → Bytes → Call
  releases : ℕ → Call

abbrev pub operation :
    Call
    → BoundedByteCapture
    → CaptureMemoryBudget
    → Result CaptureError (BoundedByteCapture × CaptureMemoryBudget)
operation (appends i chunk) c b = append c b chunk
operation (releases i) c b = release c b

abbrev pub index : Call → ℕ
index (appends i chunk) = i
index (releases i) = i

abbrev with_front :
    List BoundedByteCapture
    → BoundedByteCapture × CaptureMemoryBudget
    → Result CaptureError (List BoundedByteCapture × CaptureMemoryBudget)
with_front cs r = ok (r.0 ∷ cs, r.1)

abbrev with_back :
    BoundedByteCapture
    → List BoundedByteCapture × CaptureMemoryBudget
    → Result CaptureError (List BoundedByteCapture × CaptureMemoryBudget)
with_back c r = ok (c ∷ r.0, r.1)

-- The call on the capture at its index; there is no capture beyond the end, and no effect.
pub call_at :
    Call
    → ℕ
    → List BoundedByteCapture
    → CaptureMemoryBudget
    → Result CaptureError (List BoundedByteCapture × CaptureMemoryBudget)
call_at call i [] b = ok ([], b)
call_at call zero (c ∷ cs) b = operation call c b >>= with_front cs
call_at call (suc i) (c ∷ cs) b = call_at call i cs b >>= with_back c

pub step : Recorder → Call → Result CaptureError Recorder
unfolding call_at
step r call = call_at call (index call) r.captures r.budget >>= λ s.
    ok (record { budget = s.1; captures = s.0 })

-- The budget counts exactly the bytes that are held, and no more than its maximum.
pub record Accounts (r : Recorder) : Type 0 where
  pub exact : r.budget.retained_bytes ≡ total_held r.captures
  pub bounded : r.budget.retained_bytes ≤ r.budget.maximum_bytes

-- One call on one capture, next to `others` bytes that other captures hold.
abbrev Balanced : ℕ → BoundedByteCapture → CaptureMemoryBudget → Type 0
Balanced others c b = (b.retained_bytes ≡ others + held c) × (b.retained_bytes ≤ b.maximum_bytes)

abbrev pub Outcome : {A : Type 0} → (A → Type 0) → Result CaptureError A → Type 0
Outcome P (ok a) = P a
Outcome P (err e) = e ≡ append_to_released

append-Balanced :
    (others : ℕ) (c : BoundedByteCapture) (b : CaptureMemoryBudget) (chunk : Bytes)
    → Balanced others c b
    → Outcome (λ r. Balanced others r.0 r.1) (append c b chunk)
unfolding append retain claim
append-Balanced others c b chunk h = ground arith

release-Balanced :
    (others : ℕ) (c : BoundedByteCapture) (b : CaptureMemoryBudget)
    → Balanced others c b
    → Outcome (λ r. Balanced others r.0 r.1) (release c b)
unfolding release release_bytes
release-Balanced others c b h = ground arith

operation-Balanced :
    (call : Call) (others : ℕ) (c : BoundedByteCapture) (b : CaptureMemoryBudget)
    → Balanced others c b
    → Outcome (λ r. Balanced others r.0 r.1) (operation call c b)
operation-Balanced (appends i chunk) others c b h = append-Balanced others c b chunk h
operation-Balanced (releases i) others c b h = release-Balanced others c b h

abbrev AllBalanced : ℕ → List BoundedByteCapture → CaptureMemoryBudget → Type 0
AllBalanced others cs b =
    (b.retained_bytes ≡ others + total_held cs) × (b.retained_bytes ≤ b.maximum_bytes)

put_front :
    (others : ℕ) (cs : List BoundedByteCapture)
    (r : Result CaptureError (BoundedByteCapture × CaptureMemoryBudget))
    → Outcome (λ s. Balanced (others + total_held cs) s.0 s.1) r
    → Outcome (λ s. AllBalanced others s.0 s.1) (r >>= with_front cs)
put_front others cs (ok s) h = omega arith
put_front others cs (err e) h = h

put_back :
    (others : ℕ) (c : BoundedByteCapture)
    (r : Result CaptureError (List BoundedByteCapture × CaptureMemoryBudget))
    → Outcome (λ s. AllBalanced (others + held c) s.0 s.1) r
    → Outcome (λ s. AllBalanced others s.0 s.1) (r >>= with_back c)
put_back others c (ok s) h = omega arith
put_back others c (err e) h = h

call_at-AllBalanced :
    (call : Call) (i others : ℕ) (cs : List BoundedByteCapture) (b : CaptureMemoryBudget)
    → AllBalanced others cs b
    → Outcome (λ s. AllBalanced others s.0 s.1) (call_at call i cs b)
unfolding call_at
call_at-AllBalanced call i others [] b h = h
call_at-AllBalanced call zero others (c ∷ cs) b h =
    put_front others cs (operation call c b)
      (operation-Balanced call (others + total_held cs) c b (omega arith))
call_at-AllBalanced call (suc i) others (c ∷ cs) b h =
    put_back others c (call_at call i cs b)
      (call_at-AllBalanced call i (others + held c) cs b (omega arith))

accounted :
    (r : Result CaptureError (List BoundedByteCapture × CaptureMemoryBudget))
    → Outcome (λ s. AllBalanced 0 s.0 s.1) r
    → Outcome Accounts (r >>= λ s. ok (record { budget = s.1; captures = s.0 }))
accounted (ok s) h = omega arith
accounted (err e) h = h

-- From a recorder whose budget counts exactly the held bytes and no more than its maximum, a call
-- either leads to such a recorder again, or throws that an append came after the release: the
-- budget never throws that more was released than retained.
pub step-Accounts : (r : Recorder) (call : Call) → Accounts r → Outcome Accounts (step r call)
unfolding step
step-Accounts r call h =
    accounted (call_at call (index call) r.captures r.budget)
      (call_at-AllBalanced call (index call) 0 r.captures r.budget (omega arith))
