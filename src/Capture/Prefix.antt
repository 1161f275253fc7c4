-- ===== src/Capture/Prefix.antt =====
-- What one capture keeps of its body, whatever the other captures leave of the budget.
use tekrion.Prelude.{
  ℕ, zero, suc, ◌+◌, ◌-◌, ◌≤◌, ◌≡◌, refl, sym, ap, ◌∙◌, ◌⊎◌, inl, inr, if◌then◌else◌, ltb, lt→ltb,
  Bool-cases, true, false, List, [], ◌∷◌, ◌++◌, Result, ok, ◌>>=◌, arith, length, take,
  length-append, length-take, append-nil, append_assoc,
}
use tekrion.Capture.{
  Bytes, CaptureMemoryBudget, CaptureError, BoundedByteCapture, create_capture, retain,
  desired_bytes, append, claim, flatten, concat, bytes,
}

-- Appends in order; the budget at each of them is what the other captures have left.
unfoldable pub appends :
    BoundedByteCapture → List (CaptureMemoryBudget × Bytes) → Result CaptureError BoundedByteCapture
unfolding append
appends c [] = ok c
appends c ((b, chunk) ∷ rest) = append c b chunk >>= λ r. appends r.0 rest

-- The chunks of the body, joined.
abbrev pub body : List (CaptureMemoryBudget × Bytes) → Bytes
body [] = []
body ((b, chunk) ∷ rest) = chunk ++ body rest

-- The capture is live and has seen `seen`, of which it keeps a prefix.
pub record Keeps (limit : ℕ) (seen : Bytes) (c : BoundedByteCapture) : Type 0 where
  pub live : c.released ≡ false
  pub limited : c.maximum_body_bytes ≡ limit
  pub kept : flatten c.chunks ≡ take c.retained seen
  pub all_seen : c.observed ≡ length seen
  pub split : c.retained + c.dropped ≡ c.observed
  pub bounded : c.retained ≤ limit
  pub open_keeps_all : c.capture_closed ≡ false → c.dropped ≡ 0

take-append_left {ℓ} :
    {A : Type ℓ} (n : ℕ) (xs ys : List A) → n ≤ length xs → take n (xs ++ ys) ≡ take n xs
take-append_left zero xs ys h = refl
take-append_left (suc n) [] ys h = absurd (omega arith)
take-append_left (suc n) (x ∷ xs) ys h = ap (◌∷◌ x) (take-append_left n xs ys (omega arith))

take-append_right {ℓ} :
    {A : Type ℓ} (k n : ℕ) (xs ys : List A)
    → k ≡ length xs + n
    → take k (xs ++ ys) ≡ xs ++ take n ys
take-append_right k n [] ys e = let e' : k ≡ n = omega arith in rw e' refl
take-append_right zero n (x ∷ xs) ys e = absurd (omega arith)
take-append_right (suc k) n (x ∷ xs) ys e = ap (◌∷◌ x) (take-append_right k n xs ys (omega arith))

take_all {ℓ} : {A : Type ℓ} (n : ℕ) (xs : List A) → length xs ≤ n → take n xs ≡ xs
take_all zero [] h = refl
take_all zero (x ∷ xs) h = absurd (omega arith)
take_all (suc n) [] h = refl
take_all (suc n) (x ∷ xs) h = ap (◌∷◌ x) (take_all n xs (omega arith))

flatten-append : (bs cs : List Bytes) → flatten (bs ++ cs) ≡ flatten bs ++ flatten cs
flatten-append [] cs = refl
flatten-append (b ∷ bs) cs =
    rw (flatten-append bs cs) (sym (append_assoc b (flatten bs) (flatten cs)))

flatten-push :
    (bs : List Bytes) (chunk : Bytes) (g : ℕ)
    → flatten (if ltb 0 g then bs ++ take g chunk ∷ [] else bs) ≡ flatten bs ++ take g chunk
flatten-push bs chunk zero = sym (append-nil (flatten bs))
flatten-push bs chunk (suc g) =
    ap (λ t. flatten (if t then bs ++ take (suc g) chunk ∷ [] else bs))
      (lt→ltb 0 (suc g) (omega arith))
    ∙ flatten-append bs (take (suc g) chunk ∷ [])
    ∙ ap (◌++◌ (flatten bs)) (append-nil (take (suc g) chunk))

add_if_pos : (r g : ℕ) → (if ltb 0 g then r + g else r) ≡ r + g
add_if_pos r g = ground arith

-- A longer prefix, or the same one once a byte was dropped.
extend_prefix :
    (n g : ℕ) (seen chunk : Bytes)
    → n ≤ length seen
    → (n ≡ length seen) ⊎ (g ≡ 0)
    → take n seen ++ take g chunk ≡ take (n + g) (seen ++ chunk)
extend_prefix n g seen chunk h (inl full) =
    rw (take_all n seen (omega arith)) (sym (take-append_right (n + g) g seen chunk (omega arith)))
extend_prefix n g seen chunk h (inr nothing) =
    let e : n + g ≡ n = omega arith in
    rw (nothing, append-nil (take n seen))
      (rw (← nothing, e) (sym (take-append_left n seen chunk h)))

desired_lem :
    (c : BoundedByteCapture) (n : ℕ)
    → (desired_bytes c n ≤ n)
      × (desired_bytes c n ≤ c.maximum_body_bytes - c.observed)
      × (c.capture_closed ≡ true → desired_bytes c n ≡ 0)
unfolding desired_bytes
desired_lem c n = ground arith

claim_lem : (b : CaptureMemoryBudget) (n : ℕ) → (claim b n).1 ≤ n
unfolding claim
claim_lem b n = ground arith

retain-Keeps :
    (limit g : ℕ) (seen chunk : Bytes) (c : BoundedByteCapture)
    → Keeps limit seen c
    → g ≤ length chunk
    → g ≤ limit - c.observed
    → (c.capture_closed ≡ true → g ≡ 0)
    → Keeps limit (seen ++ chunk) (retain c chunk g)
unfolding retain
retain-Keeps limit g seen chunk c k h room shut = record {
  live = k.live;
  limited = k.limited;
  kept =
      flatten-push c.chunks chunk g
      ∙ ap (λ p. p ++ take g chunk) k.kept
      ∙ extend_prefix c.retained g seen chunk (omega (arith, k.split, k.all_seen)) full
      ∙ ap (λ n. take n (seen ++ chunk)) (sym (add_if_pos c.retained g));
  all_seen = omega (arith, k.all_seen, length-append seen chunk);
  split = omega (arith, add_if_pos c.retained g, k.split);
  bounded = omega (arith, add_if_pos c.retained g, k.split, k.bounded);
  open_keeps_all = λ e. ground (arith, k.open_keeps_all);
}
  where
    full : (c.retained ≡ length seen) ⊎ (g ≡ 0)
    full = elim (Bool-cases c.capture_closed) [
      | inl closed ↦ inr (shut closed)
      | inr opened ↦ inl (omega (arith, k.split, k.all_seen, k.open_keeps_all opened))
    ]

append-Keeps :
    (limit : ℕ) (seen chunk : Bytes) (c : BoundedByteCapture) (b : CaptureMemoryBudget)
    → Keeps limit seen c
    → (r : BoundedByteCapture × CaptureMemoryBudget) × (append c b chunk ≡ ok r)
      × Keeps limit (seen ++ chunk) r.0
unfolding append
append-Keeps limit seen chunk c b k =
    let size = length chunk in
    let granted = claim b (desired_bytes c size) in
    let (fits, room, shut) = desired_lem c size in
    let less = claim_lem b (desired_bytes c size) in
    (
      (retain c chunk granted.1, granted.0),
      rw k.live refl,
      retain-Keeps limit granted.1 seen chunk c k (omega arith) (omega (arith, k.limited))
          (λ e. omega (arith, shut e)),
    )

appends-Keeps :
    (limit : ℕ) (seen : Bytes) (c : BoundedByteCapture) (calls : List (CaptureMemoryBudget × Bytes))
    → Keeps limit seen c
    → (c' : BoundedByteCapture) × (appends c calls ≡ ok c') × Keeps limit (seen ++ body calls) c'
unfolding appends
appends-Keeps limit seen c [] k = (c, refl, rw (append-nil seen) k)
appends-Keeps limit seen c ((b, chunk) ∷ rest) k =
    let (r, e, k') = append-Keeps limit seen chunk c b k in
    let (c', e', k'') = appends-Keeps limit (seen ++ chunk) r.0 rest k' in
    (c', rw e e', rw (append_assoc seen chunk (body rest)) at k'')

create-Keeps : (limit : ℕ) (c : BoundedByteCapture) → create_capture limit ≡ ok c → Keeps limit [] c
unfolding create_capture
create-Keeps limit c e = ground arith

concat_exact :
    (bs : List Bytes) (n : ℕ) (seen : Bytes)
    → flatten bs ≡ take n seen
    → n ≤ length seen
    → concat bs n ≡ take n seen
concat_exact bs n seen e h =
    let exact : length (take n seen) ≡ n = omega (arith, length-take n seen) in
    let no_gap : n - n ≡ 0 = omega arith in
    rw (e, exact, take_all n (take n seen) (omega arith), no_gap, append-nil (take n seen)) refl

-- After any appends to a new capture with a limit, at any state of the shared budget, every call
-- has succeeded, `bytes` returns the first `retained` bytes of the body, the retained and dropped
-- bytes add up to the bytes of the body, and no more than the limit is retained.
pub bytes-appends-IsPrefix :
    (limit : ℕ) (c : BoundedByteCapture) (calls : List (CaptureMemoryBudget × Bytes))
    → create_capture limit ≡ ok c
    → (c' : BoundedByteCapture) × (appends c calls ≡ ok c')
      × (bytes c' ≡ ok (take c'.retained (body calls)))
      × (c'.retained + c'.dropped ≡ length (body calls))
      × (c'.retained ≤ limit)
unfolding bytes
bytes-appends-IsPrefix limit c calls e =
    let (c', run, k) = appends-Keeps limit [] c calls (create-Keeps limit c e) in
    (
      c',
      run,
      rw (k.live) (
          ap ok (
            concat_exact c'.chunks c'.retained (body calls) k.kept
              (omega (arith, k.split, k.all_seen)))),
      omega (arith, k.split, k.all_seen),
      k.bounded,
    )
