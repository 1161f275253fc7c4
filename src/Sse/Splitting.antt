-- ===== src/Sse/Splitting.antt =====
-- How the bytes of a stream are cut into chunks does not matter.
use tekrion.Prelude.{
  ℕ, zero, suc, ◌+◌, ◌≤◌, ◌≡◌, refl, sym, ap, ◌∙◌, inl, inr, Bool, Bool-cases, true, false, List,
  [], ◌∷◌, ◌++◌, Option-cases, Result, ok, err, ◌>>=◌, length, length-append, arith, Text,
  append_assoc, append-nil,
}
use tekrion.Sse.Lines.{cut_line, rest, waits, cut_line-length}
use tekrion.Sse.Frame.{SseFrame, Limits, SseError, FrameState, take_line}
use tekrion.Sse.Drain.{Drained, drain_lines, after_frames, then_drain, drain-append, drain, close}
use tekrion.Sse.Chunks.{TextState, without_mark, still_at_start, append_decoded, drained, push_text}

without_mark-append :
    (at_start : Bool) (xs ys : Text)
    → without_mark at_start (xs ++ ys)
      ≡ without_mark at_start xs ++ without_mark (still_at_start at_start xs) ys
without_mark-append at_start [] ys = refl
without_mark-append true (x ∷ xs) [] = ground (arith, append-nil xs)
without_mark-append true (x ∷ xs) (y ∷ ys) = ground arith
without_mark-append false (x ∷ xs) [] = refl
without_mark-append false (x ∷ xs) (y ∷ ys) = refl

still_at_start-append :
    (at_start : Bool) (xs ys : Text)
    → still_at_start at_start (xs ++ ys) ≡ still_at_start (still_at_start at_start xs) ys
still_at_start-append at_start [] ys = refl
still_at_start-append at_start (x ∷ xs) [] = refl
still_at_start-append at_start (x ∷ xs) (y ∷ ys) = refl

pub without_mark-length :
    (at_start : Bool) (xs : Text) → length (without_mark at_start xs) ≤ length xs
without_mark-length at_start [] = omega arith
without_mark-length true (x ∷ xs) = ground arith
without_mark-length false (x ∷ xs) = omega arith

-- What a drain leaves in the buffer is no longer than the buffer was.
abbrev pub Shrinks : ℕ → Result SseError Drained → Type 0
Shrinks n (ok d) = length d.0 ≤ n
Shrinks n (err e) = Unit

Shrinks-mono : (m n : ℕ) (r : Result SseError Drained) → m ≤ n → Shrinks m r → Shrinks n r
Shrinks-mono m n (ok d) h s = omega arith
Shrinks-mono m n (err e) h s = tt

module _ (limits : Limits) where
  Shrinks-bind :
      (n : ℕ) (m : Result SseError (FrameState × List SseFrame))
      (later : FrameState → Result SseError Drained)
      → ((s : FrameState) → Shrinks n (later s))
      → Shrinks n (m >>= λ r. later r.0 >>= after_frames r.1)
  Shrinks-bind n (ok r) later h = after (later r.0) (h r.0)
    where
      after : (q : Result SseError Drained) → Shrinks n q → Shrinks n (q >>= after_frames r.1)
      after (ok d) k = k
      after (err e) k = tt
  Shrinks-bind n (err e) later h = tt

  pub drain-Shrinks :
      (f : ℕ) (buffer : Text) (s : FrameState)
      → Shrinks (length buffer) (drain limits f false buffer s)
  unfolding drain close
  drain-Shrinks zero buffer s = tt
  drain-Shrinks (suc f) buffer s = elim (Option-cases (cut_line buffer)) [
    | inl last ↦ rw (last, drain) (omega arith)
    | inr (k, e) ↦ elim (Bool-cases (waits false k)) [
      | inl wait ↦ rw (e, drain) (rw wait (omega arith))
      | inr go ↦
          let shorter = cut_line-length buffer k e in
          rw (e, drain)
            (rw go (
              Shrinks-bind (length buffer) (take_line limits k.line s)
                (drain limits f false (rest k))
                (λ s'.
                  Shrinks-mono (length (rest k)) (length buffer) (drain limits f false (rest k) s')
                    (omega arith) (drain-Shrinks f (rest k) s'))))
    ]
  ]

  -- The state after decoded text that fits in the buffer.
  abbrev pub appended : TextState → Text → TextState
  appended s value = record s {
    text_buffer = s.text_buffer ++ without_mark s.at_start value;
    at_start = still_at_start s.at_start value;
  }

  abbrev pub Fits : TextState → Text → Type 0
  Fits s value = length s.text_buffer + length value ≤ limits.maximum_buffered_characters

  append_decoded-Fits :
      (s : TextState) (value : Text)
      → Fits s value
      → append_decoded limits s value ≡ ok (appended s value)
  unfolding append_decoded
  append_decoded-Fits s value h = ground (
    arith,
    length-append s.text_buffer (without_mark s.at_start value),
    without_mark-length s.at_start value,
  )

  pub push_text-Fits :
      (s : TextState) (value : Text)
      → Fits s value
      → push_text limits false s value ≡ (
          drain_lines limits false (appended s value).text_buffer s.frame
          >>= drained limits (still_at_start s.at_start value))
  unfolding push_text
  push_text-Fits s value h = rw (append_decoded-Fits s value h) refl

  -- The state after a first text, and then a second one.
  abbrev pub then_push :
      Text → TextState × List SseFrame → Result SseError (TextState × List SseFrame)
  then_push value r = push_text limits false r.0 value >>= λ q. ok (q.0, r.1 ++ q.1)

  swap_frames :
      (frames : List SseFrame) (at_start : Bool) (r : Result SseError Drained)
      → (r >>= after_frames frames >>= drained limits at_start)
        ≡ (r >>= drained limits at_start >>= λ q. ok (q.0, frames ++ q.1))
  swap_frames frames at_start (ok d) = refl
  swap_frames frames at_start (err e) = refl

  then_drain-push :
      (n : ℕ) (at_start : Bool) (value : Text) (r : Result SseError Drained)
      → Shrinks n r
      → n + length value ≤ limits.maximum_buffered_characters
      → (then_drain limits (without_mark at_start value) r
          >>= drained limits (still_at_start at_start value))
        ≡ (r >>= drained limits at_start >>= then_push value)
  then_drain-push n at_start value (ok d) less h =
      let after_first : TextState = record {
        text_buffer = d.0;
        frame = d.1;
        at_start = at_start;
      } in
      swap_frames d.2 (still_at_start at_start value)
        (drain_lines limits false (d.0 ++ without_mark at_start value) d.1)
      ∙ ap (λ m. m >>= λ q. ok (q.0, d.2 ++ q.1))
          (sym (push_text-Fits after_first value (omega arith)))
  then_drain-push n at_start value (err e) less h = refl

  pub drain_lines-append :
      (buffer more : Text) (s : FrameState)
      → drain_lines limits false (buffer ++ more) s
        ≡ then_drain limits more (drain_lines limits false buffer s)
  unfolding drain_lines
  drain_lines-append buffer more s =
      drain-append limits (suc (length buffer)) (suc (length (buffer ++ more))) buffer more s
        (omega arith) (omega arith)

  -- Two texts pushed one after the other are one text pushed.
  pub push_text-append :
      (s : TextState) (xs ys : Text)
      → Fits s (xs ++ ys)
      → push_text limits false s (xs ++ ys) ≡ (push_text limits false s xs >>= then_push ys)
  unfolding drain_lines
  push_text-append s xs ys h =
      let both = length-append xs ys in
      let first = (appended s xs).text_buffer in
      let start' = still_at_start s.at_start xs in
      let joined : (appended s (xs ++ ys)).text_buffer ≡ first ++ without_mark start' ys =
        ap (◌++◌ s.text_buffer) (without_mark-append s.at_start xs ys)
        ∙ sym (append_assoc s.text_buffer (without_mark s.at_start xs) (without_mark start' ys)) in
      push_text-Fits s (xs ++ ys) h
      ∙ ap
          (λ b.
            drain_lines limits false (appended s (xs ++ ys)).text_buffer s.frame
            >>= drained limits b)
          (still_at_start-append s.at_start xs ys)
      ∙ ap (λ t. drain_lines limits false t s.frame >>= drained limits (still_at_start start' ys))
          joined
      ∙ ap (λ r. r >>= drained limits (still_at_start start' ys))
          (drain_lines-append first (without_mark start' ys) s.frame)
      ∙ then_drain-push (length first) start' ys (drain_lines limits false first s.frame)
          (drain-Shrinks (suc (length first)) first s.frame)
          (omega (
            arith,
            length-append s.text_buffer (without_mark s.at_start xs),
            without_mark-length s.at_start xs,
          ))
      ∙ ap (λ r. r >>= then_push ys) (sym (push_text-Fits s xs (omega arith)))
