-- ===== src/Sse/Numbering.antt =====
-- The frames are numbered from 1 without a gap, within the frame limit, and the drain ends.
use tekrion.Prelude.{
  ℕ, zero, suc, ◌+◌, ◌≤◌, ◌<◌, ◌≡◌, ◌≢◌, refl, subst, inl, inr, Bool, Bool-cases, Option-cases,
  List, [], ◌∷◌, ◌++◌, Option, none, some, Result, ok, err, ◌>>=◌, ◌>>◌, ltb, leb, length,
  length-append, arith, Text,
}
use tekrion.Sse.Lines.{cut_line, rest, waits, cut_line-length}
use tekrion.Sse.Frame.{
  SseFrame, Limits, SseError, fuel_exhausted, FrameState, accept_line, frame_of, emission, emit,
  dispatch_from, dispatch_frame, take_line, safe_retry,
}
use tekrion.Sse.Drain.{Drained, after_frames, close, drain, drain_lines}

-- The frames have the numbers after `n`, in order.
abbrev pub Numbered : ℕ → List SseFrame → Type 0
Numbered n [] = Unit
Numbered n (f ∷ fs) = (f.index ≡ n + 1) × Numbered (n + 1) fs

Numbered-append :
    (n m : ℕ) (fs gs : List SseFrame)
    → m ≡ n + length fs
    → Numbered n fs
    → Numbered m gs
    → Numbered n (fs ++ gs)
Numbered-append n m [] gs e h k = let e' : m ≡ n = omega arith in subst (λ x. Numbered x gs) e' k
Numbered-append n m (f ∷ fs) gs e h k = (h.0, Numbered-append (n + 1) m fs gs (omega arith) h.1 k)

module _ (limits : Limits) where
  -- From the state `s` the frames `fs` were made, and `s'` is the state after them.
  pub record Emits (s s' : FrameState) (fs : List SseFrame) : Type 0 where
    pub numbered : Numbered s.emitted_frames fs
    pub counted : s'.emitted_frames ≡ s.emitted_frames + length fs
    pub bounded :
        s.emitted_frames ≤ limits.maximum_frames → s'.emitted_frames ≤ limits.maximum_frames

  Emits-none : (s s' : FrameState) → s'.emitted_frames ≡ s.emitted_frames → Emits s s' []
  Emits-none s s' e = record { numbered = tt; counted = omega arith; bounded = λ h. omega arith }

  Emits-append :
      (s t u : FrameState) (fs gs : List SseFrame)
      → Emits s t fs
      → Emits t u gs
      → Emits s u (fs ++ gs)
  Emits-append s t u fs gs p q = record {
    numbered =
        Numbered-append s.emitted_frames t.emitted_frames fs gs p.counted p.numbered q.numbered;
    counted = omega (arith, p.counted, q.counted, length-append fs gs);
    bounded = λ h. q.bounded (p.bounded h);
  }

  frame_of-index : (n : ℕ) (lines : List Text) → (frame_of n lines).index ≡ n
  unfolding frame_of
  frame_of-index n lines = refl

  emission-Emits :
      (s : FrameState)
      → s.emitted_frames < limits.maximum_frames
      → Emits s (emission s).0 (emission s).1
  emission-Emits s h = record {
    numbered = (frame_of-index (s.emitted_frames + 1) s.frame_lines, tt);
    counted = refl;
    bounded = λ _. h';
  }
    where
      h' : s.emitted_frames + 1 ≤ limits.maximum_frames
      h' = omega arith

  -- What holds of the state and the frames of a line, and of a drain; running out of fuel is no
  -- result of either.
  abbrev EmitsLine : FrameState → Result SseError (FrameState × List SseFrame) → Type 0
  EmitsLine s (ok r) = Emits s r.0 r.1
  EmitsLine s (err e) = e ≢ fuel_exhausted

  abbrev pub EmitsResult : FrameState → Result SseError Drained → Type 0
  EmitsResult s (ok d) = Emits s d.1 d.2
  EmitsResult s (err e) = e ≢ fuel_exhausted

  retry-EmitsLine :
      (s : FrameState) (retry : Option ℕ)
      → s.emitted_frames < limits.maximum_frames
      → EmitsLine s (safe_retry retry >> ok (emission s))
  retry-EmitsLine s none h = emission-Emits s h
  retry-EmitsLine s (some n) h = elim (Bool-cases (ltb 9007199254740991 n)) [
    | inl unsafe ↦ rw unsafe (λ e. cc)
    | inr safe ↦ rw safe (emission-Emits s h)
  ]

  dispatch-EmitsLine :
      (lines : List Text) (s : FrameState) → EmitsLine s (dispatch_from limits lines s)
  unfolding dispatch_from emit
  dispatch-EmitsLine [] s = Emits-none s s refl
  dispatch-EmitsLine (l ∷ ls) s = elim (Bool-cases (leb limits.maximum_frames s.emitted_frames)) [
    | inl full ↦ rw full (λ e. cc)
    | inr room ↦
        rw room
          (retry-EmitsLine s (frame_of (s.emitted_frames + 1) s.frame_lines).retry (ground arith))
  ]

  accept-EmitsLine :
      (s : FrameState) (line : Text) → EmitsLine s (accept_line limits s line >>= λ s'. ok (s', []))
  unfolding accept_line
  accept-EmitsLine s line =
      elim (Bool-cases
        (ltb limits.maximum_frame_characters (s.frame_characters + (length line + 1)))) [
          | inl long ↦ rw long (λ e. cc)
          | inr short ↦ rw short (Emits-none s _ refl)
        ]

  take_line-EmitsLine : (line : Text) (s : FrameState) → EmitsLine s (take_line limits line s)
  unfolding take_line dispatch_frame
  take_line-EmitsLine [] s = dispatch-EmitsLine s.frame_lines s
  take_line-EmitsLine (c ∷ cs) s = accept-EmitsLine s (c ∷ cs)

  close-EmitsResult :
      (final : Bool) (buffer : Text) (s : FrameState) → EmitsResult s (close limits final buffer s)
  unfolding close accept_line
  close-EmitsResult final buffer s = ground arith

  later-EmitsResult :
      (s : FrameState) (m : Result SseError (FrameState × List SseFrame))
      (more : FrameState → Result SseError Drained)
      → EmitsLine s m
      → ((s' : FrameState) → EmitsResult s' (more s'))
      → EmitsResult s (m >>= λ r. more r.0 >>= after_frames r.1)
  later-EmitsResult s (ok r) more h k = joined (more r.0) (k r.0)
    where
      joined :
          (q : Result SseError Drained) → EmitsResult r.0 q → EmitsResult s (q >>= after_frames r.1)
      joined (ok d) i = Emits-append s r.0 d.1 r.1 d.2 h i
      joined (err e) i = i
  later-EmitsResult s (err e) more h k = h

  drain-EmitsResult :
      (f : ℕ) (final : Bool) (buffer : Text) (s : FrameState)
      → length buffer < f
      → EmitsResult s (drain limits f final buffer s)
  unfolding drain
  drain-EmitsResult zero final buffer s h = absurd (omega arith)
  drain-EmitsResult (suc f) final buffer s h = elim (Option-cases (cut_line buffer)) [
    | inl last ↦ rw (last, drain) (close-EmitsResult final buffer s)
    | inr (k, e) ↦ elim (Bool-cases (waits final k)) [
      | inl wait ↦ rw (e, drain) (rw wait (Emits-none s s refl))
      | inr go ↦
          let shorter = cut_line-length buffer k e in
          rw (e, drain)
            (rw go (
              later-EmitsResult s (take_line limits k.line s) (drain limits f final (rest k))
                (take_line-EmitsLine k.line s)
                (λ s'. drain-EmitsResult f final (rest k) s' (omega arith))))
    ]
  ]

  -- The drain of a buffer ends within its fuel. Where it throws no error, the frames that it returns
  -- have the numbers after the frames before, the state counts them, and the count keeps within the
  -- frame limit.
  pub drain_lines-EmitsResult :
      (final : Bool) (buffer : Text) (s : FrameState)
      → EmitsResult s (drain_lines limits final buffer s)
  unfolding drain_lines
  drain_lines-EmitsResult final buffer s =
      drain-EmitsResult (suc (length buffer)) final buffer s (omega arith)
