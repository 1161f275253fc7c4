-- ===== src/Sse/Drain.antt =====
-- `drainLines`: the complete lines of the buffer, in order, each ending or extending a frame. A
-- round takes a line with its end off the buffer, so fuel above the buffer's length is enough.
use tekrion.Prelude.{
  ℕ, zero, suc, ◌<◌, ◌≡◌, refl, sym, ap, ◌∙◌, inl, inr, Bool, true, false, ◌&&◌, not, Bool-cases,
  Option-cases, List, [], ◌++◌, none, some, Result, ok, err, ◌>>=◌, arith, if◌then◌else◌, length,
  Text, append_assoc,
}
use mathlib.Core.Path.{fun_ext}
use tekrion.Sse.Lines.{
  Cut, cut_line, rest, waits, is_empty, cut_line-length, cut_line-append, rest-append, waits-append,
}
use tekrion.Sse.Frame.{
  SseFrame, Limits, SseError, fuel_exhausted, FrameState, accept_line, take_line,
}

-- What is left of the buffer, the frame under way and the new frames.
abbrev pub Drained : Type 0
Drained = Text × FrameState × List SseFrame

-- Frames that came before those of a later part.
abbrev pub after_frames : List SseFrame → Drained → Result SseError Drained
after_frames frames r = ok (r.0, r.1, frames ++ r.2)

module _ (limits : Limits) where
  -- The last line, which has no end.
  unfoldable pub close : Bool → Text → FrameState → Result SseError Drained
  close final buffer s =
      if final && not (is_empty buffer)
      then (accept_line limits s buffer >>= λ s'. ok ([], s', []))
      else ok (buffer, s, [])

  unfoldable pub drain : ℕ → Bool → Text → FrameState → Result SseError Drained
  unfolding close
  drain zero final buffer s = err fuel_exhausted
  drain (suc fuel) final buffer s = elim (cut_line buffer) [
    | none ↦ close final buffer s
    | some k ↦ elim (waits final k) [
      | true ↦ ok (buffer, s, [])
      | false ↦
          take_line limits k.line s >>= λ r. drain fuel final (rest k) r.0 >>= after_frames r.1
    ]
  ]

  unfoldable pub drain_lines : Bool → Text → FrameState → Result SseError Drained
  unfolding drain
  drain_lines final buffer s = drain (suc (length buffer)) final buffer s

  -- A round after which the loop goes on: the later rounds are `later`.
  abbrev pub go_on :
      Cut → FrameState → (FrameState → Result SseError Drained) → Result SseError Drained
  go_on k s later = take_line limits k.line s >>= λ r. later r.0 >>= after_frames r.1

  drain_last :
      (f : ℕ) (final : Bool) (buffer : Text) (s : FrameState)
      → cut_line buffer ≡ none
      → drain (suc f) final buffer s ≡ close final buffer s
  unfolding drain
  drain_last f final buffer s e = rw (e, drain) refl

  drain_wait :
      (f : ℕ) (final : Bool) (buffer : Text) (s : FrameState) (k : Cut)
      → cut_line buffer ≡ some k
      → waits final k ≡ true
      → drain (suc f) final buffer s ≡ ok (buffer, s, [])
  unfolding drain
  drain_wait f final buffer s k e wait = rw (e, drain) (rw wait refl)

  pub drain_go :
      (f : ℕ) (final : Bool) (buffer : Text) (s : FrameState) (k : Cut)
      → cut_line buffer ≡ some k
      → waits final k ≡ false
      → drain (suc f) final buffer s ≡ go_on k s (drain f final (rest k))
  unfolding drain
  drain_go f final buffer s k e go = rw (e, drain) (rw go refl)

  -- More fuel changes nothing.
  pub drain_fuel :
      (f g : ℕ) (final : Bool) (buffer : Text) (s : FrameState)
      → length buffer < f
      → length buffer < g
      → drain f final buffer s ≡ drain g final buffer s
  drain_fuel zero g final buffer s h h' = absurd (omega arith)
  drain_fuel (suc f) zero final buffer s h h' = absurd (omega arith)
  drain_fuel (suc f) (suc g) final buffer s h h' = elim (Option-cases (cut_line buffer)) [
    | inl last ↦ drain_last f final buffer s last ∙ sym (drain_last g final buffer s last)
    | inr (k, e) ↦ elim (Bool-cases (waits final k)) [
      | inl wait ↦ drain_wait f final buffer s k e wait ∙ sym (drain_wait g final buffer s k e wait)
      | inr go ↦
          let shorter = cut_line-length buffer k e in
          let ih : drain f final (rest k) ≡ drain g final (rest k) =
            fun_ext (λ s'. drain_fuel f g final (rest k) s' (omega arith) (omega arith)) in
          drain_go f final buffer s k e go
          ∙ ap (go_on k s) ih
          ∙ sym (drain_go g final buffer s k e go)
    ]
  ]

  -- The rounds over a first part of the text, and then those over what it left and the rest.
  abbrev pub then_drain : Text → Result SseError Drained → Result SseError Drained
  then_drain more r = r >>= λ d. drain_lines false (d.0 ++ more) d.1 >>= after_frames d.2

  then_drain-go_on :
      (more : Text) (k : Cut) (s : FrameState) (later : FrameState → Result SseError Drained)
      → then_drain more (go_on k s later) ≡ go_on k s (λ s'. then_drain more (later s'))
  then_drain-go_on more k s later = at_line (take_line limits k.line s)
    where
      regroup :
          (xs ys : List SseFrame) (r : Result SseError Drained)
          → (r >>= after_frames (xs ++ ys)) ≡ (r >>= after_frames ys >>= after_frames xs)
      regroup xs ys (ok d) = ap (λ zs. ok (d.0, d.1, zs)) (append_assoc xs ys d.2)
      regroup xs ys (err e) = refl

      at_frames :
          (frames : List SseFrame) (r : Result SseError Drained)
          → then_drain more (r >>= after_frames frames)
            ≡ (then_drain more r >>= after_frames frames)
      at_frames frames (ok d) = regroup frames d.2 (drain_lines false (d.0 ++ more) d.1)
      at_frames frames (err e) = refl

      at_line :
          (m : Result SseError (FrameState × List SseFrame))
          → then_drain more (m >>= λ r. later r.0 >>= after_frames r.1)
            ≡ (m >>= λ r. then_drain more (later r.0) >>= after_frames r.1)
      at_line (ok r) = at_frames r.1 (later r.0)
      at_line (err e) = refl

  no_frames_before : (r : Result SseError Drained) → r ≡ (r >>= after_frames [])
  no_frames_before (ok d) = refl
  no_frames_before (err e) = refl

  -- The first part leaves everything: the second drain is the whole.
  all_left :
      (g : ℕ) (buffer more : Text) (s : FrameState)
      → length (buffer ++ more) < g
      → drain g false (buffer ++ more) s ≡ then_drain more (ok (buffer, s, []))
  unfolding drain_lines
  all_left g buffer more s h =
      drain_fuel g (suc (length (buffer ++ more))) false (buffer ++ more) s h (omega arith)
      ∙ no_frames_before (drain (suc (length (buffer ++ more))) false (buffer ++ more) s)

  close_open : (buffer : Text) (s : FrameState) → close false buffer s ≡ ok (buffer, s, [])
  unfolding close
  close_open buffer s = refl

  -- Draining a text is draining a first part of it, and then what that leaves with the second.
  pub drain-append :
      (f g : ℕ) (buffer more : Text) (s : FrameState)
      → length buffer < f
      → length (buffer ++ more) < g
      → drain g false (buffer ++ more) s ≡ then_drain more (drain f false buffer s)
  drain-append zero g buffer more s h h' = absurd (omega arith)
  drain-append (suc f) zero buffer more s h h' = absurd (omega arith)
  drain-append (suc f) (suc g) buffer more s h h' = elim (Option-cases (cut_line buffer)) [
    | inl last ↦
        all_left (suc g) buffer more s h'
        ∙ ap (then_drain more) (sym (drain_last f false buffer s last ∙ close_open buffer s))
    | inr (k, e) ↦ elim (Bool-cases (waits false k)) [
      | inl wait ↦
          all_left (suc g) buffer more s h'
          ∙ ap (then_drain more) (sym (drain_wait f false buffer s k e wait))
      | inr go ↦
          let longer = record k { after = k.after ++ more } in
          let same_rest = rest-append k more go in
          let shorter = cut_line-length buffer k e in
          let shorter' =
            cut_line-length (buffer ++ more) longer (cut_line-append buffer more k e) in
          let ih = λ (s' : FrameState).
            ap (λ t. drain g false t s') same_rest
            ∙ drain-append f g (rest k) more s' (omega arith)
                (omega (arith, ap length same_rest)) in
          drain_go g false (buffer ++ more) s longer (cut_line-append buffer more k e)
            (waits-append k more go)
          ∙ ap (go_on k s) (fun_ext ih)
          ∙ sym (then_drain-go_on more k s (drain f false (rest k)))
          ∙ ap (then_drain more) (sym (drain_go f false buffer s k e go))
    ]
  ]
