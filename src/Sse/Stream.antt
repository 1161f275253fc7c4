-- ===== src/Sse/Stream.antt =====
-- The whole stream: its decoding depends on its bytes alone, not on how they were cut into chunks.
use tekrion.Prelude.{
  ℕ, suc, ◌+◌, ◌≤◌, ◌≡◌, refl, sym, ap, ◌∙◌, false, List, [], ◌∷◌, ◌++◌, Option, none, some, Result,
  ok, err, ◌>>=◌, length, length-append, arith, Text, append-nil,
}
use tekrion.Sse.Frame.{SseFrame, Limits, SseError}
use tekrion.Sse.Drain.{Drained, drain_lines}
use tekrion.Sse.Chunks.{
  and_then, Utf8, TextState, fresh_text, still_at_start, drained, push_text, IncrementalSseDecoder,
  create, push, push_all, finish, decode_sse_chunks, SseDecodeResult,
}
use tekrion.Sse.Splitting.{
  Shrinks, drain-Shrinks, without_mark-length, appended, Fits, push_text-Fits, then_push,
  push_text-append,
}

-- The bytes of the chunks.
abbrev pub joined_bytes : List (List ℕ) → List ℕ
joined_bytes [] = []
joined_bytes (c ∷ cs) = c ++ joined_bytes cs

-- The two parts of a stream that decodes as a whole.
record Parts {State : Type 0} (utf8 : Utf8 State) (s : State) (xs ys : List ℕ) (text : Text)
    (u : State) : Type 0 where
  first : Text × State
  second : Text × State
  decodes_first : utf8.decode s xs ≡ some first
  decodes_second : utf8.decode first.1 ys ≡ some second
  text_joined : text ≡ first.0 ++ second.0
  ends : u ≡ second.1

module _ {State : Type 0} (utf8 : Utf8 State) (s : State) (xs ys : List ℕ) (text : Text)
    (u : State) where
  abbrev joined_with : Text → Text × State → Option (Text × State)
  joined_with t q = some (t ++ q.0, q.1)

  second_part :
      (first : Text × State) (o : Option (Text × State))
      → utf8.decode s xs ≡ some first
      → utf8.decode first.1 ys ≡ o
      → and_then o (joined_with first.0) ≡ some (text, u)
      → Parts utf8 s xs ys text u
  second_part first none e₁ e₂ h = cc
  second_part first (some second) e₁ e₂ h = record {
    first = first;
    second = second;
    decodes_first = e₁;
    decodes_second = e₂;
    text_joined = ground arith;
    ends = ground arith;
  }

  first_part :
      (o : Option (Text × State))
      → utf8.decode s xs ≡ o
      → and_then o (λ p. and_then (utf8.decode p.1 ys) (joined_with p.0)) ≡ some (text, u)
      → Parts utf8 s xs ys text u
  first_part none e h = cc
  first_part (some first) e h = second_part first (utf8.decode first.1 ys) e refl h

  decode-Parts : utf8.decode s (xs ++ ys) ≡ some (text, u) → Parts utf8 s xs ys text u
  decode-Parts e = first_part (utf8.decode s xs) refl (sym (utf8.decode-append s xs ys) ∙ e)

-- What a push leaves in the buffer.
abbrev Leaves : ℕ → Result SseError (TextState × List SseFrame) → Type 0
Leaves n (ok r) = length r.0.text_buffer ≤ n
Leaves n (err e) = Unit

push_text-Leaves :
    (limits : Limits) (s : TextState) (value : Text)
    → Fits limits s value
    → Leaves (length s.text_buffer + length value) (push_text limits false s value)
unfolding drain_lines
push_text-Leaves limits s value h = rw (push_text-Fits limits s value h) (
    leaves (drain_lines limits false (appended limits s value).text_buffer s.frame) (
      drain-Shrinks limits (suc (length (appended limits s value).text_buffer))
        (appended limits s value).text_buffer s.frame))
  where
    leaves :
        (r : Result SseError Drained)
        → Shrinks (length (appended limits s value).text_buffer) r
        → Leaves
            (length s.text_buffer + length value)
            (r >>= drained limits (still_at_start s.at_start value))
    leaves (ok d) k =
        omega (arith, length-append s.text_buffer, without_mark-length s.at_start value)
    leaves (err e) k = tt

module _ {State : Type 0} (utf8 : Utf8 State) where
  -- The decoder after the bytes are decoded and their text is pushed.
  abbrev set_text :
      IncrementalSseDecoder State
      → State
      → TextState × List SseFrame
      → Result SseError (IncrementalSseDecoder State × List SseFrame)
  set_text d u r = ok (record d { decoder = u; text = r.0 }, r.1)

  push_decoded :
      (d : IncrementalSseDecoder State) (chunk : List ℕ) (p : Text × State)
      → d.finished ≡ false
      → utf8.decode d.decoder chunk ≡ some p
      → push utf8 d chunk ≡ (push_text d.limits false d.text p.0 >>= set_text d p.1)
  unfolding push
  push_decoded d chunk p live e = rw (live, e) refl

  abbrev with_rest :
      (IncrementalSseDecoder State → Result SseError (IncrementalSseDecoder State × List SseFrame))
      → IncrementalSseDecoder State × List SseFrame
      → Result SseError (IncrementalSseDecoder State × List SseFrame)
  with_rest more r = more r.0 >>= λ q. ok (q.0, r.1 ++ q.1)

  regroup :
      (d : IncrementalSseDecoder State) (u : State) (frames : List SseFrame)
      (m : Result SseError (TextState × List SseFrame))
      → (m >>= set_text d u >>= λ q. ok (q.0, frames ++ q.1))
        ≡ (m >>= (λ q. ok (q.0, frames ++ q.1)) >>= set_text d u)
  regroup d u frames (ok r) = refl
  regroup d u frames (err e) = refl

  -- The second part of the stream, pushed after the first by `more`.
  later :
      (d : IncrementalSseDecoder State) (first second : Text × State) (bytes : List ℕ)
      (more : IncrementalSseDecoder State
        → Result SseError (IncrementalSseDecoder State × List SseFrame))
      (m : Result SseError (TextState × List SseFrame))
      → d.finished ≡ false
      → utf8.decode first.1 bytes ≡ some second
      → (n : ℕ)
      → ((d' : IncrementalSseDecoder State)
          → d'.limits ≡ d.limits
          → d'.finished ≡ false
          → utf8.decode d'.decoder bytes ≡ some second
          → length d'.text.text_buffer + length second.0 ≤ d'.limits.maximum_buffered_characters
          → more d' ≡ push utf8 d' bytes)
      → Leaves n m
      → n + length second.0 ≤ d.limits.maximum_buffered_characters
      → (m >>= set_text d first.1 >>= with_rest more)
        ≡ (m >>= then_push d.limits second.0 >>= set_text d second.1)
  later d first second bytes more (ok r) live e n ih less fits =
      let d' : IncrementalSseDecoder State = record d { decoder = first.1; text = r.0 } in
      ap (λ m. m >>= λ q. ok (q.0, r.1 ++ q.1))
        (ih d' refl live e (omega arith) ∙ push_decoded d' bytes second live e)
      ∙ regroup d second.1 r.1 (push_text d.limits false r.0 second.0)
  later d first second bytes more (err e') live e n ih less fits = refl

  no_frames_after :
      (m : Result SseError (IncrementalSseDecoder State × List SseFrame))
      → (m >>= λ r. ok (r.0, r.1 ++ [])) ≡ m
  no_frames_after (ok r) = ap (λ fs. ok (r.0, fs)) (append-nil r.1)
  no_frames_after (err e) = refl

  push_all-single :
      (d : IncrementalSseDecoder State) (chunk : List ℕ)
      → push_all utf8 d (chunk ∷ []) ≡ push utf8 d chunk
  unfolding push_all
  push_all-single d chunk = no_frames_after (push utf8 d chunk)

  -- Pushing all the chunks of a stream that decodes, and whose text fits in the buffer, is pushing
  -- the stream as one chunk.
  push_all-joined :
      (d : IncrementalSseDecoder State) (chunk : List ℕ) (chunks : List (List ℕ)) (text : Text)
      (u : State)
      → d.finished ≡ false
      → utf8.decode d.decoder (chunk ++ joined_bytes chunks) ≡ some (text, u)
      → length d.text.text_buffer + length text ≤ d.limits.maximum_buffered_characters
      → push_all utf8 d (chunk ∷ chunks) ≡ push utf8 d (chunk ++ joined_bytes chunks)
  unfolding push_all
  push_all-joined d chunk [] text u live e fits =
      push_all-single d chunk ∙ ap (push utf8 d) (sym (append-nil chunk))
  push_all-joined d chunk (next ∷ chunks) text u live e fits =
      let p = decode-Parts utf8 d.decoder chunk (next ++ joined_bytes chunks) text u e in
      let sizes = ap length p.text_joined in
      let both = length-append p.first.0 p.second.0 in
      let whole = chunk ++ (next ++ joined_bytes chunks) in
      ap (λ m. m >>= with_rest (λ d'. push_all utf8 d' (next ∷ chunks)))
        (push_decoded d chunk p.first live p.decodes_first)
      ∙ later d p.first p.second (next ++ joined_bytes chunks)
          (λ d'. push_all utf8 d' (next ∷ chunks)) (push_text d.limits false d.text p.first.0) live
          p.decodes_second (length d.text.text_buffer + length p.first.0)
          (λ d' s l e' f. push_all-joined d' next chunks p.second.0 p.second.1 l e' f)
          (push_text-Leaves d.limits d.text p.first.0 (omega arith)) (omega arith)
      ∙ ap (λ m. m >>= set_text d p.second.1)
          (sym (push_text-append d.limits d.text p.first.0 p.second.0 (omega arith)))
      ∙ ap (λ t. push_text d.limits false d.text t >>= set_text d p.second.1) (sym p.text_joined)
      ∙ ap (λ v. push_text d.limits false d.text text >>= set_text d v) (sym p.ends)
      ∙ sym (push_decoded d whole (text, u) live e)

  create_fresh :
      (limits : Limits) (d : IncrementalSseDecoder State)
      → create utf8 limits ≡ ok d
      → d ≡ record { limits = limits; decoder = utf8.start; text = fresh_text; finished = false }
  unfolding create
  create_fresh limits d e = ground arith

  -- Where a stream of bytes decodes to a text that fits in the buffer, cutting it into chunks does
  -- not change what the decoder makes of it, frames and errors alike: the result is that of the
  -- whole stream as one chunk.
  pub decode_sse_chunks-joined :
      (limits : Limits) (chunk : List ℕ) (chunks : List (List ℕ)) (text : Text) (u : State)
      → utf8.decode utf8.start (chunk ++ joined_bytes chunks) ≡ some (text, u)
      → length text ≤ limits.maximum_buffered_characters
      → decode_sse_chunks utf8 limits (chunk ∷ chunks)
        ≡ decode_sse_chunks utf8 limits ((chunk ++ joined_bytes chunks) ∷ [])
  unfolding decode_sse_chunks
  decode_sse_chunks-joined limits chunk chunks text u e fits = at_fresh (create utf8 limits) refl
    where
      whole : List ℕ
      whole = chunk ++ joined_bytes chunks

      end : IncrementalSseDecoder State × List SseFrame → Result SseError SseDecodeResult
      end r = finish utf8 r.0 >>= λ f. ok (record f { frames = r.1 ++ f.frames })

      at_fresh :
          (m : Result SseError (IncrementalSseDecoder State))
          → create utf8 limits ≡ m
          → (m >>= λ d. push_all utf8 d (chunk ∷ chunks) >>= end)
            ≡ (m >>= λ d. push_all utf8 d (whole ∷ []) >>= end)
      at_fresh (err e') h = refl
      at_fresh (ok d) h =
          let fresh = create_fresh limits d h in
          ap (λ m. m >>= end)
            (push_all-joined d chunk chunks text u (ap (λ x. x.finished) fresh)
                (ap (λ x. utf8.decode x.decoder whole) fresh ∙ e)
                (omega (
                  arith,
                  ap (λ x. length x.text.text_buffer) fresh,
                  ap (λ x. x.limits.maximum_buffered_characters) fresh,
                ))
              ∙ sym (push_all-single d whole))
