-- ===== src/Sse/Chunks.antt =====
-- `IncrementalSseDecoder` over chunks of bytes, and `decodeSseChunks`.
use tekrion.Prelude.{
  ℕ, ◌+◌, ◌≡◌, Bool, true, false, List, [], ◌∷◌, ◌++◌, Option, none, some, Result, ok, err, ◌>>=◌,
  ◌>>◌, throw_if, ltb, ◌==◌, if◌then◌else◌, length, Text,
}
use tekrion.Sse.Lines.{join_lines}
use tekrion.Sse.Frame.{
  SseFrame, Limits, SseError, limit_not_positive, malformed_utf8, buffer_limit, already_finished,
  FrameState,
}
use tekrion.Sse.Drain.{Drained, drain_lines}

abbrev pub and_then : {A B : Type 0} → Option A → (A → Option B) → Option B
and_then none f = none
and_then (some a) f = f a

-- `new TextDecoder("utf-8", { fatal: true })`: `decode` is the call with `stream: true`, `flush` the
-- last call, and `none` the TypeError on malformed input. A stream that is cut elsewhere decodes to
-- the same text.
pub record Utf8 (State : Type 0) : Type 0 where
  pub start : State
  pub decode : State → List ℕ → Option (Text × State)
  pub flush : State → Option Text
  pub decode-append :
      (s : State) (xs ys : List ℕ)
      → decode s (xs ++ ys)
        ≡ and_then (decode s xs) (λ p. and_then (decode p.1 ys) (λ q. some (p.0 ++ q.0, q.1)))

abbrev pub or_malformed : {A : Type 0} → Option A → Result SseError A
or_malformed none = err malformed_utf8
or_malformed (some a) = ok a

-- The decoder's state after the bytes are decoded.
pub record TextState : Type 0 where
  pub text_buffer : Text
  pub frame : FrameState
  pub at_start : Bool

-- A byte order mark before the first character is dropped.
abbrev pub without_mark : Bool → Text → Text
without_mark at_start [] = []
without_mark true (c ∷ s) = if c == 0xfeff then s else c ∷ s
without_mark false (c ∷ s) = c ∷ s

abbrev pub still_at_start : Bool → Text → Bool
still_at_start at_start [] = at_start
still_at_start at_start (c ∷ s) = false

pub record IncompleteSseFrame : Type 0 where
  pub index : ℕ
  pub raw : Text

pub record SseDecodeResult : Type 0 where
  pub frames : List SseFrame
  pub incomplete : Option IncompleteSseFrame

module _ (limits : Limits) where
  unfoldable pub append_decoded : TextState → Text → Result SseError TextState
  append_decoded s value = do
    let buffer = s.text_buffer ++ without_mark s.at_start value
    throw_if (ltb limits.maximum_buffered_characters (length buffer)) buffer_limit
    ok (record s { text_buffer = buffer; at_start = still_at_start s.at_start value })

  abbrev pub drained : Bool → Drained → Result SseError (TextState × List SseFrame)
  drained at_start r = ok (record { text_buffer = r.0; frame = r.1; at_start = at_start }, r.2)

  -- `appendDecoded` and `drainLines`, which follow each other in `push` and in `finish`.
  unfoldable pub push_text : Bool → TextState → Text → Result SseError (TextState × List SseFrame)
  unfolding append_decoded drain_lines
  push_text final s value = do
    s' ← append_decoded s value
    drain_lines limits final s'.text_buffer s'.frame >>= drained s'.at_start

abbrev pub incomplete_frame : ℕ → Text → Option IncompleteSseFrame
incomplete_frame index [] = none
incomplete_frame index (c ∷ raw) = some (record { index = index; raw = c ∷ raw })

pub record IncrementalSseDecoder (State : Type 0) : Type 0 where
  pub limits : Limits
  pub decoder : State
  pub text : TextState
  pub finished : Bool

abbrev pub fresh_text : TextState
fresh_text = record {
  text_buffer = [];
  frame = record { frame_lines = []; frame_characters = 0; emitted_frames = 0 };
  at_start = true;
}

module _ {State : Type 0} (utf8 : Utf8 State) where
  -- The constructor; the default limits are the caller's.
  unfoldable pub create : Limits → Result SseError (IncrementalSseDecoder State)
  create limits = do
    throw_if (ltb limits.maximum_buffered_characters 1) limit_not_positive
    throw_if (ltb limits.maximum_frame_characters 1) limit_not_positive
    throw_if (ltb limits.maximum_frames 1) limit_not_positive
    ok (record { limits = limits; decoder = utf8.start; text = fresh_text; finished = false })

  unfoldable pub push :
      IncrementalSseDecoder State
      → List ℕ
      → Result SseError (IncrementalSseDecoder State × List SseFrame)
  unfolding push_text
  push d chunk = do
    throw_if d.finished already_finished
    decoded ← or_malformed (utf8.decode d.decoder chunk)
    r ← push_text d.limits false d.text decoded.0
    ok (record d { decoder = decoded.1; text = r.0 }, r.1)

  -- The frame lines that no empty line has ended, and the frames of the last part of the buffer.
  unfoldable pub finish : IncrementalSseDecoder State → Result SseError SseDecodeResult
  unfolding push_text
  finish d = do
    throw_if d.finished already_finished
    decoded ← or_malformed (utf8.flush d.decoder)
    r ← push_text d.limits true d.text decoded
    ok (record {
      frames = r.1;
      incomplete =
          incomplete_frame (r.0.frame.emitted_frames + 1) (join_lines r.0.frame.frame_lines);
    })

  -- The loop of `decodeSseChunks`.
  unfoldable pub push_all :
      IncrementalSseDecoder State
      → List (List ℕ)
      → Result SseError (IncrementalSseDecoder State × List SseFrame)
  push_all d [] = ok (d, [])
  push_all d (chunk ∷ chunks) = do
    r ← push d chunk
    r' ← push_all r.0 chunks
    ok (r'.0, r.1 ++ r'.1)

  unfoldable pub decode_sse_chunks : Limits → List (List ℕ) → Result SseError SseDecodeResult
  unfolding create push_all push finish
  decode_sse_chunks limits chunks = do
    d ← create limits
    r ← push_all d chunks
    finished ← finish r.0
    ok (record finished { frames = r.1 ++ finished.frames })
