-- ===== src/Sse/Frame.antt =====
-- The lines of the frame under way and the frames that they make: `acceptLine` and `dispatchFrame`.
use tekrion.Prelude.{
  ℕ, ◌+◌, List, [], ◌∷◌, ◌++◌, Option, none, some, Result, ok, ◌>>=◌, ◌>>◌, throw_if, ltb, leb,
  ◌==◌, if◌then◌else◌, length, any, Text, text_eq, codes,
}
use tekrion.Sse.Lines.{Field, cut_field, drop_space, is_decimal, decimal_from, join_lines, lf}

pub record UnknownField : Type 0 where
  pub name : Text
  pub value : Text

pub record SseFrame : Type 0 where
  pub index : ℕ
  pub event : Option Text
  pub data_text : Option Text
  pub id : Option Text
  pub retry : Option ℕ
  pub comments : List Text
  pub unknown_fields : List UnknownField
  pub raw : Text

pub record Limits : Type 0 where
  pub maximum_buffered_characters : ℕ
  pub maximum_frame_characters : ℕ
  pub maximum_frames : ℕ

-- `invalid_retry n`: the frame schema's `int()` refuses an integer above 2 ^ 53 - 1.
pub data SseError : Type 0 where
  limit_not_positive malformed_utf8 : SseError
  buffer_limit frame_limit frame_count_limit : SseError
  invalid_retry : ℕ → SseError
  already_finished fuel_exhausted : SseError

-- The decoder's state between lines.
pub record FrameState : Type 0 where
  pub frame_lines : List Text
  pub frame_characters : ℕ
  pub emitted_frames : ℕ

-- The variables of `dispatchFrame`'s loop.
pub record Fields : Type 0 where
  pub data_lines : List Text
  pub comments : List Text
  pub unknown_fields : List UnknownField
  pub event : Option Text
  pub id : Option Text
  pub retry : Option ℕ

abbrev pub no_fields : Fields
no_fields = record {
  data_lines = [];
  comments = [];
  unknown_fields = [];
  event = none;
  id = none;
  retry = none;
}

-- The `switch` on the name of the field.
unfoldable pub add_field : Fields → Field → Fields
add_field fs field =
    let value = field.value in
    if text_eq field.name (codes "event")
    then record fs { event = some value }
    else if text_eq field.name (codes "data")
    then record fs { data_lines = fs.data_lines ++ value ∷ [] }
    else if text_eq field.name (codes "id")
    then (if any (λ c. c == 0) value then fs else record fs { id = some value })
    else if text_eq field.name (codes "retry")
    then (if is_decimal value then record fs { retry = some (decimal_from 0 value) } else fs)
    else record fs {
      unknown_fields = fs.unknown_fields ++ record { name = field.name; value = value } ∷ [];
    }

-- One round of the loop: a comment, or a field.
unfoldable pub add_line : Fields → Text → Fields
unfolding add_field cut_field
add_line fs [] = add_field fs (cut_field [])
add_line fs (c ∷ s) =
    if c == b':'
    then record fs { comments = fs.comments ++ drop_space s ∷ [] }
    else add_field fs (cut_field (c ∷ s))

unfoldable pub add_lines : Fields → List Text → Fields
add_lines fs [] = fs
add_lines fs (l ∷ ls) = add_lines (add_line fs l) ls

abbrev pub joined : List Text → Option Text
joined [] = none
joined (l ∷ ls) = some (join_lines (l ∷ ls))

abbrev pub safe_retry : Option ℕ → Result SseError (Unit {0})
safe_retry none = ok tt
safe_retry (some n) = throw_if (ltb 9007199254740991 n) (invalid_retry n)

-- The frame that the lines make.
unfoldable pub frame_of : ℕ → List Text → SseFrame
unfolding add_lines add_line
frame_of index lines =
    let fs = add_lines no_fields lines in
    record {
      index = index;
      event = fs.event;
      data_text = joined fs.data_lines;
      id = fs.id;
      retry = fs.retry;
      comments = fs.comments;
      unknown_fields = fs.unknown_fields;
      raw = join_lines lines ++ lf ∷ lf ∷ [];
    }

-- The state and the frame with which `dispatchFrame` ends.
abbrev pub emission : FrameState → FrameState × List SseFrame
emission s = (
  record { frame_lines = []; frame_characters = 0; emitted_frames = s.emitted_frames + 1 },
  frame_of (s.emitted_frames + 1) s.frame_lines ∷ [],
)

module _ (limits : Limits) where
  unfoldable pub accept_line : FrameState → Text → Result SseError FrameState
  accept_line s line = do
    let frame_characters = s.frame_characters + (length line + 1)
    throw_if (ltb limits.maximum_frame_characters frame_characters) frame_limit
    ok (record s { frame_characters = frame_characters; frame_lines = s.frame_lines ++ line ∷ [] })

  -- A frame that has a line at least.
  unfoldable pub emit : FrameState → Result SseError (FrameState × List SseFrame)
  emit s = do
    throw_if (leb limits.maximum_frames s.emitted_frames) frame_count_limit
    safe_retry (frame_of (s.emitted_frames + 1) s.frame_lines).retry
    ok (emission s)

  unfoldable pub dispatch_from :
      List Text → FrameState → Result SseError (FrameState × List SseFrame)
  dispatch_from [] s = ok (s, [])
  dispatch_from (l ∷ ls) s = emit s

  unfoldable pub dispatch_frame : FrameState → Result SseError (FrameState × List SseFrame)
  unfolding dispatch_from emit
  dispatch_frame s = dispatch_from s.frame_lines s

  -- A complete line: an empty one ends the frame.
  unfoldable pub take_line : Text → FrameState → Result SseError (FrameState × List SseFrame)
  take_line [] s = dispatch_frame s
  take_line (c ∷ cs) s = accept_line s (c ∷ cs) >>= λ s'. ok (s', [])
