-- ===== src/Query/Decoding.antt =====
-- The frames of the live stream, read by the decoder of packages/normalizers/src/sse.ts.
use tekrion.Prelude.{
  ℕ, suc, ◌+◌, ◌≤◌, ◌<◌, ◌≡◌, refl, ap, ◌∙◌, true, false, ◌||◌, List, [], ◌∷◌, ◌++◌, none, some,
  Result, ok, err, ◌>>=◌, ltb, leb, ◌==◌, arith, All, all, any, not, length, length-append, Text,
  codes, text_eq, append_assoc,
}
use tekrion.Prelude.Numerals.{numeral, IsDigit, numeral-IsDigit}
use tekrion.Protocol.{TekrionEvent}
use tekrion.Sse.Lines.{cut_line, waits, lf, cr, is_empty, cut_field, drop_space, join_lines}
use tekrion.Sse.Frame.{
  SseFrame, Limits, SseError, FrameState, Fields, no_fields, add_field, add_line, add_lines,
  frame_of, accept_line, emit, dispatch_from, dispatch_frame, take_line,
}
use tekrion.Sse.Drain.{
  Drained, after_frames, drain, drain_lines, close, drain_go, drain_fuel, then_drain,
}
use tekrion.Sse.Splitting.{drain_lines-append}
use tekrion.Query.LiveStream.{JsonText, id_line, event_line, data_line, event_frame}

-- A character that ends no line.
abbrev pub IsInline : ℕ → Type 0
IsInline c = (c == lf || c == cr) ≡ false

cut_line-line :
    (l t : Text)
    → All IsInline l
    → cut_line (l ++ lf ∷ t) ≡ some (record { line = l; newline = lf; after = t })
unfolding cut_line
cut_line-line [] t h = refl
cut_line-line (c ∷ l) t h = rw (h.0, cut_line-line l t h.1) refl

join3 : (a b c t : Text) → (a ++ lf ∷ (b ++ lf ∷ c)) ++ t ≡ a ++ lf ∷ (b ++ lf ∷ (c ++ t))
join3 a b c t =
    append_assoc a (lf ∷ (b ++ lf ∷ c)) t ∙ ap (λ x. a ++ lf ∷ x) (append_assoc b (lf ∷ c) t)

module _ (fs : Fields) where
  add_id :
      (v : Text)
      → any (λ c. c == 0) v ≡ false
      → add_line fs (codes "id: " ++ v) ≡ record fs { id = some v }
  unfolding add_line add_field cut_field drop_space text_eq
  add_id v h = rw h refl

  add_event : add_line fs event_line ≡ record fs { event = some (codes "tekrion.event") }
  unfolding add_line add_field cut_field drop_space text_eq
  add_event = refl

  add_data :
      (v : Text) → add_line fs (data_line v) ≡ record fs { data_lines = fs.data_lines ++ v ∷ [] }
  unfolding add_line add_field cut_field drop_space text_eq
  add_data v = refl

no_zero : (s : Text) → All IsDigit s → any (λ c. c == 0) s ≡ false
no_zero [] h = refl
no_zero (c ∷ s) h = ground (arith, no_zero s h.1)

all-IsInline : (s : Text) → all (λ c. not (c == lf || c == cr)) s ≡ true → All IsInline s
all-IsInline [] h = tt
all-IsInline (c ∷ s) h = (ground arith, all-IsInline s (ground arith))

digits-IsInline : (s : Text) → All IsDigit s → All IsInline s
digits-IsInline [] h = tt
digits-IsInline (c ∷ s) h = (ground arith, digits-IsInline s h.1)

module _ (limits : Limits) where
  drain_line :
      (l t : Text) (s : FrameState)
      → All IsInline l
      → drain_lines limits false (l ++ lf ∷ t) s
        ≡ (take_line limits l s >>= λ r. drain_lines limits false t r.0 >>= after_frames r.1)
  unfolding drain_lines waits
  drain_line l t s h =
      drain_go limits (length (l ++ lf ∷ t)) false (l ++ lf ∷ t) s
        (record { line = l; newline = lf; after = t }) (cut_line-line l t h) refl
      ∙ at_rest (take_line limits l s)
    where
      at_rest :
          (m : Result SseError (FrameState × List SseFrame))
          → (m >>= λ r. drain limits (length (l ++ lf ∷ t)) false t r.0 >>= after_frames r.1)
            ≡ (m >>= λ r. drain limits (suc (length t)) false t r.0 >>= after_frames r.1)
      at_rest (err e) = refl
      at_rest (ok r) =
          ap (λ d. d >>= after_frames r.1)
            (drain_fuel limits (length (l ++ lf ∷ t)) (suc (length t)) false t r.0
              (omega (arith, length-append l (lf ∷ t))) (omega arith))

  abbrev extended : FrameState → Text → FrameState
  extended s l = record s {
    frame_characters = s.frame_characters + (length l + 1);
    frame_lines = s.frame_lines ++ l ∷ [];
  }

  take_line-fits :
      (l : Text) (s : FrameState)
      → is_empty l ≡ false
      → s.frame_characters + (length l + 1) ≤ limits.maximum_frame_characters
      → take_line limits l s ≡ ok (extended s l, [])
  unfolding take_line accept_line
  take_line-fits [] s h fits = cc
  take_line-fits (c ∷ l) s h fits = rw (small (s.frame_characters + (length (c ∷ l) + 1)) fits) refl
    where
      small :
          (n : ℕ)
          → n ≤ limits.maximum_frame_characters
          → ltb limits.maximum_frame_characters n ≡ false
      small n f = ground arith

  -- A line that is not empty and fits is stored with those of the frame.
  drain_accepted :
      (l t : Text) (s : FrameState)
      → All IsInline l
      → is_empty l ≡ false
      → s.frame_characters + (length l + 1) ≤ limits.maximum_frame_characters
      → drain_lines limits false (l ++ lf ∷ t) s ≡ drain_lines limits false t (extended s l)
  drain_accepted l t s h full fits =
      drain_line l t s h
      ∙ rw (take_line-fits l s full fits) (no_frames (drain_lines limits false t (extended s l)))
    where
      no_frames : (r : Result SseError Drained) → (r >>= after_frames []) ≡ r
      no_frames (ok d) = refl
      no_frames (err e) = refl

  drain_lines-none : (s : FrameState) → drain_lines limits false [] s ≡ ok ([], s, [])
  unfolding drain_lines drain close cut_line
  drain_lines-none s = refl

  module _ (json : JsonText) where
    -- The frame that a decoder makes of an event's.
    abbrev pub decoded : ℕ → TekrionEvent → SseFrame
    decoded index e = record {
      index = index;
      event = some (codes "tekrion.event");
      data_text = some (json.of_event e);
      id = some (numeral e.sequence);
      retry = none;
      comments = [];
      unknown_fields = [];
      raw = event_frame json e;
    }

    abbrev lines_of : TekrionEvent → List Text
    lines_of e = id_line e.sequence ∷ event_line ∷ data_line (json.of_event e) ∷ []

    raw_of : (e : TekrionEvent) → join_lines (lines_of e) ++ lf ∷ lf ∷ [] ≡ event_frame json e
    unfolding join_lines event_frame
    raw_of e = join3 (id_line e.sequence) event_line (data_line (json.of_event e)) (lf ∷ lf ∷ [])

    abbrev fields_of : TekrionEvent → Fields
    fields_of e = record no_fields {
      id = some (numeral e.sequence);
      event = some (codes "tekrion.event");
      data_lines = json.of_event e ∷ [];
    }

    add_lines-lines : (e : TekrionEvent) → add_lines no_fields (lines_of e) ≡ fields_of e
    unfolding add_lines
    add_lines-lines e =
        ap (λ fs. add_lines fs (event_line ∷ data_line (json.of_event e) ∷ []))
          (add_id no_fields (numeral e.sequence)
            (no_zero (numeral e.sequence) (numeral-IsDigit e.sequence)))
        ∙ ap (λ fs. add_lines fs (data_line (json.of_event e) ∷ []))
            (add_event (record no_fields { id = some (numeral e.sequence) }))
        ∙ add_data
            (record no_fields {
              id = some (numeral e.sequence);
              event = some (codes "tekrion.event");
            })
            (json.of_event e)

    frame_of-lines : (index : ℕ) (e : TekrionEvent) → frame_of index (lines_of e) ≡ decoded index e
    unfolding frame_of join_lines
    frame_of-lines index e = rw (add_lines-lines e, raw_of e) refl

    abbrev pub state : ℕ → FrameState
    state emitted = record { frame_lines = []; frame_characters = 0; emitted_frames = emitted }

    dispatch_lines :
        (emitted : ℕ) (e : TekrionEvent) (n : ℕ)
        → emitted < limits.maximum_frames
        → take_line limits []
            (record { frame_lines = lines_of e; frame_characters = n; emitted_frames = emitted })
          ≡ ok (state (emitted + 1), decoded (emitted + 1) e ∷ [])
    unfolding take_line dispatch_frame dispatch_from emit
    dispatch_lines emitted e n h =
        rw (below limits.maximum_frames emitted h, frame_of-lines (emitted + 1) e) refl
      where
        below : (m n : ℕ) → n < m → leb m n ≡ false
        below m n h = ground arith

    frame_sizes :
        (e : TekrionEvent)
        → length (event_frame json e) ≤ limits.maximum_frame_characters
        → (length (id_line e.sequence) + 1)
            + (length event_line + 1)
            + (length (data_line (json.of_event e)) + 1)
          ≤ limits.maximum_frame_characters
    unfolding event_frame
    frame_sizes e fits = omega (
      arith,
      fits,
      length-append (id_line e.sequence)
          (lf ∷ (event_line ++ lf ∷ (data_line (json.of_event e) ++ lf ∷ lf ∷ []))),
      length-append event_line (lf ∷ (data_line (json.of_event e) ++ lf ∷ lf ∷ [])),
      length-append (data_line (json.of_event e)) (lf ∷ lf ∷ []),
    )

    drain_frame :
        (emitted : ℕ) (e : TekrionEvent)
        → All IsInline (json.of_event e)
        → length (event_frame json e) ≤ limits.maximum_frame_characters
        → emitted < limits.maximum_frames
        → drain_lines limits false (event_frame json e) (state emitted)
          ≡ ok ([], state (emitted + 1), decoded (emitted + 1) e ∷ [])
    unfolding event_frame
    drain_frame emitted e inline fits few =
        let one = id_line e.sequence in
        let two = event_line in
        let three = data_line (json.of_event e) in
        let sizes = frame_sizes e fits in
        let three_lines = extended (extended (extended (state emitted) one) two) three in
        drain_accepted one _ (state emitted)
          (
            refl,
            (
              refl,
              (refl, (refl, digits-IsInline (numeral e.sequence) (numeral-IsDigit e.sequence))),
            ),
          )
          refl (omega (arith, sizes))
        ∙ drain_accepted two _ (extended (state emitted) one) (all-IsInline two refl) refl
            (omega (arith, sizes))
        ∙ drain_accepted three (lf ∷ []) (extended (extended (state emitted) one) two)
            (refl, (refl, (refl, (refl, (refl, (refl, inline)))))) refl (omega (arith, sizes))
        ∙ drain_line [] [] three_lines tt
        ∙ ap (λ m. m >>= λ r. drain_lines limits false [] r.0 >>= after_frames r.1)
            (dispatch_lines emitted e three_lines.frame_characters few)
        ∙ ap (λ d. d >>= after_frames (decoded (emitted + 1) e ∷ []))
            (drain_lines-none (state (emitted + 1)))

    -- The text that the stream writes for the events.
    abbrev pub frames_text : List TekrionEvent → Text
    frames_text [] = []
    frames_text (e ∷ es) = event_frame json e ++ frames_text es

    abbrev pub decoded_from : ℕ → List TekrionEvent → List SseFrame
    decoded_from index [] = []
    decoded_from index (e ∷ es) = decoded index e ∷ decoded_from (index + 1) es

    -- If the JSON of each event has no line end, the frame of each fits in the limit of a frame, and
    -- the frames are not too many, then a decoder that is between frames reads the text of the events'
    -- frames to its end, and makes of each event, in order, one frame with the event's sequence as
    -- its identifier and the event's JSON as its data.
    pub drain_lines-frames_text :
        (emitted : ℕ) (es : List TekrionEvent)
        → All (λ e. All IsInline (json.of_event e)) es
        → All (λ e. length (event_frame json e) ≤ limits.maximum_frame_characters) es
        → emitted + length es ≤ limits.maximum_frames
        → drain_lines limits false (frames_text es) (state emitted)
          ≡ ok ([], state (emitted + length es), decoded_from (emitted + 1) es)
    drain_lines-frames_text emitted [] inline fits few =
        rw (add_zero emitted) (drain_lines-none (state emitted))
      where
        add_zero : (n : ℕ) → n + 0 ≡ n
        add_zero n = omega arith
    drain_lines-frames_text emitted (e ∷ es) inline fits few =
        let rest = drain_lines-frames_text (emitted + 1) es inline.1 fits.1 (omega arith) in
        drain_lines-append limits (event_frame json e) (frames_text es) (state emitted)
        ∙ ap (then_drain limits (frames_text es))
            (drain_frame emitted e inline.0 fits.0 (omega arith))
        ∙ ap (λ d. d >>= after_frames (decoded (emitted + 1) e ∷ [])) rest
        ∙ ap (λ n. ok ([], state n, decoded_from (emitted + 1) (e ∷ es)))
            (one_more emitted (length es))
      where
        one_more : (m n : ℕ) → m + 1 + n ≡ m + suc n
        one_more m n = omega arith
