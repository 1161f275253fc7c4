-- ===== src/Query/Tests.antt =====
-- The live stream at concrete inputs.
use tekrion.Prelude.{false, ◌≡◌, refl, [], ◌∷◌, ok, arith}
use tekrion.Prelude.Numerals.{numeral, digits}
use tekrion.Storage.Tests.{event}
use tekrion.Sse.Frame.{Limits}
use tekrion.Sse.Drain.{drain_lines}
use tekrion.Query.LiveStream.{JsonText, event_frame}
use tekrion.Query.Decoding.{decoded_from, frames_text, state, drain_lines-frames_text}

abbrev limits : Limits
limits = record {
  maximum_buffered_characters = 1000;
  maximum_frame_characters = 100;
  maximum_frames = 2;
}

abbrev json : JsonText
json = record { of_event = λ e. 123 ∷ 125 ∷ []; of_ready = λ id n. 123 ∷ 125 ∷ [] }

drain_lines-frames_text_example :
    drain_lines limits false
      (frames_text limits json (event (1 ∷ []) 9 ∷ event (2 ∷ []) 10 ∷ []))
      (state limits json 0)
    ≡ ok (
      [],
      state limits json 2,
      decoded_from limits json 1 (event (1 ∷ []) 9 ∷ event (2 ∷ []) 10 ∷ []),
    )
unfolding event_frame numeral digits
drain_lines-frames_text_example =
    drain_lines-frames_text limits json 0 (event (1 ∷ []) 9 ∷ event (2 ∷ []) 10 ∷ [])
      ((refl, (refl, tt)), ((refl, (refl, tt)), tt)) (omega arith, (omega arith, tt)) (omega arith)
