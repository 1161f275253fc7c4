-- ===== src/Sse/Tests.antt =====
-- The decoder at concrete inputs, over a decoder of ASCII.
use tekrion.Prelude.{ℕ, ◌≡◌, refl, false, text_eq, List, [], ◌∷◌, none, some, ok, codes, arith}
use tekrion.Sse.Frame.{Limits, SseFrame, frame_of, accept_line, dispatch_frame, take_line}
use tekrion.Sse.Lines.{cut_line, waits, join_lines}
use tekrion.Sse.Drain.{drain_lines}
use tekrion.Sse.Chunks.{fresh_text, Utf8, decode_sse_chunks}
use tekrion.Sse.Stream.{decode_sse_chunks-joined}
use tekrion.Sse.Numbering.{EmitsResult, drain_lines-EmitsResult}

-- Every byte is a character, and nothing is carried over between chunks.
abbrev ascii : Utf8 (Unit {0})
ascii = record {
  start = tt;
  decode = λ s bytes. some (bytes, s);
  flush = λ s. some [];
  decode-append = λ s xs ys. refl;
}

abbrev limits : Limits
limits = record {
  maximum_buffered_characters = 64;
  maximum_frame_characters = 64;
  maximum_frames = 4;
}

-- A "\r\n" cut between its two characters.
abbrev first_chunk : List ℕ
first_chunk = codes "data: a\r"

abbrev second_chunk : List ℕ
second_chunk = codes "\nid: 7\r\n\r\n: bye"

abbrev only_frame : SseFrame
only_frame = record {
  index = 1;
  event = none;
  data_text = some (codes "a");
  id = some (codes "7");
  retry = none;
  comments = [];
  unknown_fields = [];
  raw = codes "data: a\nid: 7\n\n";
}

two_chunks :
    decode_sse_chunks ascii limits (first_chunk ∷ second_chunk ∷ [])
    ≡ ok (record {
      frames = only_frame ∷ [];
      incomplete = some (record { index = 2; raw = codes ": bye" });
    })
unfolding decode_sse_chunks cut_line waits take_line accept_line dispatch_frame text_eq join_lines
    frame_of
two_chunks = refl

decode_sse_chunks-joined_example :
    decode_sse_chunks ascii limits (first_chunk ∷ second_chunk ∷ [])
    ≡ decode_sse_chunks ascii limits (codes "data: a\r\nid: 7\r\n\r\n: bye" ∷ [])
decode_sse_chunks-joined_example =
    decode_sse_chunks-joined ascii limits first_chunk (second_chunk ∷ []) _ tt refl (omega arith)

drain_lines-EmitsResult_example :
    EmitsResult limits fresh_text.frame
      (drain_lines limits false (codes "data: x\n\n: c\n") fresh_text.frame)
drain_lines-EmitsResult_example =
    drain_lines-EmitsResult limits false (codes "data: x\n\n: c\n") fresh_text.frame
