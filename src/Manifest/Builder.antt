-- ===== src/Manifest/Builder.antt =====
-- A manifest that the builder makes passes every check of its schema.
use tekrion.Prelude.{
  ℕ, ◌+◌, ◌-◌, ◌≤◌, ◌≡◌, refl, Bool, Bool-cases, true, false, List, [], ◌∷◌, ◌++◌, min, inl, inr,
  Option, none, some, Result, ok, err, ◌>>=◌, >>=-eq-ok, arith, length, length-append, leb, ◌&&◌,
  Text,
}
use tekrion.Manifest.{
  Direction, ChunkManifestEntry, Offsets, advance, offset_at, entry_issues, manifest_issues,
  ChunkManifestBuilder, ManifestError, time_moved_backward, create, truncated, new_entry,
  drop_chunk, record_chunk, append, draft, build,
}

abbrev start : Offsets
start = record { of_request = 0; of_response = 0 }

abbrev final_offsets : Offsets → List ChunkManifestEntry → Offsets
final_offsets o [] = o
final_offsets o (e ∷ es) = final_offsets (advance e.direction e.byte_length o) es

abbrev final_time : ℕ → List ChunkManifestEntry → ℕ
final_time t [] = t
final_time t (e ∷ es) = final_time e.monotonic_offset_ns es

final_offsets-push :
    (o : Offsets) (es : List ChunkManifestEntry) (e : ChunkManifestEntry)
    → final_offsets o (es ++ e ∷ []) ≡ advance e.direction e.byte_length (final_offsets o es)
final_offsets-push o [] e = refl
final_offsets-push o (x ∷ es) e = final_offsets-push (advance x.direction x.byte_length o) es e

final_time-push :
    (t : ℕ) (es : List ChunkManifestEntry) (e : ChunkManifestEntry)
    → final_time t (es ++ e ∷ []) ≡ e.monotonic_offset_ns
final_time-push t [] e = refl
final_time-push t (x ∷ es) e = final_time-push x.monotonic_offset_ns es e

-- One more entry at the end of a clean list keeps it clean.
entry_issues-push :
    (i t : ℕ) (o : Offsets) (es : List ChunkManifestEntry) (e : ChunkManifestEntry)
    → entry_issues i t o es ≡ []
    → e.sequence ≡ i + length es + 1
    → final_time t es ≤ e.monotonic_offset_ns
    → e.byte_offset ≡ offset_at e.direction (final_offsets o es)
    → entry_issues i t o (es ++ e ∷ []) ≡ []
unfolding entry_issues
entry_issues-push i t o [] e clean at_end later next = ground arith
entry_issues-push i t o (x ∷ es) e clean at_end later next = ground (
  arith,
  entry_issues-push (i + 1) x.monotonic_offset_ns (advance x.direction x.byte_length o) es e,
)

pub record Recording (b : ChunkManifestBuilder) : Type 0 where
  pub clean : entry_issues 0 0 start b.entries ≡ []
  pub at_offsets : b.offsets ≡ final_offsets start b.entries
  pub started : b.started_monotonic_ns ≤ b.last_observed_ns
  pub in_time : final_time 0 b.entries ≤ b.last_observed_ns - b.started_monotonic_ns
  pub none_dropped : b.dropped_entries ≡ 0 → b.dropped_bytes ≡ 0

module _ (digest : List ℕ → Text) where
  append-Recording :
      (b b' : ChunkManifestBuilder) (d : Direction) (chunk : List ℕ) (at_ns : ℕ)
      {entry : Option ChunkManifestEntry}
      → Recording b
      → append digest b d chunk at_ns ≡ ok (b', entry)
      → Recording b'
  unfolding append new_entry
  append-Recording b b' d chunk at_ns r e = ground (
    arith,
    entry_issues-push 0 0 start b.entries (new_entry digest b d chunk at_ns),
    final_offsets-push start b.entries (new_entry digest b d chunk at_ns),
    final_time-push 0 b.entries (new_entry digest b d chunk at_ns),
  )

  create-Recording :
      (id : Text) (started limit : ℕ) (b : ChunkManifestBuilder)
      → create id started limit ≡ ok b
      → Recording b
  unfolding create entry_issues
  create-Recording id started limit b e = ground arith

  -- A chunk with its direction and the time at which it was observed.
  abbrev pub Observation : Type 0
  Observation = Direction × List ℕ × ℕ

  unfoldable pub appends :
      ChunkManifestBuilder → List Observation → Result ManifestError ChunkManifestBuilder
  appends b [] = ok b
  appends b ((direction, chunk, at_ns) ∷ rest) =
      append digest b direction chunk at_ns >>= λ r. appends r.0 rest

  appends-Recording :
      (b b' : ChunkManifestBuilder) (calls : List Observation)
      → Recording b
      → appends b calls ≡ ok b'
      → Recording b'
  unfolding appends
  appends-Recording b b' [] r e = ground arith
  appends-Recording b b' ((d, chunk, at_ns) ∷ rest) r e =
      let (s, e', e'') = >>=-eq-ok (append digest b d chunk at_ns) (λ s. appends s.0 rest) e in
      appends-Recording s.0 b' rest (append-Recording b s.0 d chunk at_ns {entry = s.1} r e') e''

  build_of_Recording :
      (b : ChunkManifestBuilder) (completed : Bool)
      → Recording b
      → build b completed ≡ ok (draft b completed)
  unfolding build draft manifest_issues truncated
  build_of_Recording b completed r = ground (arith, r.none_dropped)

  -- A builder that was created, and whose appends have all succeeded, builds its manifest: no check
  -- of the schema refuses it.
  pub build-appends :
      (id : Text) (started limit : ℕ) (b b' : ChunkManifestBuilder) (calls : List Observation)
      (completed : Bool)
      → create id started limit ≡ ok b
      → appends b calls ≡ ok b'
      → build b' completed ≡ ok (draft b' completed)
  build-appends id started limit b b' calls completed e e' =
      build_of_Recording b' completed
        (appends-Recording b b' calls (create-Recording id started limit b e) e')

  abbrev pub total_bytes : List Observation → ℕ
  total_bytes [] = 0
  total_bytes ((d, chunk, at_ns) ∷ rest) = length chunk + total_bytes rest

  abbrev pub recorded_bytes : List ChunkManifestEntry → ℕ
  recorded_bytes [] = 0
  recorded_bytes (e ∷ es) = e.byte_length + recorded_bytes es

  recorded_bytes-append :
      (xs ys : List ChunkManifestEntry)
      → recorded_bytes (xs ++ ys) ≡ recorded_bytes xs + recorded_bytes ys
  recorded_bytes-append [] ys = omega arith
  recorded_bytes-append (x ∷ xs) ys = omega (arith, recorded_bytes-append xs ys)

  record Counts (chunks size : ℕ) (b b' : ChunkManifestBuilder) : Type 0 where
    limit : b'.maximum_entries ≡ b.maximum_entries
    entries : length b'.entries ≡ min b.maximum_entries (length b.entries + chunks)
    all_chunks :
        length b'.entries + b'.dropped_entries ≡ length b.entries + b.dropped_entries + chunks
    all_bytes :
        recorded_bytes b'.entries + b'.dropped_bytes
        ≡ recorded_bytes b.entries + b.dropped_bytes + size

  append-Counts :
      (b b' : ChunkManifestBuilder) (d : Direction) (chunk : List ℕ) (at_ns : ℕ)
      {entry : Option ChunkManifestEntry}
      → length b.entries ≤ b.maximum_entries
      → append digest b d chunk at_ns ≡ ok (b', entry)
      → Counts 1 (length chunk) b b'
  unfolding append new_entry
  append-Counts b b' d chunk at_ns h e = ground (
    arith,
    length-append b.entries (new_entry digest b d chunk at_ns ∷ []),
    recorded_bytes-append b.entries (new_entry digest b d chunk at_ns ∷ []),
  )

  appends-Counts :
      (b b' : ChunkManifestBuilder) (calls : List Observation)
      → length b.entries ≤ b.maximum_entries
      → appends b calls ≡ ok b'
      → Counts (length calls) (total_bytes calls) b b'
  unfolding appends
  appends-Counts b b' [] h e = ground arith
  appends-Counts b b' ((d, chunk, at_ns) ∷ rest) h e =
      let (s, e', e'') = >>=-eq-ok (append digest b d chunk at_ns) (λ s. appends s.0 rest) e in
      let c = append-Counts b s.0 d chunk at_ns {entry = s.1} h e' in
      let c' = appends-Counts s.0 b' rest (omega (arith, c.limit, c.entries)) e'' in
      omega (
        arith, c.limit, c.entries, c.all_chunks, c.all_bytes, c'.limit, c'.entries, c'.all_chunks,
        c'.all_bytes,
      )

  -- After successful appends to a created builder the manifest has an entry for each chunk up to
  -- the entry limit, entries and dropped entries add up to the chunks, and recorded and dropped
  -- bytes add up to the bytes of the chunks.
  pub draft-appends :
      (id : Text) (started limit : ℕ) (b b' : ChunkManifestBuilder) (calls : List Observation)
      (completed : Bool)
      → create id started limit ≡ ok b
      → appends b calls ≡ ok b'
      → let m = draft b' completed in
        (length m.entries ≡ min limit (length calls))
        × (length m.entries + m.dropped_entry_count ≡ length calls)
        × (recorded_bytes m.entries + m.dropped_byte_count ≡ total_bytes calls)
  unfolding create draft
  draft-appends id started limit b b' calls completed e e' =
      let c : Counts (length calls) (total_bytes calls) b b' =
        appends-Counts b b' calls (ground arith) e' in
      ground arith

  -- Whether no observation lies before the one that precedes it, the first not before `last`.
  abbrev pub in_order : ℕ → List Observation → Bool
  in_order last [] = true
  in_order last ((d, chunk, at_ns) ∷ rest) = leb last at_ns && in_order at_ns rest

  append_late :
      (b : ChunkManifestBuilder) (d : Direction) (chunk : List ℕ) (at_ns : ℕ)
      → leb b.last_observed_ns at_ns ≡ false
      → append digest b d chunk at_ns ≡ err time_moved_backward
  unfolding append
  append_late b d chunk at_ns h = ground arith

  append_in_time :
      (b : ChunkManifestBuilder) (d : Direction) (chunk : List ℕ) (at_ns : ℕ)
      → leb b.last_observed_ns at_ns ≡ true
      → (s : ChunkManifestBuilder × Option ChunkManifestEntry) × (append digest b d chunk at_ns
          ≡ ok s)
        × (s.0.last_observed_ns ≡ at_ns)
  unfolding append
  append_in_time b d chunk at_ns h = elim (Bool-cases (leb b.maximum_entries (length b.entries))) [
    | inl full ↦ ((drop_chunk digest b chunk at_ns, none), ground arith, refl)
    | inr room ↦ (
      (record_chunk digest b d chunk at_ns, some (new_entry digest b d chunk at_ns)),
      ground arith,
      refl,
    )
  ]

  -- The appends to a builder all succeed exactly if no time goes back; otherwise they throw that it
  -- does.
  pub appends_cases :
      (b : ChunkManifestBuilder) (calls : List Observation)
      → (in_order b.last_observed_ns calls ≡ true
          → (b' : ChunkManifestBuilder) × (appends b calls ≡ ok b'))
        × (in_order b.last_observed_ns calls ≡ false → appends b calls ≡ err time_moved_backward)
  unfolding appends
  appends_cases b [] = (λ h. (b, refl), λ h. cc)
  appends_cases b ((d, chunk, at_ns) ∷ rest) = elim (Bool-cases (leb b.last_observed_ns at_ns)) [
    | inl fine ↦
        let (s, e, t) = append_in_time b d chunk at_ns fine in
        let ih = appends_cases s.0 rest in
        (λ h. let (b', e') = ih.0 (ground arith) in (b', rw e e'), λ h. rw e (ih.1 (ground arith)))
    | inr late ↦ (λ h. absurd (ground arith), λ h. rw (append_late b d chunk at_ns late) refl)
  ]
