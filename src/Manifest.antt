-- ===== src/Manifest.antt =====
-- packages/storage/src/chunk-manifest.ts: the manifest of the chunks of an exchange in both
-- directions, the builder that records them, and the schema's own checks of a finished manifest.
-- Nanosecond times are natural numbers (`process.hrtime.bigint()` is not negative), written out in
-- decimal by the source and read back by `BigInt`, here numbers throughout. The digest of a chunk
-- is a parameter.
pub mod Builder
mod Tests
use tekrion.Prelude.{
  ℕ, suc, ◌+◌, ◌-◌, Bool, true, false, ◌&&◌, not, List, [], ◌∷◌, ◌++◌, Option, none, some, Result,
  ok, err, ◌>>=◌, ◌>>◌, throw_if, ltb, leb, ◌==◌, if◌then◌else◌, length, Text,
}

pub data Direction : Type 0 where
  request response : Direction

pub record ChunkManifestEntry : Type 0 where
  pub sequence : ℕ
  pub direction : Direction
  pub monotonic_offset_ns : ℕ
  pub byte_offset : ℕ
  pub byte_length : ℕ
  pub sha256 : Text

pub record ChunkManifest : Type 0 where
  pub exchange_id : Text
  pub started_monotonic_ns : ℕ
  pub completed : Bool
  pub truncated : Bool
  pub dropped_entry_count : ℕ
  pub dropped_byte_count : ℕ
  pub entries : List ChunkManifestEntry

pub record Offsets : Type 0 where
  pub of_request : ℕ
  pub of_response : ℕ

-- `offsets[direction]` and `offsets[direction] += n`.
abbrev pub offset_at : Direction → Offsets → ℕ
offset_at request o = o.of_request
offset_at response o = o.of_response

abbrev pub advance : Direction → ℕ → Offsets → Offsets
advance request n o = record o { of_request = o.of_request + n }
advance response n o = record o { of_response = o.of_response + n }

pub data ManifestIssue : Type 0 where
  truncation_disagrees complete_reports_dropped_bytes : ManifestIssue
  sequence_not_contiguous monotonic_decreases byte_offset_not_contiguous : ℕ → ManifestIssue

abbrev pub issue_if : Bool → ManifestIssue → List ManifestIssue
issue_if true issue = issue ∷ []
issue_if false issue = []

-- The loop of `superRefine`, from the index of the first entry. The previous time starts at -1,
-- below every time, so the first entry passes the test of times as it does at 0.
unfoldable pub entry_issues : ℕ → ℕ → Offsets → List ChunkManifestEntry → List ManifestIssue
entry_issues index previous offsets [] = []
entry_issues index previous offsets (entry ∷ entries) =
    issue_if (not (entry.sequence == index + 1)) (sequence_not_contiguous index)
    ++ issue_if (ltb entry.monotonic_offset_ns previous) (monotonic_decreases index)
    ++ issue_if (not (entry.byte_offset == offset_at entry.direction offsets))
        (byte_offset_not_contiguous index)
    ++ entry_issues (index + 1) entry.monotonic_offset_ns
        (advance entry.direction entry.byte_length offsets) entries

abbrev same : Bool → Bool → Bool
same true b = b
same false b = not b

-- `ChunkManifestSchema.superRefine`.
unfoldable pub manifest_issues : ChunkManifest → List ManifestIssue
unfolding entry_issues
manifest_issues m =
    issue_if (not (same m.truncated (ltb 0 m.dropped_entry_count))) truncation_disagrees
    ++ issue_if (not m.truncated && not (m.dropped_byte_count == 0)) complete_reports_dropped_bytes
    ++ entry_issues 0 0 (record { of_request = 0; of_response = 0 }) m.entries

pub record ChunkManifestBuilder : Type 0 where
  pub exchange_id : Text
  pub started_monotonic_ns : ℕ
  pub maximum_entries : ℕ
  pub entries : List ChunkManifestEntry
  pub offsets : Offsets
  pub last_observed_ns : ℕ
  pub dropped_entries : ℕ
  pub dropped_bytes : ℕ

pub data ManifestError : Type 0 where
  entry_limit_not_positive time_moved_backward : ManifestError
  invalid_manifest : List ManifestIssue → ManifestError

-- The constructor. The identifier has passed `IdentifierSchema`.
unfoldable pub create : Text → ℕ → ℕ → Result ManifestError ChunkManifestBuilder
create exchange_id started_monotonic_ns maximum_entries = do
  throw_if (ltb maximum_entries 1) entry_limit_not_positive
  ok (record {
    exchange_id = exchange_id;
    started_monotonic_ns = started_monotonic_ns;
    maximum_entries = maximum_entries;
    entries = [];
    offsets = record { of_request = 0; of_response = 0 };
    last_observed_ns = started_monotonic_ns;
    dropped_entries = 0;
    dropped_bytes = 0;
  })

unfoldable pub truncated : ChunkManifestBuilder → Bool
truncated b = ltb 0 b.dropped_entries

-- `createHash("sha256").update(chunk).digest("hex")`.
module _ (digest : List ℕ → Text) where
  -- The entry that `append` records.
  unfoldable pub new_entry : ChunkManifestBuilder → Direction → List ℕ → ℕ → ChunkManifestEntry
  new_entry b direction chunk observed_at_ns = record {
    sequence = length b.entries + 1;
    direction = direction;
    monotonic_offset_ns = observed_at_ns - b.started_monotonic_ns;
    byte_offset = offset_at direction b.offsets;
    byte_length = length chunk;
    sha256 = digest chunk;
  }

  -- The two ways in which `append` ends: the entry limit is reached, or there is an entry.
  abbrev pub drop_chunk : ChunkManifestBuilder → List ℕ → ℕ → ChunkManifestBuilder
  drop_chunk b chunk observed_at_ns = record b {
    dropped_entries = b.dropped_entries + 1;
    dropped_bytes = b.dropped_bytes + length chunk;
    last_observed_ns = observed_at_ns;
  }

  abbrev pub record_chunk : ChunkManifestBuilder → Direction → List ℕ → ℕ → ChunkManifestBuilder
  record_chunk b direction chunk observed_at_ns = record b {
    entries = b.entries ++ new_entry b direction chunk observed_at_ns ∷ [];
    offsets = advance direction (length chunk) b.offsets;
    last_observed_ns = observed_at_ns;
  }

  unfoldable pub append :
      ChunkManifestBuilder
      → Direction
      → List ℕ
      → ℕ
      → Result ManifestError (ChunkManifestBuilder × Option ChunkManifestEntry)
  append b direction chunk observed_at_ns = do
    throw_if (ltb observed_at_ns b.last_observed_ns) time_moved_backward
    if leb b.maximum_entries (length b.entries)
        then ok (drop_chunk b chunk observed_at_ns, none)
        else ok (
          record_chunk b direction chunk observed_at_ns,
          some (new_entry b direction chunk observed_at_ns),
        )

abbrev accept_if_clean : ChunkManifest → List ManifestIssue → Result ManifestError ChunkManifest
accept_if_clean m [] = ok m
accept_if_clean m (issue ∷ issues) = err (invalid_manifest (issue ∷ issues))

-- The manifest that `build` hands to the schema.
unfoldable pub draft : ChunkManifestBuilder → Bool → ChunkManifest
unfolding truncated
draft b completed = record {
  exchange_id = b.exchange_id;
  started_monotonic_ns = b.started_monotonic_ns;
  completed = completed;
  truncated = truncated b;
  dropped_entry_count = b.dropped_entries;
  dropped_byte_count = b.dropped_bytes;
  entries = b.entries;
}

unfoldable pub build : ChunkManifestBuilder → Bool → Result ManifestError ChunkManifest
build b completed = accept_if_clean (draft b completed) (manifest_issues (draft b completed))
