-- ===== src/Manifest/Tests.antt =====
-- A manifest at concrete observations. The digest is the identity.
use tekrion.Prelude.{ℕ, ◌+◌, ◌≡◌, refl, true, false, List, [], ◌∷◌, ok, err, length, Text}
use tekrion.Manifest.{
  Direction, request, response, ChunkManifestBuilder, time_moved_backward, create, append,
  new_entry, draft, build,
}
use tekrion.Manifest.Builder.{
  appends, recorded_bytes, in_order, build-appends, draft-appends, appends_cases,
}

abbrev identity : List ℕ → Text
identity chunk = chunk

abbrev fresh : ChunkManifestBuilder
fresh = record {
  exchange_id = 1 ∷ [];
  started_monotonic_ns = 100;
  maximum_entries = 2;
  entries = [];
  offsets = record { of_request = 0; of_response = 0 };
  last_observed_ns = 100;
  dropped_entries = 0;
  dropped_bytes = 0;
}

abbrev observations : List (Direction × List ℕ × ℕ)
observations =
    (request, 7 ∷ 8 ∷ [], 100) ∷ (response, 9 ∷ [], 105) ∷ (request, 5 ∷ 6 ∷ [], 105) ∷ []

built : ChunkManifestBuilder
built = record fresh {
  entries =
      record {
        sequence = 1;
        direction = request;
        monotonic_offset_ns = 0;
        byte_offset = 0;
        byte_length = 2;
        sha256 = 7 ∷ 8 ∷ [];
      }
      ∷ record {
        sequence = 2;
        direction = response;
        monotonic_offset_ns = 5;
        byte_offset = 0;
        byte_length = 1;
        sha256 = 9 ∷ [];
      }
      ∷ [];
  offsets = record { of_request = 2; of_response = 1 };
  last_observed_ns = 105;
  dropped_entries = 1;
  dropped_bytes = 2;
}

ran : appends identity fresh observations ≡ ok built
unfolding appends append new_entry built
ran = refl

build-appends_example : build built true ≡ ok (draft built true)
unfolding create
build-appends_example = build-appends identity (1 ∷ []) 100 2 fresh built observations true refl ran

draft-appends_example :
    (length (draft built true).entries ≡ 2)
    × (length (draft built true).entries + (draft built true).dropped_entry_count ≡ 3)
    × (recorded_bytes identity (draft built true).entries + (draft built true).dropped_byte_count
        ≡ 5)
unfolding create
draft-appends_example = draft-appends identity (1 ∷ []) 100 2 fresh built observations true refl ran

appends_cases_example :
    (in_order identity 100 ((request, [], 99) ∷ []) ≡ true
      → (b' : ChunkManifestBuilder) × (appends identity fresh ((request, [], 99) ∷ []) ≡ ok b'))
    × (in_order identity 100 ((request, [], 99) ∷ []) ≡ false
        → appends identity fresh ((request, [], 99) ∷ []) ≡ err time_moved_backward)
appends_cases_example = appends_cases identity fresh ((request, [], 99) ∷ [])
