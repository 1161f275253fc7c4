-- ===== src/Viewer/Tests.antt =====
-- The merged timeline at a concrete input.
use tekrion.Prelude.{◌≡◌, [], ◌∷◌, find}
use tekrion.Storage.Tests.{event, byte_order}
use tekrion.Viewer.Timeline.{merge_timeline_events}
use tekrion.Viewer.Merge.{has_id, newest, or_newest, IsDistinct, merge_timeline_events-newest}

merge_timeline_events-newest_example :
    IsDistinct (
      merge_timeline_events byte_order
        (event (1 ∷ []) 2 ∷ [])
        (event (2 ∷ []) 1 ∷ event (1 ∷ []) 3 ∷ []))
    × (find (has_id (1 ∷ [])) (
          merge_timeline_events byte_order
            (event (1 ∷ []) 2 ∷ [])
            (event (2 ∷ []) 1 ∷ event (1 ∷ []) 3 ∷ []))
        ≡ or_newest
            (newest (1 ∷ []) (event (2 ∷ []) 1 ∷ event (1 ∷ []) 3 ∷ []))
            (newest (1 ∷ []) (event (1 ∷ []) 2 ∷ [])))
merge_timeline_events-newest_example =
    merge_timeline_events-newest byte_order (event (1 ∷ []) 2 ∷ []) (event (1 ∷ []) 3 ∷ [])
      (event (2 ∷ []) 1) (1 ∷ [])
