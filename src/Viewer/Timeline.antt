-- ===== src/Viewer/Timeline.antt =====
-- `mergeTimelineEvents`. The order that the browser's collation gives two identifiers is a parameter.
use tekrion.Prelude.{Bool, ◌&&◌, ◌||◌, List, [], ◌∷◌, map, ltb, ◌==◌, if◌then◌else◌, Text}
use tekrion.Prelude.Maps.{StringMap, set}
use tekrion.Protocol.{TekrionEvent}

-- The loop over events that sets them in the map.
unfoldable pub set_all : List TekrionEvent → StringMap TekrionEvent → StringMap TekrionEvent
unfolding set
set_all [] by_id = by_id
set_all (e ∷ es) by_id = set_all es (set e.id e by_id)

abbrev pub map_values : StringMap TekrionEvent → List TekrionEvent
map_values by_id = map (λ entry. entry.1) by_id

module _ (collates_before : Text → Text → Bool) where
  unfoldable pub comes_before : TekrionEvent → TekrionEvent → Bool
  comes_before left right =
      ltb left.sequence right.sequence
      || left.sequence == right.sequence && collates_before left.id right.id

  unfoldable pub insert_sorted : TekrionEvent → List TekrionEvent → List TekrionEvent
  unfolding comes_before
  insert_sorted e [] = e ∷ []
  insert_sorted e (x ∷ xs) =
      let rest = insert_sorted e xs in if comes_before x e then x ∷ rest else e ∷ x ∷ xs

  -- The call of `sort`.
  unfoldable pub sorted : List TekrionEvent → List TekrionEvent
  unfolding insert_sorted
  sorted [] = []
  sorted (e ∷ es) = insert_sorted e (sorted es)

  unfoldable pub merge_timeline_events : (existing incoming : List TekrionEvent) → List TekrionEvent
  unfolding set_all sorted
  merge_timeline_events existing [] = existing
  merge_timeline_events existing (e ∷ es) =
      sorted (map_values (set_all (e ∷ es) (set_all existing [])))
