-- ===== src/Tests/ListTests.antt =====
-- The lists and the searches at small heaps.
use ipod_to_ipod.Base.{text_eq, Option, some, [], ◌∷◌, ◌++◌, map, Text, ◌≡◌, refl, arith, true}
use ipod_to_ipod.Pod.{null}
use ipod_to_ipod.Link.{Heap, Handle, ok, at, list_add, list_pop}
use ipod_to_ipod.Link.Chain.{Cells, nil, cons, IsList, holds}
use ipod_to_ipod.Link.Refines.{Builds, Pops, list_add-Builds, list_pop-Pops}
use ipod_to_ipod.ListUtils.{
  Param, track_id_tag, param_list_test_track, track_search_id, string_list_track_search,
}
use ipod_to_ipod.ListUtils.Matches.{
  items, IsParams, keep, matches, tracks_from, Ends, param_list_test_track-matches,
}
use ipod_to_ipod.ListUtils.Tracks.{HoldsIds, track_search_id-HoldsIds}
use ipod_to_ipod.ListUtils.Strings.{HoldsTexts, string_list_track_search-HoldsTexts}
use ipod_to_ipod.Sample.{table, two_tracks, next_address, next_address-IsMalloc, initial}

-- A list of one string, at address 1.
abbrev one_heap : Heap Text
one_heap = (1, some (record { item = b'x' ∷ []; next = null })) ∷ []

abbrev one_list : Handle
one_list = record { head = 1; tail = some 1 }

abbrev one_cell : Cells Text
one_cell = (1, b'x' ∷ []) ∷ []

one-IsList : IsList one_heap one_list one_cell
unfolding at holds
one-IsList = record { chain = cons (omega arith) refl refl nil; last = refl }

list_add-Builds_example :
    Builds one_heap (one_cell ++ (2, b'y' ∷ []) ∷ []) (list_add 2 one_list (b'y' ∷ []) one_heap)
unfolding at
list_add-Builds_example = list_add-Builds 2 (b'y' ∷ []) one-IsList (omega arith) refl

list_pop-Pops_example : Pops one_heap (b'x' ∷ []) 1 [] (list_pop one_list one_heap)
list_pop-Pops_example = list_pop-Pops one-IsList

-- The parameters: the artist "x" and the title "b".
abbrev params : Heap Param
params =
    (2, some (record { item = record { tag = 1; value = b'b' ∷ [] }; next = null }))
    ∷ (1, some (record { item = record { tag = 4; value = b'x' ∷ [] }; next = 2 }))
    ∷ []

abbrev param : Option Handle
param = some (record { head = 1; tail = some 2 })

abbrev param_cells : Cells Param
param_cells =
    (1, record { tag = 4; value = b'x' ∷ [] }) ∷ (2, record { tag = 1; value = b'b' ∷ [] }) ∷ []

params-IsParams : IsParams params param param_cells
unfolding at holds
params-IsParams = record {
  chain = cons (omega arith) refl refl (cons (omega arith) refl refl nil);
  last = refl;
}

param_list_test_track-matches_example :
    param_list_test_track table 3 two_tracks (some 1) param params
    ≡ ok (matches table two_tracks (items param_cells) 1) params
param_list_test_track-matches_example =
    param_list_test_track-matches table 3 two_tracks 1 params param param_cells params-IsParams
      (omega arith)

second_matches : matches table two_tracks (items param_cells) 1 ≡ true
unfolding matches text_eq
second_matches = refl

track_search_id-HoldsIds_example :
    Ends
      (HoldsIds 1 (
        map
          (λ t. two_tracks.numbers t track_id_tag)
          (keep (matches table two_tracks (items param_cells)) (tracks_from table two_tracks 2 0))))
      (track_search_id table 3 next_address initial.dbs 1 param params [])
track_search_id-HoldsIds_example =
    track_search_id-HoldsIds table next_address next_address-IsMalloc 3 initial.dbs 1 two_tracks
      param params param_cells [] (omega arith) refl params-IsParams (omega arith)

string_list_track_search-HoldsTexts_example :
    Ends
      (HoldsTexts (
        map
          (λ t. two_tracks.texts t 4)
          (keep (matches table two_tracks (items param_cells)) (tracks_from table two_tracks 2 0))))
      (string_list_track_search table 3 next_address initial.dbs 1 4 param params [])
string_list_track_search-HoldsTexts_example =
    string_list_track_search-HoldsTexts table next_address next_address-IsMalloc 3 initial.dbs 1
      two_tracks 4 param params param_cells [] (omega arith) refl params-IsParams (omega arith)
      (omega arith)
