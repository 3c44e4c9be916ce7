-- ===== src/ListUtils/Tracks.antt =====
-- `track_search_id` of list_utils.c: the IDs of the matching tracks, in the order of the database.
use mathlib.Core.List.{map-append}
use ipod_to_ipod.Base.{
  ℕ, ◌<◌, Option, some, List, [], ◌∷◌, ◌++◌, map, ◌≡◌, refl, ◌∙◌, ◌≢◌, length, arith, ap,
}
use ipod_to_ipod.Pod.{Ptr, null}
use ipod_to_ipod.Libipod.{Libipod}
use ipod_to_ipod.Link.{Heap, Handle}
use ipod_to_ipod.Link.Chain.{Cells, IsList, nil}
use ipod_to_ipod.Link.Refines.{list_add-Builds, ne_null}
use ipod_to_ipod.ListUtils.{
  Param, TrackList, track_id_tag, track_list_add, track_list_new, add_id, track_search_id,
}
use ipod_to_ipod.ListUtils.Matches.{
  IsMalloc, items, IsParams, keep, matches, tracks_from, Ends, ends, Ends-bind, Builds-Ends,
  each_track-Ends,
}

-- A track list that holds the IDs, and belongs to the iPod.
pub record HoldsIds (ipod : Ptr) (ids : List ℕ) (l : Option TrackList) (h : Heap ℕ) : Type 0 where
  pub list : TrackList
  pub is_some : l ≡ some list
  pub cells : Cells ℕ
  pub is_list : IsList h list.list cells
  pub held : items cells ≡ ids
  pub of_ipod : list.ipod ≡ ipod

module _ (lib : Libipod) (malloc : Heap ℕ → Ptr) (allocates : IsMalloc malloc) where
  open lib use {Db, Track, track_count, get_attribute}

  add-cells :
      (ipod : Ptr) (ids : List ℕ) (id : ℕ) (list : TrackList) (xs : Cells ℕ) (h : Heap ℕ)
      → IsList h list.list xs
      → items xs ≡ ids
      → list.ipod ≡ ipod
      → Ends (HoldsIds ipod (ids ++ id ∷ [])) (track_list_add (malloc h) (some list) id h)
  unfolding track_list_add
  add-cells ipod ids id list xs h i e o =
      Ends-bind (Builds-Ends (list_add-Builds (malloc h) id i (allocates h).0 (allocates h).1))
        λ l g i'. ends (record {
          list = record { list = l; ipod = list.ipod };
          is_some = refl;
          cells = xs ++ (malloc h, id) ∷ [];
          is_list = i';
          held = map-append _ _ _ ∙ ap (λ t. t ++ id ∷ []) e;
          of_ipod = o;
        })

  act :
      (ipod : Ptr) (d : Db) (ts : List Track) (t : Track) (l : Option TrackList) (h : Heap ℕ)
      → length ts < track_count d
      → HoldsIds ipod (map (λ u. get_attribute d u track_id_tag) ts) l h
      → Ends
          (HoldsIds ipod (map (λ u. get_attribute d u track_id_tag) (ts ++ t ∷ [])))
          (add_id lib malloc d t l h)
  unfolding add_id
  act ipod d ts t l h b held =
      rw (held.is_some, map-append)
        (add-cells ipod _ (get_attribute d t track_id_tag) held.list held.cells h held.is_list
          held.held held.of_ipod)

  -- On an open iPod, with a parameter list in memory and fuel for it, `track_search_id` returns a
  -- list of that iPod which holds the IDs of just the tracks that match every parameter, in order.
  pub track_search_id-HoldsIds :
      (fuel : ℕ) (dbs : Ptr → Option Db) (ipod : Ptr) (d : Db) (param : Option Handle)
      (params : Heap Param) (ps : Cells Param) (h : Heap ℕ)
      → ipod ≢ null
      → dbs ipod ≡ some d
      → IsParams params param ps
      → length ps < fuel
      → Ends
          (HoldsIds ipod (
            map
              (λ t. get_attribute d t track_id_tag)
              (keep (matches lib d (items ps)) (tracks_from lib d (track_count d) 0))))
          (track_search_id lib fuel malloc dbs ipod param params h)
  unfolding track_search_id
  track_search_id-HoldsIds fuel dbs ipod d param params ps h ne open_db listed enough =
      rw (ne_null ipod ne, open_db)
        (each_track-Ends lib fuel d param params ps listed enough (add_id lib malloc d)
          (λ ts. HoldsIds ipod (map (λ t. get_attribute d t track_id_tag) ts)) (track_count d)
          (act ipod d) (track_count d) 0 [] (some (track_list_new ipod)) h (omega arith)
          (record {
            list = track_list_new ipod;
            is_some = refl;
            cells = [];
            is_list = record { chain = nil; last = tt };
            held = refl;
            of_ipod = refl;
          }))
