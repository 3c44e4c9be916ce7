-- ===== src/AltMenu/Local.antt =====
-- `local_transfer_alt_menu`: the local tracks of an artist, an album and a song, or of some of these.
use mathlib.Core.Path.{subst}
use mathlib.Core.List.{map-append, append-nil}
use ipod_to_ipod.Base.{
  ℕ, ◌<◌, false, Bool, Option, none, some, List, [], ◌∷◌, ◌++◌, map, Text, length, length-map, ◌≡◌,
  refl, ap, sym, ◌∙◌, ◌≢◌, arith, All, ◌==◌,
}
use ipod_to_ipod.Pod.{Ptr, null}
use ipod_to_ipod.Libipod.{Libipod}
use ipod_to_ipod.Link.{Heap, Handle, Run, ok, list_new}
use ipod_to_ipod.Link.Chain.{Cells, IsList, nil}
use ipod_to_ipod.Link.Refines.{list_add-Builds}
use ipod_to_ipod.ListUtils.{Param, param_list_add, track_id_tag}
use ipod_to_ipod.ListUtils.Matches.{
  IsMalloc, items, IsParams, keep, matches, tracks_from, Ends, ends, Ends-bind, Builds-Ends,
}
use ipod_to_ipod.ListUtils.Tracks.{HoldsIds, track_search_id-HoldsIds}
use ipod_to_ipod.AltMenu.{add_if, local_params, show_found, local_transfer_alt_menu}
use ipod_to_ipod.AltMenu.Counts.{Resolves, ShowsTracks, transfer_alt_menu-ShowsTracks}

-- The parameter for a value that is given.
abbrev pub given : ℕ → Option Text → List Param
given tag none = []
given tag (some value) = record { tag = tag; value = value } ∷ []

abbrev pub wanted : (artist album song : Option Text) → List Param
wanted artist album song = (given 4 artist ++ given 3 album) ++ given 1 song

-- A parameter list that holds the parameters.
pub record HoldsParams (ps : List Param) (plist : Option Handle) (h : Heap Param) : Type 0 where
  pub list : Handle
  pub is_some : plist ≡ some list
  pub cells : Cells Param
  pub is_list : IsList h list cells
  pub held : items cells ≡ ps

module _ (malloc : Heap Param → Ptr) (allocates : IsMalloc malloc) where
  add-HoldsParams :
      (tag : ℕ) (value : Text) (ps : List Param) {plist : Option Handle} (h : Heap Param)
      (held : HoldsParams ps plist h)
      → (tag == 0xffff_ffff) ≡ false
      → Ends
          (HoldsParams (ps ++ given tag (some value)))
          (param_list_add (malloc h) (some held.list) tag value h)
  unfolding param_list_add
  add-HoldsParams tag value ps h held e = rw e (
      Ends-bind
        (Builds-Ends (
          list_add-Builds (malloc h) (record { tag = tag; value = value }) held.is_list
            (allocates h).0 (allocates h).1))
        (λ l g is_list. ends (record {
          list = l;
          is_some = refl;
          cells = held.cells ++ (malloc h, record { tag = tag; value = value }) ∷ [];
          is_list = is_list;
          held =
              map-append _ _ _
              ∙ ap (λ qs. qs ++ record { tag = tag; value = value } ∷ []) held.held;
        })))

  add_if-HoldsParams :
      (tag : ℕ) (value : Option Text) (ps : List Param) (plist : Option Handle) (h : Heap Param)
      → (tag == 0xffff_ffff) ≡ false
      → HoldsParams ps plist h
      → Ends (HoldsParams (ps ++ given tag value)) (add_if malloc tag value plist h)
  unfolding add_if
  add_if-HoldsParams tag none ps plist h e held =
      ends (subst (λ qs. HoldsParams qs plist h) (sym (append-nil ps)) held)
  add_if-HoldsParams tag (some value) ps plist h e held =
      rw held.is_some (add-HoldsParams tag value ps h held e)

  local_params-HoldsParams :
      (artist album song : Option Text) (h : Heap Param)
      → Ends (HoldsParams (wanted artist album song)) (local_params malloc artist album song h)
  unfolding local_params list_new
  local_params-HoldsParams artist album song h =
      Ends-bind
        (add_if-HoldsParams 4 artist [] (some list_new) h refl (record {
          list = list_new;
          is_some = refl;
          cells = [];
          is_list = record { chain = nil; last = tt };
          held = refl;
        }))
        (λ plist h' held.
          Ends-bind (add_if-HoldsParams 3 album (given 4 artist) plist h' refl held)
            (λ plist' h'' held'.
              add_if-HoldsParams 1 song (given 4 artist ++ given 3 album) plist' h'' refl held'))

Ends-run :
    {A L : Type 0} {P : L → Heap A → Type 0} (r : Run A L)
    → Ends P r
    → (l : L) × (h : Heap A) × (r ≡ ok l h) × P l h
Ends-run _ (ends {l} {h} p) = (l, h, refl, p)

module _ (lib : Libipod) (malloc_param : Heap Param → Ptr) (malloc_id : Heap ℕ → Ptr)
    (params_new : IsMalloc malloc_param) (ids_new : IsMalloc malloc_id) (dbs : Ptr → Option lib.Db)
    (local_ipod : Ptr) (d : lib.Db) (ne : local_ipod ≢ null)
    (open_db : dbs local_ipod ≡ some d) where
  open lib use {Db, Track, track_count}

  -- The local tracks that have each of the values that are given.
  abbrev pub local_tracks : (artist album song : Option Text) → List Track
  local_tracks artist album song =
      keep (matches lib d (wanted artist album song)) (tracks_from lib d (track_count d) 0)

  show_found-ShowsTracks :
      (fuel : ℕ) (remote_ipod : Ptr) (artist album song : Option Text) (has_queue : Bool)
      (plist : Option Handle) (params : Heap Param) (h : Heap ℕ)
      → HoldsParams (wanted artist album song) plist params
      → length (wanted artist album song) < fuel
      → length (local_tracks artist album song) < fuel
      → All (Resolves lib d) (local_tracks artist album song)
      → Ends
          (ShowsTracks lib d local_ipod remote_ipod has_queue (local_tracks artist album song))
          (show_found lib fuel malloc_id dbs local_ipod remote_ipod has_queue (ok plist params) h)
  unfolding show_found
  show_found-ShowsTracks fuel remote_ipod artist album song has_queue plist params h holds few
        enough all =
      let short : length holds.cells < fuel =
        omega (arith, length-map holds.cells (λ c. c.1), ap (λ l. length l) holds.held) in
      Ends-bind
        (track_search_id-HoldsIds lib malloc_id ids_new fuel dbs local_ipod d plist params
          holds.cells h ne open_db
          (subst (λ o. IsParams params o holds.cells) (sym holds.is_some) holds.is_list) short)
        (λ tlist h' held.
          let (w, eq, shows) =
            transfer_alt_menu-ShowsTracks lib dbs local_ipod d ne open_db fuel remote_ipod has_queue
              (local_tracks artist album song) tlist h'
              (subst
                (λ ps.
                  HoldsIds local_ipod
                    (map (λ t. lib.get_attribute d t track_id_tag)
                      (keep (matches lib d ps) (tracks_from lib d (track_count d) 0)))
                    tlist h')
                holds.held held)
              enough all in
          rw eq (ends shows))

  -- On an open local iPod whose tracks are found again by their IDs, with fuel for them and for the
  -- parameters, `local_transfer_alt_menu` ends in a window over just the local tracks that have the
  -- artist, the album and the title that are given, in the database's order: it holds their IDs, counts
  -- them, adds up their sizes modulo 2^32, and has the entries that fit.
  pub local_transfer_alt_menu-ShowsTracks :
      (fuel : ℕ) (remote_ipod : Ptr) (artist album song : Option Text) (has_queue : Bool)
      (params : Heap Param) (h : Heap ℕ)
      → length (wanted artist album song) < fuel
      → length (local_tracks artist album song) < fuel
      → All (Resolves lib d) (local_tracks artist album song)
      → Ends (ShowsTracks lib d local_ipod remote_ipod has_queue (local_tracks artist album song)) (
          local_transfer_alt_menu lib fuel malloc_param malloc_id dbs local_ipod remote_ipod artist
            album song has_queue params h)
  unfolding local_transfer_alt_menu
  local_transfer_alt_menu-ShowsTracks fuel remote_ipod artist album song has_queue params h few
        enough all =
      let (plist, params', eq, holds) =
        Ends-run (local_params malloc_param artist album song params)
          (local_params-HoldsParams malloc_param params_new artist album song params) in
      subst
        (λ r.
          Ends (ShowsTracks lib d local_ipod remote_ipod has_queue (local_tracks artist album song))
            (show_found lib fuel malloc_id dbs local_ipod remote_ipod has_queue r h))
        (sym eq)
        (show_found-ShowsTracks fuel remote_ipod artist album song has_queue plist params' h holds
          few enough all)
