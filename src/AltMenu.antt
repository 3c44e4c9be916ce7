-- ===== src/AltMenu.antt =====
-- `transfer_alt_menu` of podtopod.c, the window over a list of selected tracks: what it counts and
-- which entries it has; and `local_transfer_alt_menu`, which other modules call for the local iPod.
pub mod Counts
pub mod Local
use ipod_to_ipod.Base.{
  ℕ, zero, suc, ◌+◌, ◌%◌, ◌^◌, Bool, true, false, Option, none, some, List, [], ◌∷◌, ◌++◌, Text,
  ◌==◌, if◌then◌else◌,
}
use ipod_to_ipod.Pod.{Ptr, null}
use ipod_to_ipod.Libipod.{Libipod}
use ipod_to_ipod.Link.{Heap, Handle, Run, out_of_fuel, Cmd, ◌>>=◌, pure, load, list_new}
use ipod_to_ipod.ListUtils.{Param, TrackList, param_list_add, track_search_id}
use ipod_to_ipod.Transfer.{Outcome, ulong}
use ipod_to_ipod.Transfer.Queue.{track_size_tag, find_track}

-- The entries of the menu: `transfer_menu_default` from 1 on.
pub data AltEntry : Type 0 where
  transfer enqueue remove : AltEntry

-- The window: `stat_data` and the entries, all on the one track list. `total_bytes` is the bit
-- pattern of the `int` in which the sizes are added.
pub record AltWindow : Type 0 where
  pub tracks : TrackList
  pub num_files : ℕ
  pub total_bytes : ℕ
  pub entries : List AltEntry

-- `transfer_menu_default + 1` if there is a remote iPod, `+ 2` if there is a queue, and `+ 3`.
unfoldable pub alt_entries : Ptr → Bool → List AltEntry
alt_entries remote_ipod has_queue =
    (if remote_ipod == null then [] else transfer ∷ [])
    ++ ((if has_queue then enqueue ∷ [] else []) ++ remove ∷ [])

module _ (lib : Libipod) where
  open lib use {Db, Track, get_attribute}

  -- The size of a track; libipod reads the track that it is given.
  unfoldable pub size_of : (Ptr → Option Db) → Ptr → ℕ → Option ℕ
  unfolding find_track
  size_of dbs src_ipod track_id = elim (find_track lib dbs src_ipod track_id) [
    | Outcome.fault e ↦ none
    | Outcome.ok none ↦ none
    | Outcome.ok (some (d, t)) ↦ some (get_attribute d t track_size_tag)
  ]

  -- `while (titem)`
  unfoldable pub count_tracks : ℕ → (Ptr → Option Db) → Ptr → Ptr → ℕ → ℕ → Cmd ℕ (ℕ × ℕ)
  count_tracks zero dbs src_ipod titem num_tracks size = λ _. out_of_fuel
  count_tracks (suc fuel) dbs src_ipod titem num_tracks size =
      if titem == null then pure (num_tracks, size) else (do
        n ← load titem
        elim (size_of dbs src_ipod n.item) [
          | none ↦ λ _. Run.fault
          | some s ↦ count_tracks fuel dbs src_ipod n.next (num_tracks + 1) (ulong (size + s))
        ])

  unfoldable pub transfer_alt_menu :
      ℕ
      → (Ptr → Option Db)
      → (remote_ipod : Ptr) → Option TrackList
      → (src_ipod : Ptr) → Bool
      → Cmd ℕ AltWindow
  transfer_alt_menu fuel dbs remote_ipod none src_ipod has_queue = λ _. Run.fault
  transfer_alt_menu fuel dbs remote_ipod (some tlist) src_ipod has_queue = do
    (num_tracks, size) ← count_tracks fuel dbs src_ipod tlist.list.head 0 0
    pure (record {
      tracks = tlist;
      num_files = num_tracks;
      total_bytes = size;
      entries = alt_entries remote_ipod has_queue;
    })

-- `if (artist) param_list_add(plist, IPOD_ARTIST, artist);`, and the like.
unfoldable pub add_if :
    (Heap Param → Ptr) → ℕ → Option Text → Option Handle → Cmd Param (Option Handle)
add_if malloc tag none plist h = Run.ok plist h
add_if malloc tag (some value) plist h = param_list_add (malloc h) plist tag value h

unfoldable pub local_params :
    (Heap Param → Ptr) → (artist album song : Option Text) → Cmd Param (Option Handle)
local_params malloc artist album song = do
  with_artist ← add_if malloc 4 artist (some list_new)
  with_album ← add_if malloc 3 album with_artist
  add_if malloc 1 song with_album

module _ (lib : Libipod) where
  -- The search and the window, once the parameters are built.
  unfoldable pub show_found :
      ℕ
      → (Heap ℕ → Ptr)
      → (Ptr → Option lib.Db)
      → (local_ipod remote_ipod : Ptr) → Bool
      → Run Param (Option Handle)
      → Cmd ℕ AltWindow
  show_found fuel malloc_id dbs local_ipod remote_ipod has_queue Run.fault = λ _. Run.fault
  show_found fuel malloc_id dbs local_ipod remote_ipod has_queue Run.out_of_fuel =
      λ _. Run.out_of_fuel
  show_found fuel malloc_id dbs local_ipod remote_ipod has_queue (Run.ok plist params) = do
    tlist ← track_search_id lib fuel malloc_id dbs local_ipod plist params
    transfer_alt_menu lib fuel dbs remote_ipod tlist local_ipod has_queue

  -- The parameters are built in one heap, the track list in another.
  unfoldable pub local_transfer_alt_menu :
      ℕ
      → (Heap Param → Ptr)
      → (Heap ℕ → Ptr)
      → (Ptr → Option lib.Db)
      → (local_ipod remote_ipod : Ptr) → (artist album song : Option Text) → Bool
      → Heap Param
      → Cmd ℕ AltWindow
  local_transfer_alt_menu fuel malloc_param malloc_id dbs local_ipod remote_ipod artist album song
        has_queue params =
      show_found fuel malloc_id dbs local_ipod remote_ipod has_queue
        (local_params malloc_param artist album song params)
