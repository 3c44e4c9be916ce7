-- ===== src/Transfer/Queue.antt =====
-- `transfer_list_reset`, `transfer_list_add_file` and `transfer_list_add_track` of transfer.c.
use ipod_to_ipod.Base.{ℕ, ◌+◌, Option, none, some, List, [], ◌∷◌, ◌++◌, Text, ◌==◌, if◌then◌else◌}
use ipod_to_ipod.Pod.{Ptr, null}
use ipod_to_ipod.Libipod.{Libipod}
use ipod_to_ipod.Transfer.{Outcome, ok, fault, freed_ipod, ulong, Item, Transfer, no_source_track}

-- IPOD_FULL_PATH and IPOD_TRACK_SIZE
abbrev pub full_path_tag : ℕ
full_path_tag = 3000

abbrev pub track_size_tag : ℕ
track_size_tag = 2007

-- The loop of `transfer_list_reset`: the tracks given to `ipod_track_free`, newest first.
unfoldable pub free_items : {Track : Type 0} → List (Item Track) → List Track → List Track
free_items [] freed = freed
free_items (i ∷ items) freed =
    free_items items (elim i.src_track [ none ↦ freed | some t ↦ t ∷ freed ])

module _ (lib : Libipod) where
  open lib use {Db, Track, get_by_track_id, get_text, get_attribute}

  unfoldable pub transfer_list_reset : Ptr → Ptr → Transfer lib → Transfer lib
  unfolding free_items
  transfer_list_reset src_ipod dst_ipod s = record s {
    freed_tracks = free_items (s.passed ++ s.cur_file) s.freed_tracks;
    total_bytes = 0;
    total_files = 0;
    passed = [];
    cur_file = [];
    src_ipod = src_ipod;
    dst_ipod = dst_ipod;
  }

  -- The item at the end of the list; `cur_file` stays where it is.
  unfoldable pub link_last : List (Item Track) → Item Track → Transfer lib → Transfer lib
  link_last [] item s = record s { passed = s.passed ++ item ∷ [] }
  link_last (i ∷ items) item s = record s { cur_file = (i ∷ items) ++ item ∷ [] }

  -- The end that `transfer_list_add_file` and `transfer_list_add_track` share.
  unfoldable pub add_item : Item Track → Transfer lib → Transfer lib
  unfolding link_last
  add_item item s = link_last s.cur_file item (record s {
    total_files = s.total_files + 1;
    total_bytes = ulong (s.total_bytes + item.filesize);
  })

  -- `int size` becomes an `unsigned long`.
  unfoldable pub transfer_list_add_file : Text → Option Text → ℕ → Transfer lib → Transfer lib
  unfolding add_item
  transfer_list_add_file src_filename dst_filename size s =
      add_item
        (record {
          src_filename = src_filename;
          dst_filename = dst_filename;
          filesize = ulong size;
          src_track = none;
          dst_location = none;
        })
        s

  -- `trans_list_src_ipod` as libipod sees it: no track of `NULL`, undefined once it is freed.
  unfoldable pub find_track : (Ptr → Option Db) → Ptr → ℕ → Outcome (Option (Db × Track))
  find_track dbs ipod track_id = if ipod == null then ok none else elim (dbs ipod) [
    | none ↦ fault freed_ipod
    | some d ↦ elim (get_by_track_id d track_id) [ none ↦ ok none | some t ↦ ok (some (d, t)) ]
  ]

  unfoldable pub track_item : Db → Track → Item Track
  track_item d track = record {
    src_filename = get_text d track full_path_tag;
    dst_filename = none;
    filesize = get_attribute d track track_size_tag;
    src_track = some track;
    dst_location = none;
  }

  unfoldable pub transfer_list_add_track : ℕ → Transfer lib → Outcome (Transfer lib)
  unfolding find_track track_item add_item
  transfer_list_add_track track_id s = elim (find_track s.pod.dbs s.src_ipod track_id) [
    | fault e ↦ fault e
    | ok none ↦ ok (record s { messages = no_source_track ∷ s.messages })
    | ok (some (d, track)) ↦ ok (add_item (track_item d track) s)
  ]
