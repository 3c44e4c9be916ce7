-- ===== src/Transfer/Done/Starts.antt =====
-- The start of a tick in which anything may fail.
use ipod_to_ipod.Base.{ℕ, sym, Option, none, some, List, [], ◌∷◌, Text, ◌≡◌, refl, not}
use ipod_to_ipod.Libipod.{Libipod}
use ipod_to_ipod.Transfer.{
  Message, already_has_dst, no_dst, cannot_read, cannot_write, Item, Io, Transfer,
}
use ipod_to_ipod.Transfer.Outcomes.{any, Partly, safe, Post-bind, Post-weaken, Post-if, Post-option}
use ipod_to_ipod.Transfer.Start.{
  complain, abort_transfer, open_files, start_named, start_item, name_track, start_next_file,
}
use ipod_to_ipod.Transfer.Done.{
  AllDone, Shut, Honest, Started, unopened, copying, abort_transfer-Stopped,
}

module _ (lib : Libipod) (ios : ℕ → Io) where
  open lib use {Db, Track}

  abort_transfer-Started :
      (m : Message) (s : Transfer lib)
      → AllDone lib ios s
      → Partly (Honest lib ios (Started lib ios)) (abort_transfer lib (complain lib m s))
  abort_transfer-Started m s all =
      Post-weaken (abort_transfer-Stopped lib ios m s all)
        (λ t h. record { all = h.all; rest = unopened h.rest.src })

  module _ (k : ℕ) where
    open_files-Started :
        (item : Item Track) (items : List (Item Track)) (to : Text) (s : Transfer lib)
        → s.cur_file ≡ item ∷ items
        → item.dst_filename ≡ some to
        → s.file_bytes_transferred ≡ 0
        → AllDone lib ios s
        → Partly (Honest lib ios (Started lib ios)) (open_files lib (ios k) item.src_filename to s)
    unfolding open_files
    open_files-Started item items to s at_hand named z all =
        Post-option ((ios k).source item.src_filename)
          (λ e.
            abort_transfer-Started cannot_read (record s { src_file = none })
              (record { done = all.done }))
          (λ bytes found.
            Post-if ((ios k).can_write to)
              (λ h. safe (record {
                all = record { done = all.done };
                rest = copying (record {
                  item = item;
                  items = items;
                  unread = bytes;
                  f = (to, []);
                  at_hand = at_hand;
                  src = refl;
                  dst = refl;
                  begun = record { name = named; k = k; from_source = found };
                  counted = sym z;
                });
              }))
              (λ h.
                abort_transfer-Started cannot_write (record s { src_file = none; dst_file = none })
                  (record { done = all.done })))

    start_named-Started :
        (item : Item Track) (items : List (Item Track)) (s : Transfer lib)
        → AllDone lib ios s
        → s.file_bytes_transferred ≡ 0
        → Partly (Honest lib ios (Started lib ios)) (start_named lib (ios k) item items s)
    unfolding start_named
    start_named-Started item items s all z =
        Post-option item.dst_filename (λ e. abort_transfer-Started no_dst s all)
          (λ to named.
            open_files-Started item items to (record s { cur_file = item ∷ items }) refl named z
              (record { done = all.done }))

    start_item-Started :
        (track : Option Track) (item : Item Track) (items : List (Item Track)) (s : Transfer lib)
        → AllDone lib ios s
        → s.file_bytes_transferred ≡ 0
        → Partly (Honest lib ios (Started lib ios)) (start_item lib track (ios k) item items s)
    unfolding start_item
    start_item-Started none item items s all z = start_named-Started item items s all z
    start_item-Started (some t) item items s all z =
        Post-option item.dst_filename
          (λ e.
            Post-bind (any (name_track lib (ios k) s.dst_ipod s.pod.dbs item))
              (λ named u. start_named-Started named items s all z))
          (λ name e. abort_transfer-Started already_has_dst s all)

    pub start_next_file-Started :
        (item : Item Track) (items : List (Item Track)) (s : Transfer lib)
        → AllDone lib ios s
        → Shut lib ios s
        → Partly (Honest lib ios (Started lib ios)) (start_next_file lib (ios k) item items s)
    unfolding start_next_file complain
    start_next_file-Started item items s all sh =
        Post-if (not ((ios k).stat_ok item.src_filename))
          (λ h. safe (record { all = record { done = all.done }; rest = unopened sh.src }))
          (λ h. start_item-Started item.src_track item items s all sh.none_counted)
