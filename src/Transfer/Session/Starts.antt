-- ===== src/Transfer/Session/Starts.antt =====
-- The start of a file keeps the invariant of the transfer window, and frees nothing twice.
use ipod_to_ipod.Base.{
  ap, ◌∙◌, ℕ, ◌+◌, false, Option, none, some, List, [], ◌∷◌, ◌++◌, Text, length, ◌≡◌, refl, arith,
  not, ltb,
}
use ipod_to_ipod.Pod.{Ptr}
use ipod_to_ipod.Libipod.{Libipod}
use ipod_to_ipod.Transfer.{
  Item, Io, Transfer, filename_room, already_has_dst, no_dst, cannot_read, cannot_write,
  cannot_stat,
}
use ipod_to_ipod.Transfer.Outcomes.{Safe, safe, faulty, Post-bind, Post-if, Post-option}
use ipod_to_ipod.Transfer.Start.{open_files, start_named, start_item, name_track, start_next_file}
use ipod_to_ipod.Transfer.Run.{sizes}
use ipod_to_ipod.Transfer.Session.{IsSound, was_freed}
use ipod_to_ipod.Transfer.Session.Keeps.{complain-IsSound, AtWork, abort-AtWork, is_cons}

module _ (lib : Libipod) where
  open lib use {Db, Track}

  -- The streams may be opened and closed while the buffer is there.
  pub streams-AtWork :
      (src : Option (List ℕ)) (dst : Option (Text × List ℕ)) (s : Transfer lib)
      → was_freed s.buffer ≡ false
      → AtWork lib s
      → AtWork lib (record s { src_file = src; dst_file = dst })
  streams-AtWork src dst s there w = record {
    sound = record {
      files = w.sound.files;
      bytes = w.sound.bytes;
      busy = w.sound.busy;
      timed = w.sound.timed;
      closed = λ h. absurd (cc (h, there));
      files_done = w.sound.files_done;
      bytes_done = w.sound.bytes_done;
    };
    busy = w.busy;
  }

  open_files-Safe :
      (io : Io) (from to : Text) (s : Transfer lib)
      → was_freed s.buffer ≡ false
      → AtWork lib s
      → Safe (AtWork lib) (open_files lib io from to s)
  unfolding open_files
  open_files-Safe io from to s there w =
      Post-option (io.source from)
        (λ e.
          abort-AtWork lib cannot_read (record s { src_file = none }) there
            (streams-AtWork none s.dst_file s there w))
        (λ bytes e.
          Post-if (io.can_write to)
            (λ h. safe (streams-AtWork (some bytes) (some (to, [])) s there w))
            (λ h.
              abort-AtWork lib cannot_write (record s { src_file = none; dst_file = none }) there
                (streams-AtWork none none s there w)))

  -- The item at hand gets its name.
  renamed-AtWork :
      (item named : Item Track) (items : List (Item Track)) (s : Transfer lib)
      → s.cur_file ≡ item ∷ items
      → named.filesize ≡ item.filesize
      → IsSound lib s
      → AtWork lib (record s { cur_file = named ∷ items })
  unfolding sizes
  renamed-AtWork item named items s at_hand same i = record {
    sound = record {
      files = i.files ∙ ap (λ l. length s.passed + length l) at_hand;
      bytes = omega (arith, i.bytes, same, ap (λ l. sizes lib l) at_hand);
      busy = i.busy;
      timed = i.timed;
      closed = i.closed;
      files_done = i.files_done;
      bytes_done = i.bytes_done;
    };
    busy = refl;
  }

  start_named-Safe :
      (io : Io) (item named : Item Track) (items : List (Item Track)) (s : Transfer lib)
      → s.cur_file ≡ item ∷ items
      → named.filesize ≡ item.filesize
      → was_freed s.buffer ≡ false
      → IsSound lib s
      → Safe (AtWork lib) (start_named lib io named items s)
  unfolding start_named
  start_named-Safe io item named items s at_hand same there i =
      Post-option named.dst_filename
        (λ e. abort-AtWork lib no_dst s there (record { sound = i; busy = ap is_cons at_hand }))
        (λ to e.
          open_files-Safe io named.src_filename to (record s { cur_file = named ∷ items }) there
            (renamed-AtWork item named items s at_hand same i))

  name_track-Safe :
      (io : Io) (dst : Ptr) (dbs : Ptr → Option Db) (item : Item Track)
      → Safe (λ named. named.filesize ≡ item.filesize) (name_track lib io dst dbs item)
  unfolding name_track
  name_track-Safe io dst dbs item =
      Post-option (dbs dst) (λ e. faulty refl)
        (λ d e.
          Post-if (ltb (length (lib.base_path d ++ io.location)) filename_room) (λ h. safe refl)
            (λ h. faulty refl))

  start_item-Safe :
      (track : Option Track) (io : Io) (item : Item Track) (items : List (Item Track))
      (s : Transfer lib)
      → s.cur_file ≡ item ∷ items
      → was_freed s.buffer ≡ false
      → IsSound lib s
      → Safe (AtWork lib) (start_item lib track io item items s)
  unfolding start_item
  start_item-Safe none io item items s at_hand there i =
      start_named-Safe io item item items s at_hand refl there i
  start_item-Safe (some t) io item items s at_hand there i =
      Post-option item.dst_filename
        (λ e.
          Post-bind (name_track-Safe io s.dst_ipod s.pod.dbs item)
            (λ named same. start_named-Safe io item named items s at_hand same there i))
        (λ name e.
          abort-AtWork lib already_has_dst s there
            (record { sound = i; busy = ap is_cons at_hand }))

  pub start_next_file-Safe :
      (io : Io) (item : Item Track) (items : List (Item Track)) (s : Transfer lib)
      → s.cur_file ≡ item ∷ items
      → was_freed s.buffer ≡ false
      → IsSound lib s
      → Safe (AtWork lib) (start_next_file lib io item items s)
  unfolding start_next_file
  start_next_file-Safe io item items s at_hand there i =
      Post-if (not (io.stat_ok item.src_filename))
        (λ h.
          safe (record { sound = complain-IsSound lib cannot_stat s i; busy = ap is_cons at_hand }))
        (λ h. start_item-Safe item.src_track io item items s at_hand there i)
