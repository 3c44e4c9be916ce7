-- ===== src/Transfer/Copy.antt =====
-- The copy itself in transfer.c: `do_copy`, `finish_file` and the timer handler of the widget.
use ipod_to_ipod.Base.{
  ℕ, ◌+◌, true, Option, none, some, List, [], ◌∷◌, ◌++◌, Text, length, take, drop, min, is_some,
  ◌==◌, if◌then◌else◌,
}
use ipod_to_ipod.Pod.{Ptr, Pod, set_db}
use ipod_to_ipod.Libipod.{Libipod}
use ipod_to_ipod.Transfer.{
  Outcome, ok, fault, ◌>>=◌, no_current_file, no_stream, bad_buffer, freed_ipod, ulong, buffer_size,
  allocated, Buffer, zero_bytes_read, short_write, Item, Io, Transfer,
}
use ipod_to_ipod.Transfer.Attributes.{copy_track_attributes}
use ipod_to_ipod.Transfer.Start.{complain, abort_transfer, transfer_finished, start_next_file}

-- IPOD_LOCATION
abbrev pub location_tag : ℕ
location_tag = 2

-- `dst_location`, which is set where it is read.
unfoldable pub text_or_empty : Option Text → Text
text_or_empty none = []
text_or_empty (some t) = t

module _ (lib : Libipod) where
  open lib use {Db, Track, track_add, set_text}

  -- `fwrite` of the bytes read, and the counts.
  unfoldable pub write_bytes :
      Io → List ℕ → List ℕ → Text × List ℕ → Transfer lib → Outcome (Transfer lib)
  unfolding abort_transfer complain
  write_bytes io bytes unread (name, sofar) s =
      let n = min io.accepted (length bytes) in
      let s' = record s { src_file = some unread; dst_file = some (name, sofar ++ take n bytes) } in
      if n == length bytes
      then ok (record s' {
        file_bytes_transferred = ulong (s.file_bytes_transferred + n);
        total_bytes_transferred = ulong (s.total_bytes_transferred + n);
      })
      else abort_transfer lib (complain lib short_write s')

  -- `fread`: at most a buffer full, and at most what the outside hands over.
  unfoldable pub copy_bytes :
      Io → Buffer → Option (List ℕ) → Option (Text × List ℕ) → Transfer lib → Outcome (Transfer lib)
  unfolding abort_transfer complain write_bytes
  copy_bytes io allocated (some unread) dst s =
      let n = min io.readable buffer_size in
      if length (take n unread) == 0
      then abort_transfer lib (complain lib zero_bytes_read s)
      else elim dst [
        | none ↦ fault no_stream
        | some f ↦ write_bytes io (take n unread) (drop n unread) f s
      ]
  copy_bytes io allocated none dst s = fault no_stream
  copy_bytes io _ src dst s = fault bad_buffer

  unfoldable pub do_copy : Io → Transfer lib → Outcome (Transfer lib)
  unfolding copy_bytes
  do_copy io s = copy_bytes io s.buffer s.src_file s.dst_file s

  -- The new track in the destination's database, with the attributes and the location of the copy.
  unfoldable pub add_copy : Io → Db → Track → Text → Db → Outcome Db
  add_copy io src track location dst =
      let (dst', dst_track) = track_add dst in
      copy_track_attributes lib io.moves src track dst_track dst' >>= λ d.
      ok (set_text d dst_track location_tag location)

  -- The branch of `finish_file` for a track: the destination gets it, and becomes dirty.
  unfoldable pub finish_track : Io → Ptr → Ptr → Option Track → Text → Pod Db → Outcome (Pod Db)
  finish_track io src dst none location pod = ok pod
  finish_track io src dst (some track) location pod = elim (pod.dbs src) [
    | none ↦ fault freed_ipod
    | some s ↦ elim (pod.dbs dst) [
      | none ↦ fault freed_ipod
      | some d ↦ add_copy io s track location d >>= λ d'.
          ok (record pod { dbs = set_db pod.dbs dst (some d') })
    ]
  ]

  -- `fclose(srcFile); fclose(dstFile);`, which must both be open; their results are ignored.
  unfoldable pub close_files :
      Option (List ℕ) → Option (Text × List ℕ) → Transfer lib → Outcome (Transfer lib)
  close_files none dst s = fault no_stream
  close_files (some unread) none s = fault no_stream
  close_files (some unread) (some f) s =
      ok (record s { src_file = none; dst_file = none; written = f ∷ s.written })

  unfoldable pub finish_file :
      Io → Item Track → List (Item Track) → Transfer lib → Outcome (Transfer lib)
  unfolding close_files
  finish_file io item items s = do
    pod ←
        finish_track io s.src_ipod s.dst_ipod item.src_track (text_or_empty item.dst_location) s.pod
    s' ← close_files s.src_file s.dst_file (record s {
      pod = pod;
      dst_ipod_dirty = if is_some item.src_track then true else s.dst_ipod_dirty;
      total_files_transferred = s.total_files_transferred + 1;
    })
    ok (record s' { passed = s.passed ++ item ∷ []; cur_file = items; file_bytes_transferred = 0 })

  -- `if (!cur_file) transfer_finished();`
  unfoldable pub finish_if_done : List (Item Track) → Transfer lib → Outcome (Transfer lib)
  unfolding transfer_finished
  finish_if_done [] s = transfer_finished lib s
  finish_if_done (item ∷ items) s = ok s

  -- The end of the timer handler: `cur_file` is read again, since a start may have named it.
  unfoldable pub finish_if_copied : Io → List (Item Track) → Transfer lib → Outcome (Transfer lib)
  unfolding finish_file
  finish_if_copied io [] s = fault no_current_file
  finish_if_copied io (item ∷ items) s =
      if item.filesize == s.file_bytes_transferred then finish_file io item items s else ok s

  -- `if (!cur_file->dst_filename) start_next_file();`
  unfoldable pub start_if_unnamed : Io → List (Item Track) → Transfer lib → Outcome (Transfer lib)
  unfolding start_next_file
  start_if_unnamed io [] s = fault no_current_file
  start_if_unnamed io (item ∷ items) s =
      if is_some item.dst_filename then ok s else start_next_file lib io item items s

  unfoldable pub transfer_widget_timer_handler : Io → Transfer lib → Outcome (Transfer lib)
  unfolding start_if_unnamed do_copy finish_if_copied finish_if_done
  transfer_widget_timer_handler io s = do
    started ← start_if_unnamed io s.cur_file s
    copied ← do_copy io started
    finished ← finish_if_copied io copied.cur_file copied
    finish_if_done finished.cur_file finished
