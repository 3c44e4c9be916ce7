-- ===== src/Transfer/Start.antt =====
-- The beginning and the end of a copy in transfer.c: `start_copy`, `transfer_finished`,
-- `abort_transfer` and `start_next_file`.
use ipod_to_ipod.Base.{
  ℕ, Bool, true, false, not, Option, none, some, List, [], ◌∷◌, ◌++◌, Text, map, length, ltb, ◌==◌,
  if◌then◌else◌,
}
use ipod_to_ipod.Pod.{Ptr, Pod, mounted, transferring, set_db}
use ipod_to_ipod.Libipod.{Libipod}
use ipod_to_ipod.Transfer.{
  Outcome, ok, fault, ◌>>=◌, double_free, overflow, freed_ipod, filename_room, none_yet, allocated,
  freed, Buffer, no_transfer_buffer, cannot_stat, already_has_dst, no_dst, cannot_read,
  cannot_write, Message, Item, Io, Transfer,
}

-- `while((p=strpbrk(name,":"))!=NULL) *p='/';`
unfoldable pub slashes : Text → Text
slashes name = map (λ c. if c == b':' then b'/' else c) name

-- What `free(transfer_buffer)` leaves; the pointer is not reset.
unfoldable pub free_buffer : Buffer → Outcome Buffer
free_buffer none_yet = ok none_yet
free_buffer allocated = ok freed
free_buffer freed = fault double_free

module _ (lib : Libipod) where
  open lib use {Db, Track, track_add, set_text, flush, base_path}

  unfoldable pub complain : Message → Transfer lib → Transfer lib
  complain m s = record s { messages = m ∷ s.messages }

  -- `got_buffer` says whether `malloc` returned a buffer.
  unfoldable pub start_copy : Bool → Transfer lib → Transfer lib
  unfolding complain
  start_copy got_buffer s =
      if not got_buffer
      then complain no_transfer_buffer (record s { buffer = none_yet })
      else record s {
        buffer = allocated;
        dst_ipod_dirty = false;
        total_files_transferred = 0;
        total_bytes_transferred = 0;
        file_bytes_transferred = 0;
        passed = [];
        cur_file = s.passed ++ s.cur_file;
        pod = record (s.pod) { rip_status = transferring };
      }

  -- `fclose` of the file being written, if there is one.
  unfoldable pub close_dst : Option (Text × List ℕ) → List (Text × List ℕ) → List (Text × List ℕ)
  close_dst none written = written
  close_dst (some f) written = f ∷ written

  -- The dirty database is flushed; when it is the local one, mpd is told.
  unfoldable pub flush_dst : Bool → Ptr → Pod Db → Outcome (Pod Db)
  unfolding set_db
  flush_dst false dst pod = ok pod
  flush_dst true dst pod = elim (pod.dbs dst) [
    | none ↦ fault freed_ipod
    | some d ↦ ok (record pod {
      dbs = set_db pod.dbs dst (some (flush d));
      mpd_dirty = if dst == pod.local_ipod then true else pod.mpd_dirty;
    })
  ]

  unfoldable pub transfer_finished : Transfer lib → Outcome (Transfer lib)
  unfolding free_buffer close_dst flush_dst
  transfer_finished s = do
    buffer ← free_buffer s.buffer
    pod ← flush_dst s.dst_ipod_dirty s.dst_ipod s.pod
    ok (record s {
      buffer = buffer;
      src_file = none;
      written = close_dst s.dst_file s.written;
      dst_file = none;
      pod = record pod { rip_status = mounted };
      timer = false;
    })

  unfoldable pub abort_transfer : Transfer lib → Outcome (Transfer lib)
  unfolding transfer_finished
  abort_transfer s = transfer_finished s

  -- The new name of a track's file: `basePath` and the location, in a buffer of 256 bytes.
  unfoldable pub name_track : Io → Ptr → (Ptr → Option Db) → Item Track → Outcome (Item Track)
  unfolding slashes
  name_track io dst dbs item = elim (dbs dst) [
    | none ↦ fault freed_ipod
    | some d ↦
        if ltb (length (base_path d ++ io.location)) filename_room
        then ok (record item {
          dst_filename = some (slashes (base_path d ++ io.location));
          dst_location = some io.location;
        })
        else fault overflow
  ]

  -- The two calls of `fopen`.
  unfoldable pub open_files : Io → Text → Text → Transfer lib → Outcome (Transfer lib)
  unfolding abort_transfer complain
  open_files io src_filename dst_filename s = elim (io.source src_filename) [
    | none ↦ abort_transfer (complain cannot_read (record s { src_file = none }))
    | some bytes ↦
        if io.can_write dst_filename
        then ok (record s { src_file = some bytes; dst_file = some (dst_filename, []) })
        else abort_transfer (complain cannot_write (record s { src_file = none; dst_file = none }))
  ]

  -- From the name on: what `start_next_file` does once a track has its name.
  unfoldable pub start_named :
      Io → Item Track → List (Item Track) → Transfer lib → Outcome (Transfer lib)
  unfolding abort_transfer complain open_files
  start_named io item items s = elim item.dst_filename [
    | none ↦ abort_transfer (complain no_dst s)
    | some dst_filename ↦
        open_files io item.src_filename dst_filename (record s { cur_file = item ∷ items })
  ]

  -- The branch for a track; a plain file keeps the name that it was given.
  unfoldable pub start_item :
      Option Track → Io → Item Track → List (Item Track) → Transfer lib → Outcome (Transfer lib)
  unfolding abort_transfer complain name_track start_named
  start_item none io item items s = start_named io item items s
  start_item (some track) io item items s = elim item.dst_filename [
    | some name ↦ abort_transfer (complain already_has_dst s)
    | none ↦ name_track io s.dst_ipod s.pod.dbs item >>= λ item'. start_named io item' items s
  ]

  unfoldable pub start_next_file :
      Io → Item Track → List (Item Track) → Transfer lib → Outcome (Transfer lib)
  unfolding complain start_item
  start_next_file io item items s =
      if not (io.stat_ok item.src_filename)
      then ok (complain cannot_stat s)
      else start_item item.src_track io item items s
