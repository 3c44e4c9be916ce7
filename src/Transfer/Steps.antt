-- ===== src/Transfer/Steps.antt =====
-- One tick of the transfer timer when nothing fails: the file is opened, a buffer is copied, and the
-- file is finished with its last buffer.
use ipod_to_ipod.Base.{
  ap, ◌∙◌, is_some, ◌^◌, if◌then◌else◌, ℕ, ◌+◌, ◌≤◌, ◌<◌, true, false, Option, none, some, List, [],
  ◌∷◌, ◌++◌, Text, length, take, drop, take_all, length-take, min, ◌≡◌, refl, arith, ◌==◌,
}
use ipod_to_ipod.Libipod.{Libipod}
use ipod_to_ipod.Transfer.{
  Outcome, ok, ◌>>=◌, ulong, buffer_size, filename_room, allocated, Item, Io, Transfer,
}
use ipod_to_ipod.Transfer.Attributes.{text_tags}
use ipod_to_ipod.Transfer.Attributes.Copied.{any_of}
use ipod_to_ipod.Transfer.Start.{slashes, start_next_file}
use ipod_to_ipod.Transfer.Copy.{
  start_if_unnamed, do_copy, finish_if_copied, finish_if_done, transfer_widget_timer_handler,
  write_bytes, copy_bytes, finish_file,
}

module _ (lib : Libipod) where
  open lib use {Db, Track, base_path}

  -- The rest of the handler behind `start_next_file`.
  abbrev pub advance : Io → Transfer lib → Outcome (Transfer lib)
  advance io s = do_copy lib io s >>= λ copied.
      finish_if_copied lib io copied.cur_file copied >>= λ finished.
      finish_if_done lib finished.cur_file finished

  pub handler-advance :
      (io : Io) (s : Transfer lib)
      → transfer_widget_timer_handler lib io s
        ≡ (start_if_unnamed lib io s.cur_file s >>= advance io)
  unfolding transfer_widget_timer_handler
  handler-advance io s = refl

  -- The outside of a copy in which nothing fails: every file that `disk` has is found and has the
  -- bytes of `disk`, every name can be written, reads and writes are whole, and no string is moved.
  -- That a name fits its buffer depends on the destination, and is asked for where a file is opened.
  pub record IsGood (disk : Text → Option (List ℕ)) (io : Io) : Type 0 where
    pub opens : (name : Text) → io.source name ≡ disk name
    pub stats : (name : Text) → io.stat_ok name ≡ true
    pub writes : (name : Text) → io.can_write name ≡ true
    pub reads : buffer_size ≤ io.readable
    pub accepts : buffer_size ≤ io.accepted
    pub still : any_of io.moves text_tags ≡ false

  -- The item with the name that it gets in the database `d`.
  abbrev pub named : Io → Db → Item Track → Item Track
  named io d item = record item {
    dst_filename = some (slashes (base_path d ++ io.location));
    dst_location = some io.location;
  }

  -- The state with that item at hand and its files open.
  abbrev pub opened :
      Io → Db → Item Track → List (Item Track) → List ℕ → Transfer lib → Transfer lib
  opened io d item items bytes s = record s {
    cur_file = named io d item ∷ items;
    src_file = some bytes;
    dst_file = some (slashes (base_path d ++ io.location), []);
  }

  pub start-opened :
      (disk : Text → Option (List ℕ)) (io : Io) (s : Transfer lib) (d : Db) (item : Item Track)
      (items : List (Item Track)) (bytes : List ℕ) (t : Track)
      → IsGood disk io
      → item.dst_filename ≡ none
      → item.src_track ≡ some t
      → disk item.src_filename ≡ some bytes
      → s.pod.dbs s.dst_ipod ≡ some d
      → length (base_path d ++ io.location) < filename_room
      → start_if_unnamed lib io (item ∷ items) s ≡ ok (opened io d item items bytes s)
  unfolding start_if_unnamed
  start-opened disk io s d item items bytes t good unnamed track found open_db room = ground (
    arith,
    good.stats item.src_filename,
    good.opens item.src_filename,
    room,
    good.writes (slashes (base_path d ++ io.location)),
  )

  -- The state after one whole buffer.
  abbrev pub copied : List ℕ → Text × List ℕ → Transfer lib → Transfer lib
  copied unread f s = record s {
    src_file = some (drop buffer_size unread);
    dst_file = some (f.0, f.1 ++ take buffer_size unread);
    file_bytes_transferred = ulong (s.file_bytes_transferred + length (take buffer_size unread));
    total_bytes_transferred = ulong (s.total_bytes_transferred + length (take buffer_size unread));
  }

  write-copied :
      (io : Io) (bytes unread : List ℕ) (f : Text × List ℕ) (s : Transfer lib)
      → length bytes ≤ io.accepted
      → write_bytes lib io bytes unread f s
        ≡ ok (record s {
          src_file = some unread;
          dst_file = some (f.0, f.1 ++ bytes);
          file_bytes_transferred = ulong (s.file_bytes_transferred + length bytes);
          total_bytes_transferred = ulong (s.total_bytes_transferred + length bytes);
        })
  unfolding write_bytes
  write-copied io bytes unread f s accepts =
      let whole : min io.accepted (length bytes) ≡ length bytes = omega arith in
      let same : (length bytes == length bytes) ≡ true = ground arith in
      rw (whole, take_all (length bytes) bytes (omega arith), same)

  copy_bytes-copied :
      (disk : Text → Option (List ℕ)) (io : Io) (s : Transfer lib) (unread : List ℕ)
      (f : Text × List ℕ)
      → IsGood disk io
      → 0 < length unread
      → copy_bytes lib io allocated (some unread) (some f) s ≡ ok (copied unread f s)
  unfolding copy_bytes
  copy_bytes-copied disk io s unread f good pos =
      let n : min io.readable buffer_size ≡ buffer_size = omega (arith, good.reads) in
      let some_read : (length (take buffer_size unread) == 0) ≡ false =
        ground (arith, length-take buffer_size unread) in
      rw (n, some_read)
        (write-copied io (take buffer_size unread) (drop buffer_size unread) f s
          (omega (arith, length-take buffer_size unread, good.accepts)))

  pub do_copy-copied :
      (disk : Text → Option (List ℕ)) (io : Io) (s : Transfer lib) (unread : List ℕ)
      (f : Text × List ℕ)
      → IsGood disk io
      → s.buffer ≡ allocated
      → s.src_file ≡ some unread
      → s.dst_file ≡ some f
      → 0 < length unread
      → do_copy lib io s ≡ ok (copied unread f s)
  unfolding do_copy
  do_copy-copied disk io s unread f good b u d pos =
      cc (copy_bytes-copied disk io s unread f good pos)

  -- A file that has its name is not started again.
  pub started :
      (io : Io) (s : Transfer lib) (item : Item Track) (items : List (Item Track))
      → is_some item.dst_filename ≡ true
      → s.cur_file ≡ item ∷ items
      → start_if_unnamed lib io s.cur_file s ≡ ok s
  unfolding start_if_unnamed
  started io s item items named at_hand =
      ap (λ l. start_if_unnamed lib io l s) at_hand
      ∙ ap (λ b. if b then ok s else start_next_file lib io item items s) named

  -- A tick on the last buffer of a file that is open and has its name.
  pub record IsLast (item : Item Track) (items : List (Item Track)) (unread : List ℕ)
      (f : Text × List ℕ) (s : Transfer lib) : Type 0 where
    pub at_hand : s.cur_file ≡ item ∷ items
    pub buffer : s.buffer ≡ allocated
    pub src : s.src_file ≡ some unread
    pub dst : s.dst_file ≡ some f
    pub not_done : 0 < length unread
    pub counted : s.file_bytes_transferred + length unread ≡ item.filesize
    pub small : item.filesize < 2 ^ 32
    pub last : length unread ≤ buffer_size

  ending : Transfer lib → Outcome (Transfer lib)
  ending t = finish_if_done lib t.cur_file t

  -- The buffer is copied and the file is finished.
  pub advance-IsLast :
      (disk : Text → Option (List ℕ)) (io : Io) (s : Transfer lib) (item : Item Track)
      (items : List (Item Track)) (unread : List ℕ) (f : Text × List ℕ)
      → IsGood disk io
      → IsLast item items unread f s
      → advance io s ≡ (
          finish_file lib io item items (copied unread f s) >>= λ t.
          finish_if_done lib t.cur_file t)
  unfolding finish_if_copied ending
  advance-IsLast disk io s item items unread f good c =
      let done : (item.filesize
            == ulong (s.file_bytes_transferred + length (take buffer_size unread)))
          ≡ true =
        ground (arith, length-take buffer_size unread, c.counted, c.small, c.last) in
      let state = copied unread f s in
      ap (λ m. m >>= λ t. finish_if_copied lib io t.cur_file t >>= ending)
        (do_copy-copied disk io s unread f good c.buffer c.src c.dst c.not_done)
      ∙ ap (λ l. finish_if_copied lib io l state >>= ending) c.at_hand
      ∙ ap (λ b. (if b then finish_file lib io item items state else ok state) >>= ending) done
