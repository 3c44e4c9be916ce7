-- ===== src/Transfer/Aborts.antt =====
-- The copies that end early: a write that is cut short, and a file with no bytes.
use ipod_to_ipod.Base.{
  ℕ, true, false, Option, none, some, List, [], ◌∷◌, ◌++◌, Text, length, take, length-take, ◌≡◌,
  refl, ap, ◌∙◌, arith, is_some, ◌==◌, if◌then◌else◌, min, ◌<◌, ◌≤◌,
}
use ipod_to_ipod.Pod.{mounted}
use ipod_to_ipod.Libipod.{Libipod}
use ipod_to_ipod.Transfer.{
  Message, Outcome, ok, fault, ◌>>=◌, no_stream, allocated, freed, buffer_size, zero_bytes_read,
  short_write, Item, Io, Transfer,
}
use ipod_to_ipod.Transfer.Start.{
  start_next_file, transfer_finished, abort_transfer, complain, free_buffer, flush_dst,
}
use ipod_to_ipod.Transfer.Copy.{
  transfer_widget_timer_handler, start_if_unnamed, do_copy, copy_bytes, write_bytes,
  finish_if_copied, finish_if_done, finish_file, close_files, finish_track, text_or_empty,
}
use ipod_to_ipod.Transfer.Steps.{advance, handler-advance}
use ipod_to_ipod.Transfer.Closed.{Faults}

Faults->>= :
    {A B C : Type 0} (m : Outcome A) (g : A → Outcome B) (f : B → Outcome C)
    → ((a : A) → Faults (g a >>= f))
    → Faults ((m >>= g) >>= f)
Faults->>= (ok a) g f faults = faults a
Faults->>= (fault e) g f faults = (e, refl)

Faults-bind :
    {A B : Type 0} (m : Outcome A) (g : A → Outcome B) → ((a : A) → Faults (g a)) → Faults (m >>= g)
Faults-bind (ok a) g faults = faults a
Faults-bind (fault e) g faults = (e, refl)

module _ (lib : Libipod) where
  open lib use {Db, Track}

  -- The state that an abort of a copy under way leaves; nothing was copied before.
  abbrev pub aborted : Message → Text × List ℕ → Transfer lib → Transfer lib
  aborted m f s = record s {
    buffer = freed;
    src_file = none;
    dst_file = none;
    written = f ∷ s.written;
    pod = record (s.pod) { rip_status = mounted };
    timer = false;
    messages = m ∷ s.messages;
  }

  -- A copy under way goes straight on to `advance`.
  handler-named :
      (io : Io) (s : Transfer lib) (item : Item Track) (items : List (Item Track))
      → s.cur_file ≡ item ∷ items
      → is_some item.dst_filename ≡ true
      → transfer_widget_timer_handler lib io s ≡ advance lib io s
  unfolding start_if_unnamed
  handler-named io s item items at_hand has_name =
      handler-advance lib io s
      ∙ ap (λ l. start_if_unnamed lib io l s >>= advance lib io) at_hand
      ∙ ap (λ b. (if b then ok s else start_next_file lib io item items s) >>= advance lib io)
          has_name

  ending : Transfer lib → Outcome (Transfer lib)
  ending t = finish_if_done lib t.cur_file t

  do_copy-short :
      (io : Io) (s : Transfer lib) (unread : List ℕ) (f : Text × List ℕ)
      → s.buffer ≡ allocated
      → s.src_file ≡ some unread
      → s.dst_file ≡ some f
      → buffer_size ≤ io.readable
      → io.accepted < length (take buffer_size unread)
      → s.dst_ipod_dirty ≡ false
      → do_copy lib io s
        ≡ ok (aborted short_write (f.0, f.1 ++ take io.accepted (take buffer_size unread)) s)
  unfolding do_copy copy_bytes write_bytes
  do_copy-short io s unread f b u d reads short clean =
      let all : min io.readable buffer_size ≡ buffer_size = omega (arith, reads) in
      let some_read : (length (take buffer_size unread) == 0) ≡ false = ground arith in
      let cut : min io.accepted (length (take buffer_size unread)) ≡ io.accepted = omega arith in
      let differs : (io.accepted == length (take buffer_size unread)) ≡ false = ground arith in
      cc (b, u, d, all, some_read, cut, differs, clean)

  -- When the copy of a tick is aborted, the tick ends there.
  pub aborted-tick :
      (io : Io) (s : Transfer lib) (item : Item Track) (items : List (Item Track)) (m : Message)
      (f : Text × List ℕ)
      → s.cur_file ≡ item ∷ items
      → is_some item.dst_filename ≡ true
      → (item.filesize == s.file_bytes_transferred) ≡ false
      → do_copy lib io s ≡ ok (aborted m f s)
      → transfer_widget_timer_handler lib io s ≡ ok (aborted m f s)
  unfolding finish_if_copied finish_if_done ending
  aborted-tick io s item items m f at_hand has_name unfinished copy =
      let state = aborted m f s in
      handler-named io s item items at_hand has_name
      ∙ ap (λ o. o >>= λ t. finish_if_copied lib io t.cur_file t >>= ending) copy
      ∙ ap (λ l. finish_if_copied lib io l state >>= ending) at_hand
      ∙ ap (λ c. (if c then finish_file lib io item items state else ok state) >>= ending)
          unfinished
      ∙ ap (λ l. finish_if_done lib l state) at_hand

  pub do_copy-nothing :
      (io : Io) (s : Transfer lib) (unread : List ℕ) (f : Text × List ℕ)
      → s.buffer ≡ allocated
      → s.src_file ≡ some unread
      → s.dst_file ≡ some f
      → io.readable ≡ 0
      → s.dst_ipod_dirty ≡ false
      → do_copy lib io s ≡ ok (aborted zero_bytes_read f s)
  unfolding do_copy copy_bytes
  do_copy-nothing io s unread f b u d nothing clean =
      let none_read : (length (take (min io.readable buffer_size) unread) == 0) ≡ true =
        ground (arith, length-take (min io.readable buffer_size) unread) in
      cc (b, u, d, none_read, clean)

  -- When `fwrite` takes fewer bytes than a whole read of the file at hand handed it, no track has been
  -- finished yet and the file is not finished: the tick ends the transfer with a message, the buffer
  -- freed, both files closed, what was written so far kept, the status mounted and the timer off; the
  -- item stays at hand and nothing is counted.
  pub short_write-aborts :
      (io : Io) (s : Transfer lib) (item : Item Track) (items : List (Item Track)) (unread : List ℕ)
      (f : Text × List ℕ)
      → s.cur_file ≡ item ∷ items
      → is_some item.dst_filename ≡ true
      → s.buffer ≡ allocated
      → s.src_file ≡ some unread
      → s.dst_file ≡ some f
      → buffer_size ≤ io.readable
      → io.accepted < length (take buffer_size unread)
      → (item.filesize == s.file_bytes_transferred) ≡ false
      → s.dst_ipod_dirty ≡ false
      → transfer_widget_timer_handler lib io s
        ≡ ok (aborted short_write (f.0, f.1 ++ take io.accepted (take buffer_size unread)) s)
  short_write-aborts io s item items unread f at_hand has_name b u d reads short unfinished clean =
      aborted-tick io s item items short_write
        (f.0, f.1 ++ take io.accepted (take buffer_size unread)) at_hand has_name unfinished
        (do_copy-short io s unread f b u d reads short clean)

  -- After an abort nothing is open, and the same file is at hand.
  abort_transfer-Faults :
      (s : Transfer lib) (f : Transfer lib → Outcome (Transfer lib))
      → ((t : Transfer lib)
          → t.src_file ≡ none
          → t.cur_file ≡ s.cur_file
          → t.file_bytes_transferred ≡ s.file_bytes_transferred
          → Faults (f t))
      → Faults (abort_transfer lib s >>= f)
  unfolding abort_transfer transfer_finished
  abort_transfer-Faults s f faults =
      Faults->>= (free_buffer s.buffer) (λ b. _) f
        (λ b.
          Faults->>= (flush_dst lib s.dst_ipod_dirty s.dst_ipod s.pod) (λ p. _) f
            (λ p. faults _ refl refl refl))

  close_files-closed :
      (src : Option (List ℕ)) (dst : Option (Text × List ℕ)) (t : Transfer lib)
      (g : Transfer lib → Outcome (Transfer lib))
      → src ≡ none
      → Faults (close_files lib src dst t >>= g)
  unfolding close_files
  close_files-closed src dst t g closed =
      (no_stream, ap (λ o. close_files lib o dst t >>= g) closed)

  -- A file is not finished when its source is closed.
  finish_file-closed :
      (io : Io) (item : Item Track) (items : List (Item Track)) (t : Transfer lib)
      → t.src_file ≡ none
      → Faults (finish_file lib io item items t)
  unfolding finish_file
  finish_file-closed io item items t closed =
      Faults-bind
        (finish_track lib io t.src_ipod t.dst_ipod item.src_track (text_or_empty item.dst_location)
          t.pod)
        (λ pod. _) (λ pod. close_files-closed t.src_file t.dst_file _ (λ s'. _) closed)

  -- So the tick that read nothing cannot finish the file.
  finish_if_copied-closed :
      (io : Io) (item : Item Track) (items : List (Item Track)) (t : Transfer lib)
      → t.src_file ≡ none
      → t.cur_file ≡ item ∷ items
      → (item.filesize == t.file_bytes_transferred) ≡ true
      → Faults (finish_if_copied lib io t.cur_file t >>= ending)
  unfolding finish_if_copied
  finish_if_copied-closed io item items t closed at_hand whole =
      let (e, eq) = finish_file-closed io item items t closed in
      (
        e,
        ap (λ l. finish_if_copied lib io l t >>= ending) at_hand
            ∙ ap (λ c. (if c then finish_file lib io item items t else ok t) >>= ending) whole
            ∙ ap (λ m. m >>= ending) eq,
      )

  do_copy-empty :
      (io : Io) (s : Transfer lib)
      → s.buffer ≡ allocated
      → s.src_file ≡ some []
      → do_copy lib io s ≡ abort_transfer lib (complain lib zero_bytes_read s)
  unfolding do_copy copy_bytes
  do_copy-empty io s b u =
      let nothing : (length {A = ℕ} (take (min io.readable buffer_size) []) == 0) ≡ true =
        ground (arith, length-take {A = ℕ} (min io.readable buffer_size) []) in
      cc (b, u, nothing)

  -- A tick on an opened file of no bytes whose `filesize` is 0 is a fault: the copy is aborted as
  -- nothing is read, and then the file counts as finished and its closed streams are closed again.
  pub empty_file-fault :
      (io : Io) (s : Transfer lib) (item : Item Track) (items : List (Item Track))
      → s.cur_file ≡ item ∷ items
      → is_some item.dst_filename ≡ true
      → s.buffer ≡ allocated
      → s.src_file ≡ some []
      → item.filesize ≡ 0
      → s.file_bytes_transferred ≡ 0
      → Faults (transfer_widget_timer_handler lib io s)
  unfolding complain ending
  empty_file-fault io s item items at_hand has_name b u empty zero_bytes =
      let (e, eq) =
        abort_transfer-Faults (complain lib zero_bytes_read s)
          (λ t. finish_if_copied lib io t.cur_file t >>= ending)
          (λ t closed same same_count.
            finish_if_copied-closed io item items t closed (same ∙ at_hand)
              (ground (arith, empty, zero_bytes, same_count))) in
      (
        e,
        handler-named io s item items at_hand has_name
            ∙ ap (λ m. m >>= λ t. finish_if_copied lib io t.cur_file t >>= ending)
                (do_copy-empty io s b u)
            ∙ eq,
      )
