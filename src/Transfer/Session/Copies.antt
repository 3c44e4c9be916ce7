-- ===== src/Transfer/Session/Copies.antt =====
-- The start of a tick and its copy keep the invariant of the transfer window, and free nothing twice.
use ipod_to_ipod.Base.{
  ap, ℕ, ◌+◌, false, Option, none, some, List, [], ◌∷◌, ◌++◌, Text, length, ◌≡◌, refl, arith, ◌==◌,
  take, drop, min, is_some,
}
use ipod_to_ipod.Libipod.{Libipod}
use ipod_to_ipod.Transfer.{
  ulong, Buffer, none_yet, allocated, freed, buffer_size, Item, Io, Transfer, zero_bytes_read,
  short_write,
}
use ipod_to_ipod.Transfer.Outcomes.{Safe, safe, faulty, Post-if, Post-option}
use ipod_to_ipod.Transfer.Copy.{write_bytes, copy_bytes, do_copy, start_if_unnamed}
use ipod_to_ipod.Transfer.Session.{IsSound, was_freed}
use ipod_to_ipod.Transfer.Session.Keeps.{is_cons, AtWork, abort-AtWork}
use ipod_to_ipod.Transfer.Session.Starts.{streams-AtWork, start_next_file-Safe}

module _ (lib : Libipod) where
  open lib use {Db, Track}

  pub start_if_unnamed-Safe :
      (io : Io) (items : List (Item Track)) (s : Transfer lib)
      → s.cur_file ≡ items
      → was_freed s.buffer ≡ false
      → IsSound lib s
      → Safe (AtWork lib) (start_if_unnamed lib io items s)
  unfolding start_if_unnamed
  start_if_unnamed-Safe io [] s at_hand there i = faulty refl
  start_if_unnamed-Safe io (item ∷ items) s at_hand there i =
      Post-if (is_some item.dst_filename)
        (λ h. safe (record { sound = i; busy = ap is_cons at_hand }))
        (λ h. start_next_file-Safe lib io item items s at_hand there i)

  -- What is copied counts for the file and for the total.
  counted-AtWork :
      (n : ℕ) (s : Transfer lib)
      → AtWork lib s
      → AtWork lib (record s {
        file_bytes_transferred = ulong (s.file_bytes_transferred + n);
        total_bytes_transferred = ulong (s.total_bytes_transferred + n);
      })
  counted-AtWork n s w = record {
    sound = record {
      files = w.sound.files;
      bytes = w.sound.bytes;
      busy = w.sound.busy;
      timed = w.sound.timed;
      closed = w.sound.closed;
      files_done = w.sound.files_done;
      bytes_done = λ o a. omega (arith, w.sound.bytes_done o a);
    };
    busy = w.busy;
  }

  write_bytes-Safe :
      (io : Io) (bytes unread : List ℕ) (f : Text × List ℕ) (s : Transfer lib)
      → was_freed s.buffer ≡ false
      → AtWork lib s
      → Safe (AtWork lib) (write_bytes lib io bytes unread f s)
  unfolding write_bytes
  write_bytes-Safe io bytes unread f s there w =
      let n = min io.accepted (length bytes) in
      let wrote = streams-AtWork lib (some unread) (some (f.0, f.1 ++ take n bytes)) s there w in
      let s' = record s { src_file = some unread; dst_file = some (f.0, f.1 ++ take n bytes) } in
      Post-if (n == length bytes) (λ h. safe (counted-AtWork n s' wrote))
        (λ h. abort-AtWork lib short_write s' there wrote)

  copy_bytes-Safe :
      (io : Io) (b : Buffer) (src : Option (List ℕ)) (dst : Option (Text × List ℕ))
      (s : Transfer lib)
      → s.buffer ≡ b
      → AtWork lib s
      → Safe (AtWork lib) (copy_bytes lib io b src dst s)
  unfolding copy_bytes
  copy_bytes-Safe io none_yet src dst s e w = faulty refl
  copy_bytes-Safe io freed src dst s e w = faulty refl
  copy_bytes-Safe io allocated none dst s e w = faulty refl
  copy_bytes-Safe io allocated (some unread) dst s e w =
      let n = min io.readable buffer_size in
      let there = ap was_freed e in
      Post-if (length (take n unread) == 0) (λ h. abort-AtWork lib zero_bytes_read s there w)
        (λ h.
          Post-option dst (λ e. faulty refl)
            (λ f e. write_bytes-Safe io (take n unread) (drop n unread) f s there w))

  pub do_copy-Safe :
      (io : Io) (s : Transfer lib) → AtWork lib s → Safe (AtWork lib) (do_copy lib io s)
  unfolding do_copy
  do_copy-Safe io s w = copy_bytes-Safe io s.buffer s.src_file s.dst_file s refl w
