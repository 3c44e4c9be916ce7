-- ===== src/Transfer/Done/Copies.antt =====
-- The copy of a buffer in a tick in which anything may fail.
use mathlib.Core.Path.{subst}
use mathlib.Core.List.{append_assoc}
use ipod_to_ipod.Base.{
  ℕ, ◌+◌, ap, sym, ◌∙◌, Option, none, some, List, [], ◌∷◌, ◌++◌, Text, length, length-append, take,
  drop, take_all, take-append-drop, min, ◌≡◌, refl, arith, ◌==◌, is_some,
}
use ipod_to_ipod.Libipod.{Libipod}
use ipod_to_ipod.Transfer.{
  Message, ulong, Buffer, none_yet, allocated, freed, buffer_size, zero_bytes_read, short_write,
  Item, Io, Transfer,
}
use ipod_to_ipod.Transfer.Outcomes.{Partly, safe, faulty, Post-weaken, Post-if, Post-option}
use ipod_to_ipod.Transfer.Start.{complain, abort_transfer}
use ipod_to_ipod.Transfer.Copy.{write_bytes, copy_bytes, do_copy, start_if_unnamed}
use ipod_to_ipod.Transfer.Done.{
  AllDone, Open, Shut, Streams, is_open, stopped, Honest, Started, unopened, copying,
  abort_transfer-Stopped,
}
use ipod_to_ipod.Transfer.Done.Starts.{start_next_file-Started}

module _ (lib : Libipod) (ios : ℕ → Io) where
  open lib use {Db, Track}

  -- The timer is on: a file is open, or not yet.
  pub data Ticking (s : Transfer lib) : Type 0 where
    before : Shut lib ios s → Ticking s
    during : Open lib ios s → Ticking s

  pub start_if_unnamed-Started :
      (k : ℕ) (items : List (Item Track)) (s : Transfer lib)
      → s.cur_file ≡ items
      → AllDone lib ios s
      → Ticking s
      → Partly (Honest lib ios (Started lib ios)) (start_if_unnamed lib (ios k) items s)
  unfolding start_if_unnamed
  start_if_unnamed-Started k [] s at_hand all t = faulty refl
  start_if_unnamed-Started k (item ∷ items) s at_hand all (before sh) =
      Post-if (is_some item.dst_filename) (λ h. safe (record { all = all; rest = unopened sh.src }))
        (λ h. start_next_file-Started lib ios k item items s all sh)
  start_if_unnamed-Started k (item ∷ items) s at_hand all (during o) =
      Post-if (is_some item.dst_filename) (λ h. safe (record { all = all; rest = copying o }))
        (λ unnamed.
          let same : item ≡ o.item = cc (at_hand, o.at_hand) in
          let named = ap (λ i. is_some i.dst_filename) same ∙ ap is_some o.begun.name in
          absurd (cc (named, unnamed)))

  -- A part of the file at hand moves to what is written.
  moved :
      (bytes unread : List ℕ) (n : ℕ) (s : Transfer lib)
      → AllDone lib ios s
      → (o : Open lib ios s) → bytes ++ unread ≡ o.unread
      → n ≡ length bytes
      → Honest lib ios (Streams lib ios) (record s {
        src_file = some unread;
        dst_file = some (o.f.0, o.f.1 ++ take n bytes);
        file_bytes_transferred = ulong (s.file_bytes_transferred + n);
        total_bytes_transferred = ulong (s.total_bytes_transferred + n);
      })
  moved bytes unread n s all o parts whole =
      let taken : take n bytes ≡ bytes = take_all n bytes (omega arith) in
      record {
        all = record { done = all.done };
        rest = is_open (record {
          item = o.item;
          items = o.items;
          unread = unread;
          f = (o.f.0, o.f.1 ++ take n bytes);
          at_hand = o.at_hand;
          src = refl;
          dst = refl;
          begun = record {
            name = o.begun.name;
            k = o.begun.k;
            from_source =
                o.begun.from_source
                ∙ ap (λ bs. some bs)
                    (ap (λ bs. o.f.1 ++ bs) (sym parts)
                      ∙ sym (append_assoc o.f.1 bytes unread)
                      ∙ ap (λ bs. (o.f.1 ++ bs) ++ unread) (sym taken));
          };
          counted =
              omega
                (arith, o.counted, length-append o.f.1 (take n bytes), ap (λ l. length l) taken);
        });
      }

  abort-Streams :
      (s : Transfer lib) (m : Message)
      → AllDone lib ios s
      → Partly (Honest lib ios (Streams lib ios)) (abort_transfer lib (complain lib m s))
  abort-Streams s m all =
      Post-weaken (abort_transfer-Stopped lib ios m s all)
        (λ t h. record { all = h.all; rest = stopped h.rest })

  write_bytes-Streams :
      (io : Io) (bytes unread : List ℕ) (s : Transfer lib)
      → AllDone lib ios s
      → (o : Open lib ios s) → bytes ++ unread ≡ o.unread
      → Partly (Honest lib ios (Streams lib ios)) (write_bytes lib io bytes unread o.f s)
  unfolding write_bytes
  write_bytes-Streams io bytes unread s all o parts =
      let n = min io.accepted (length bytes) in
      Post-if (n == length bytes)
        (λ h. safe (moved bytes unread n s all o parts (ground (arith, h))))
        (λ h.
          abort-Streams
            (record s { src_file = some unread; dst_file = some (o.f.0, o.f.1 ++ take n bytes) })
            short_write (record { done = all.done }))

  copy_bytes-Streams :
      (io : Io) (b : Buffer) (src : Option (List ℕ)) (dst : Option (Text × List ℕ))
      (s : Transfer lib)
      → s.src_file ≡ src
      → s.dst_file ≡ dst
      → Honest lib ios (Started lib ios) s
      → Partly (Honest lib ios (Streams lib ios)) (copy_bytes lib io b src dst s)
  unfolding copy_bytes
  copy_bytes-Streams io none_yet src dst s u d h = faulty refl
  copy_bytes-Streams io freed src dst s u d h = faulty refl
  copy_bytes-Streams io allocated none dst s u d h = faulty refl
  copy_bytes-Streams io allocated (some unread) dst s u d h =
      let n = min io.readable buffer_size in
      Post-if (length (take n unread) == 0) (λ e. abort-Streams s zero_bytes_read h.all)
        (λ e.
          Post-option dst (λ e. faulty refl)
            (λ f is_f. elim h.rest [
              | unopened closed ↦ absurd (cc (u, closed))
              | copying o ↦
                  let same : o.f ≡ f = cc (o.dst, d, is_f) in
                  let left : unread ≡ o.unread = cc (o.src, u) in
                  subst
                    (λ g.
                      Partly (Honest lib ios (Streams lib ios))
                        (write_bytes lib io (take n unread) (drop n unread) g s))
                    same
                    (write_bytes-Streams io (take n unread) (drop n unread) s h.all o
                      (take-append-drop n unread ∙ left))
            ]))

  pub do_copy-Streams :
      (io : Io) (s : Transfer lib)
      → Honest lib ios (Started lib ios) s
      → Partly (Honest lib ios (Streams lib ios)) (do_copy lib io s)
  unfolding do_copy
  do_copy-Streams io s h = copy_bytes-Streams io s.buffer s.src_file s.dst_file s refl refl h
