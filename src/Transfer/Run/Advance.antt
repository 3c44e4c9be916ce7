-- ===== src/Transfer/Run/Advance.antt =====
-- One tick on a copy that is under way: another buffer, the next file, or the end.
use ipod_to_ipod.Base.{
  ℕ, ◌+◌, ◌≤◌, ◌<◌, false, some, Option, List, ◌++◌, Text, length, take, drop, take_all,
  length-take, length-drop, ◌≡◌, refl, ap, ◌∙◌, ◌==◌, arith,
}
use ipod_to_ipod.Pod.{set_db}
use ipod_to_ipod.Libipod.{Libipod}
use ipod_to_ipod.Transfer.{ok, ◌>>=◌, ulong, buffer_size, Item, Io, Transfer}
use ipod_to_ipod.Transfer.Copy.{
  text_or_empty, add_copy, finish_file, finish_if_copied, finish_if_done,
}
use ipod_to_ipod.Transfer.Steps.{IsGood, IsLast, advance, advance-IsLast, copied, do_copy-copied}
use ipod_to_ipod.Transfer.Finish.{finished, finish_file-finished}
use ipod_to_ipod.Transfer.Run.{Copying, Connected}

module _ (lib : Libipod) where
  open lib use {Db, Track}

  module _ (disk : Text → Option (List ℕ)) (io : Io) (good : IsGood lib disk io) (s : Transfer lib)
      (item : Item Track) (items : List (Item Track)) (unread : List ℕ) (f : Text × List ℕ)
      (c : Copying lib item items unread f s) where
    -- More than a buffer is left: a buffer is copied.
    pub advance-copied : buffer_size < length unread → advance lib io s ≡ ok (copied lib unread f s)
    unfolding finish_if_copied finish_if_done
    advance-copied more =
        let unfinished : (item.filesize
              == ulong (s.file_bytes_transferred + length (take buffer_size unread)))
            ≡ false =
          ground (arith, length-take buffer_size unread, c.counted, c.small) in
        rw (
          do_copy-copied lib disk io s unread f good c.buffer c.src c.dst c.not_done,
          c.at_hand,
          unfinished,
        )

    pub copied-Copying :
        buffer_size < length unread
        → Copying lib item items
            (drop buffer_size unread)
            (f.0, f.1 ++ take buffer_size unread)
            (copied lib unread f s)
    copied-Copying more = record {
      at_hand = c.at_hand;
      has_name = c.has_name;
      buffer = c.buffer;
      src = refl;
      dst = refl;
      ticking = c.ticking;
      counted = omega (
        arith,
        length-take buffer_size unread,
        length-drop buffer_size unread,
        c.counted,
        c.small,
      );
      small = c.small;
      not_done = omega (arith, length-drop buffer_size unread);
      track = c.track;
      is_track = c.is_track;
      connected = c.connected;
    }

    -- The state after the file, with the destination's new database.
    abbrev pub after : Db → Transfer lib
    after d = finished lib d (f.0, f.1 ++ unread) item items (copied lib unread f s)

    pub Copying-IsLast : length unread ≤ buffer_size → IsLast lib item items unread f s
    Copying-IsLast last = record {
      at_hand = c.at_hand;
      buffer = c.buffer;
      src = c.src;
      dst = c.dst;
      not_done = c.not_done;
      counted = c.counted;
      small = c.small;
      last = last;
    }

    -- At most a buffer is left: the file is finished, with what `finish_file` makes of it.
    advance-ended :
        length unread ≤ buffer_size
        → (d : Db)
        → finish_file lib io item items (copied lib unread f s)
          ≡ ok (
              finished lib d
                (f.0, f.1 ++ take buffer_size unread)
                item
                items
                (copied lib unread f s))
        → advance lib io s ≡ finish_if_done lib items (after d)
    advance-ended last d e =
        let state = copied lib unread f s in
        advance-IsLast lib disk io s item items unread f good (Copying-IsLast last)
        ∙ ap (λ m. m >>= λ t. finish_if_done lib t.cur_file t) e
        ∙ ap (λ bs. finish_if_done lib items (finished lib d (f.0, f.1 ++ bs) item items state))
            (take_all buffer_size unread last)

    -- In particular when the copy at hand is added to the destination's database.
    pub advance-added :
        length unread ≤ buffer_size
        → (con : Connected lib s.pod.dbs s.src_ipod s.dst_ipod) (d : Db)
        → add_copy lib io con.src_db c.track (text_or_empty item.dst_location) con.dst_db ≡ ok d
        → advance lib io s ≡ finish_if_done lib items (after d)
    advance-added last con d made = advance-ended last d (
        finish_file-finished lib io (copied lib unread f s) item items c.track con.src_db con.dst_db
          d (drop buffer_size unread) (f.0, f.1 ++ take buffer_size unread) c.is_track con.src_open
          con.dst_open refl refl made)

    pub after-src_open :
        (con : Connected lib s.pod.dbs s.src_ipod s.dst_ipod) (d : Db)
        → (after d).pod.dbs s.src_ipod ≡ some con.src_db
    unfolding set_db
    after-src_open con d = ground (arith, con.apart, con.src_open)

    pub after-dst_open : (d : Db) → (after d).pod.dbs s.dst_ipod ≡ some d
    unfolding set_db
    after-dst_open d = ground arith

    -- Finishing a file keeps the two databases open.
    abbrev pub after-Connected :
        Connected lib s.pod.dbs s.src_ipod s.dst_ipod
        → (d : Db) → Connected lib (after d).pod.dbs s.src_ipod s.dst_ipod
    after-Connected con d = record {
      src_db = con.src_db;
      src_open = after-src_open con d;
      dst_db = d;
      dst_open = after-dst_open d;
      apart = con.apart;
    }
