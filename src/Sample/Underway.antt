-- ===== src/Sample/Underway.antt =====
-- A copy under way: a track of the remote iPod, of which three of four bytes are unread.
use ipod_to_ipod.Base.{ℕ, true, some, none, [], ◌∷◌, refl, arith}
use ipod_to_ipod.Pod.{transferring}
use ipod_to_ipod.Transfer.{Transfer, Item, allocated}
use ipod_to_ipod.Transfer.Run.{Copying}
use ipod_to_ipod.Sample.{table, two_tracks}
use ipod_to_ipod.Sample.Copies.{queued}

abbrev pub item : Item ℕ
item = record {
  src_filename = b'f' ∷ [];
  dst_filename = some (b'g' ∷ []);
  filesize = 4;
  src_track = some 0;
  dst_location = none;
}

-- Three of four bytes are unread.
abbrev pub copying : Transfer table
copying = record queued {
  pod = record (queued.pod) {
    rip_status = transferring;
    remote_ipod = 2;
    dbs = λ p. some two_tracks;
  };
  cur_file = item ∷ [];
  src_ipod = 2;
  dst_ipod = 1;
  buffer = allocated;
  timer = true;
  total_files = 2;
  total_bytes = 8;
  file_bytes_transferred = 1;
  total_bytes_transferred = 5;
  src_file = some (1 ∷ 2 ∷ 3 ∷ []);
  dst_file = some (b'g' ∷ [], 0 ∷ []);
}

unfoldable pub copying-Copying : Copying table item [] (1 ∷ 2 ∷ 3 ∷ []) (b'g' ∷ [], 0 ∷ []) copying
copying-Copying = record {
  at_hand = refl;
  has_name = refl;
  buffer = refl;
  src = refl;
  dst = refl;
  ticking = refl;
  counted = refl;
  small = omega arith;
  not_done = omega arith;
  track = 0;
  is_track = refl;
  connected = record {
    src_db = two_tracks;
    src_open = refl;
    dst_db = two_tracks;
    dst_open = refl;
    apart = ground arith;
  };
}
