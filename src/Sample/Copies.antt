-- ===== src/Sample/Copies.antt =====
-- A transfer of two small files from the remote iPod to the local one, in which nothing fails.
use ipod_to_ipod.Base.{
  ℕ, true, false, Option, none, some, List, [], ◌∷◌, Text, refl, text_eq, if◌then◌else◌, arith, All,
  ◌==◌,
}
use ipod_to_ipod.Pod.{mounted}
use ipod_to_ipod.Transfer.{Item, Io, Transfer, none_yet}
use ipod_to_ipod.Transfer.Attributes.Copied.{any_of}
use ipod_to_ipod.Transfer.Steps.{IsGood}
use ipod_to_ipod.Transfer.Run.{Ready, Connected}
use ipod_to_ipod.Sample.{table, two_tracks, initial}

abbrev pub disk : Text → Option (List ℕ)
disk name =
    if text_eq name (b'a' ∷ [])
    then some (1 ∷ 2 ∷ 3 ∷ [])
    else if text_eq name (b'b' ∷ [])
    then some (4 ∷ [])
    else none

-- The outside for the files of a disk.
abbrev pub io_of : (Text → Option (List ℕ)) → Io
io_of files = record {
  stat_ok = λ name. true;
  source = files;
  can_write = λ name. true;
  readable = 65536;
  accepted = 65536;
  location = b':' ∷ b'x' ∷ [];
  moves = λ tag. false;
}

pub io_of-IsGood : (files : Text → Option (List ℕ)) → IsGood table files (io_of files)
unfolding any_of
io_of-IsGood files = record {
  opens = λ name. refl;
  stats = λ name. refl;
  writes = λ name. refl;
  reads = omega arith;
  accepts = omega arith;
  still = refl;
}

abbrev pub good_io : Io
good_io = io_of disk

abbrev pub item_a : Item ℕ
item_a = record {
  src_filename = b'a' ∷ [];
  dst_filename = none;
  filesize = 3;
  src_track = some 0;
  dst_location = none;
}

abbrev pub item_b : Item ℕ
item_b = record (item_a) { src_filename = b'b' ∷ []; filesize = 1; src_track = some 1 }

-- Before the transfer window opens.
abbrev pub queued : Transfer table
queued = record {
  pod = record (initial) {
    rip_status = mounted;
    remote_ipod = 2;
    dbs = λ p. if p == 2 then some two_tracks else initial.dbs p;
  };
  passed = item_a ∷ item_b ∷ [];
  cur_file = [];
  src_ipod = 2;
  dst_ipod = 1;
  total_files = 2;
  total_bytes = 4;
  total_files_transferred = 0;
  total_bytes_transferred = 0;
  file_bytes_transferred = 0;
  dst_ipod_dirty = false;
  src_file = none;
  dst_file = none;
  buffer = none_yet;
  timer = false;
  window = false;
  written = [];
  freed_tracks = [];
  messages = [];
}

pub queued-Ready : All (Ready table disk) (item_a ∷ item_b ∷ [])
unfolding text_eq
queued-Ready = (
  record {
    track = 0;
    is_track = refl;
    unnamed = refl;
    bytes = 1 ∷ 2 ∷ 3 ∷ [];
    found = refl;
    sized = refl;
    not_empty = omega arith;
    small = omega arith;
  },
  (
    record {
      track = 1;
      is_track = refl;
      unnamed = refl;
      bytes = 4 ∷ [];
      found = refl;
      sized = refl;
      not_empty = omega arith;
      small = omega arith;
    },
    tt,
  ),
)

pub queued-Connected : Connected table queued.pod.dbs queued.src_ipod queued.dst_ipod
queued-Connected = record {
  src_db = two_tracks;
  src_open = refl;
  dst_db = two_tracks;
  dst_open = refl;
  apart = ground arith;
}
