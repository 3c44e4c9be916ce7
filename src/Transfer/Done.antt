-- ===== src/Transfer/Done.antt =====
-- What it takes for an item to count as done, whatever the outside answers: the streams of a copy and
-- the streams closed. `Starts` and `Ticks` follow a tick, `Runs` the runs of the timer.
pub mod Copies
pub mod Runs
pub mod Starts
pub mod Ticks
use mathlib.Core.List.{Mem, mem-cons_of_mem}
use ipod_to_ipod.Base.{
  ℕ, ap, sym, ◌∙◌, Bool, true, false, Option, none, some, List, [], ◌∷◌, ◌++◌, Text, length, ◌≡◌,
  refl, arith, not, ltb, All, All-weaken, is_some,
}
use ipod_to_ipod.Pod.{Ptr, Pod}
use ipod_to_ipod.Libipod.{Libipod}
use ipod_to_ipod.Transfer.{
  Message, ulong, filename_room, already_has_dst, no_dst, cannot_read, cannot_write, cannot_stat,
  Item, Io, Transfer,
}
use ipod_to_ipod.Transfer.Outcomes.{
  any, Partly, safe, faulty, Post-bind, Post-weaken, Post-if, Post-option,
}
use ipod_to_ipod.Transfer.Start.{
  complain, free_buffer, flush_dst, close_dst, transfer_finished, abort_transfer, open_files,
  start_named, start_item, name_track, start_next_file,
}

module _ (lib : Libipod) (ios : ℕ → Io) where
  open lib use {Db, Track}

  -- The file `f` was opened for the item at some moment `k`, and has the first bytes of what the
  -- item's file had then; `unread` are the others.
  pub record Begun (item : Item Track) (unread : List ℕ) (f : Text × List ℕ) : Type 0 where
    pub name : item.dst_filename ≡ some f.0
    pub k : ℕ
    pub from_source : (ios k).source item.src_filename ≡ some (f.1 ++ unread)

  -- The item's stream is among those closed, and took as many bytes as `filesize` says.
  pub record Done (written : List (Text × List ℕ)) (item : Item Track) : Type 0 where
    pub f : Text × List ℕ
    pub unread : List ℕ
    pub is_written : Mem f written
    pub begun : Begun item unread f
    pub whole : ulong (length f.1) ≡ item.filesize

  pub record AllDone (s : Transfer lib) : Type 0 where
    pub done : All (Done s.written) s.passed

  -- The item at hand is being copied.
  pub record Open (s : Transfer lib) : Type 0 where
    pub item : Item Track
    pub items : List (Item Track)
    pub unread : List ℕ
    pub f : Text × List ℕ
    pub at_hand : s.cur_file ≡ item ∷ items
    pub src : s.src_file ≡ some unread
    pub dst : s.dst_file ≡ some f
    pub begun : Begun item unread f
    pub counted : ulong (length f.1) ≡ s.file_bytes_transferred

  -- Before a file is opened.
  pub record Shut (s : Transfer lib) : Type 0 where
    pub src : s.src_file ≡ none
    pub dst : s.dst_file ≡ none
    pub none_counted : s.file_bytes_transferred ≡ 0

  -- After an abort, or the end.
  pub record Stopped (s : Transfer lib) : Type 0 where
    pub src : s.src_file ≡ none
    pub timer_off : s.timer ≡ false

  pub data Streams (s : Transfer lib) : Type 0 where
    shut : Shut s → Streams s
    is_open : Open s → Streams s
    stopped : Stopped s → Streams s

  -- What holds between the parts of a tick.
  pub record Honest (P : Transfer lib → Type 0) (s : Transfer lib) : Type 0 where
    pub all : AllDone s
    pub rest : P s

  Done-cons :
      (g : Text × List ℕ) (written : List (Text × List ℕ)) (item : Item Track)
      → Done written item
      → Done (g ∷ written) item
  Done-cons g written item d = record {
    f = d.f;
    unread = d.unread;
    is_written = mem-cons_of_mem g d.is_written;
    begun = d.begun;
    whole = d.whole;
  }

  pub Done-close_dst :
      (o : Option (Text × List ℕ)) (written : List (Text × List ℕ)) (items : List (Item Track))
      → All (Done written) items
      → All (Done (close_dst lib o written)) items
  unfolding close_dst
  Done-close_dst none written items all = all
  Done-close_dst (some g) written items all =
      All-weaken (Done written) (Done (g ∷ written)) items (Done-cons g written) all

  pub transfer_finished-Stopped :
      (s : Transfer lib) → AllDone s → Partly (Honest Stopped) (transfer_finished lib s)
  unfolding transfer_finished
  transfer_finished-Stopped s all = Post-bind (any (free_buffer s.buffer)) (λ b u.
      Post-bind (any (flush_dst lib s.dst_ipod_dirty s.dst_ipod s.pod)) (λ p u. safe (record {
        all = record { done = Done-close_dst s.dst_file s.written s.passed all.done };
        rest = record { src = refl; timer_off = refl };
      })))

  pub abort_transfer-Stopped :
      (m : Message) (s : Transfer lib)
      → AllDone s
      → Partly (Honest Stopped) (abort_transfer lib (complain lib m s))
  unfolding abort_transfer complain
  abort_transfer-Stopped m s all =
      transfer_finished-Stopped (complain lib m s) (record { done = all.done })

  -- After the start of a tick: no file is open for reading, or the item at hand is being copied.
  pub data Started (s : Transfer lib) : Type 0 where
    unopened : s.src_file ≡ none → Started s
    copying : Open s → Started s
