-- ===== src/Transfer/Run.antt =====
-- Runs of the transfer timer, the copy at hand, and what a run of a whole queue ends in.
pub mod Advance
pub mod Buffers
pub mod Completes
pub mod Landing
pub mod Names
pub mod Queue
pub mod Stores
pub mod Totals
pub mod Whole
use mathlib.Core.List.{reverse}
use ipod_to_ipod.Base.{
  ℕ, zero, suc, ◌+◌, ◌/◌, ◌<◌, ◌^◌, Bool, true, false, Option, none, some, List, [], ◌∷◌, ◌++◌, map,
  Text, length, ◌≡◌, ◌≢◌, is_some, drop, take, arith, ◌==◌, if◌then◌else◌, refl,
}
use ipod_to_ipod.Pod.{Ptr, mounted}
use ipod_to_ipod.Libipod.{Libipod, IsStore}
use ipod_to_ipod.Transfer.{
  Outcome, ok, ◌>>=◌, ulong, buffer_size, allocated, freed, Item, Io, Transfer,
}
use ipod_to_ipod.Transfer.Attributes.{text_tags}
use ipod_to_ipod.Transfer.Attributes.Copied.{any_of}
use ipod_to_ipod.Transfer.Copy.{transfer_widget_timer_handler, finish_if_copied}
use ipod_to_ipod.Transfer.Steps.{IsGood, advance, copied, do_copy-copied}
use ipod_to_ipod.Transfer.Finish.{finished, ended, finish_if_done-ended}

module _ (lib : Libipod) where
  open lib use {Db, Track}

  -- The timer fires `rounds` times from moment `k` on, while it is set.
  unfoldable pub run : (ℕ → Io) → (k rounds : ℕ) → Transfer lib → Outcome (Transfer lib)
  run ios k zero s = ok s
  run ios k (suc n) s =
      let tick = transfer_widget_timer_handler lib (ios k) s >>= run ios (suc k) n in
      if s.timer then tick else ok s

  -- A track that waits for its copy: its file has as many bytes as the database says, at least one.
  pub record Ready (disk : Text → Option (List ℕ)) (item : Item Track) : Type 0 where
    pub track : Track
    pub is_track : item.src_track ≡ some track
    pub unnamed : item.dst_filename ≡ none
    pub bytes : List ℕ
    pub found : disk item.src_filename ≡ some bytes
    pub sized : length bytes ≡ item.filesize
    pub not_empty : 0 < item.filesize
    pub small : item.filesize < 2 ^ 32

  -- The bytes of an item's file.
  unfoldable pub bytes_of : (Text → Option (List ℕ)) → Item Track → List ℕ
  bytes_of disk item = elim (disk item.src_filename) [ none ↦ [] | some bytes ↦ bytes ]

  unfoldable pub sizes : List (Item Track) → ℕ
  sizes [] = 0
  sizes (item ∷ items) = item.filesize + sizes items

  -- Enough ticks for the items: one for each full buffer of a file, and one more.
  unfoldable pub rounds_for : List (Item Track) → ℕ
  rounds_for [] = 0
  rounds_for (item ∷ items) = item.filesize / buffer_size + 1 + rounds_for items

  -- The two databases of a transfer are open, and are not the same.
  pub record Connected (dbs : Ptr → Option Db) (src_ipod dst_ipod : Ptr) : Type 0 where
    pub src_db : Db
    pub src_open : dbs src_ipod ≡ some src_db
    pub dst_db : Db
    pub dst_open : dbs dst_ipod ≡ some dst_db
    pub apart : src_ipod ≢ dst_ipod

  -- A copy is under way: `unread` is left of the file of `item`, and `f` has been written.
  pub record Copying (item : Item Track) (items : List (Item Track)) (unread : List ℕ)
      (f : Text × List ℕ) (s : Transfer lib) : Type 0 where
    pub at_hand : s.cur_file ≡ item ∷ items
    pub has_name : is_some item.dst_filename ≡ true
    pub buffer : s.buffer ≡ allocated
    pub src : s.src_file ≡ some unread
    pub dst : s.dst_file ≡ some f
    pub ticking : s.timer ≡ true
    pub counted : s.file_bytes_transferred + length unread ≡ item.filesize
    pub small : item.filesize < 2 ^ 32
    pub not_done : 0 < length unread
    pub track : Track
    pub is_track : item.src_track ≡ some track
    pub connected : Connected s.pod.dbs s.src_ipod s.dst_ipod

  -- The transfer is over: the status, what is closed and freed, and the counts.
  pub record Over (files bytes : ℕ) (s : Transfer lib) : Type 0 where
    pub status : s.pod.rip_status ≡ mounted
    pub timer_off : s.timer ≡ false
    pub no_file : s.cur_file ≡ []
    pub buffer_freed : s.buffer ≡ freed
    pub src_closed : s.src_file ≡ none
    pub dst_closed : s.dst_file ≡ none
    pub files_counted : s.total_files_transferred ≡ files
    pub bytes_counted : s.total_bytes_transferred ≡ ulong bytes

  -- It is over, with these files written (newest first).
  pub record Completed (files bytes : ℕ) (contents : List (List ℕ)) (s : Transfer lib)
      : Type 0 where
    pub over : Over files bytes s
    pub written_whole : map (λ f. f.1) s.written ≡ contents
