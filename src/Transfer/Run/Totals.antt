-- ===== src/Transfer/Run/Totals.antt =====
-- The counts over a run of a queue: what is to come, given the copy at hand or the items that wait.
use ipod_to_ipod.Base.{
  ℕ, suc, ◌+◌, ◌≤◌, Option, List, [], ◌∷◌, Text, length, length-take, length-drop, drop, ◌≡◌, sym,
  refl, arith,
}
use ipod_to_ipod.Libipod.{Libipod}
use ipod_to_ipod.Transfer.{ulong, buffer_size, Item, Io, Transfer}
use ipod_to_ipod.Transfer.Steps.{copied, opened}
use ipod_to_ipod.Transfer.Finish.{finished, ended}
use ipod_to_ipod.Transfer.Run.{Ready, sizes, Over}

module _ (lib : Libipod) where
  open lib use {Db, Track}

  -- What is to come, given the copy at hand.
  pub record Totals (items : List (Item Track)) (unread : List ℕ) (s : Transfer lib)
      (files bytes : ℕ) : Type 0 where
    pub files_left : files ≡ s.total_files_transferred + suc (length items)
    pub bytes_left :
        ulong bytes ≡ ulong (s.total_bytes_transferred + length unread + sizes lib items)

  -- What is to come, given the items that wait.
  pub record Waiting (items : List (Item Track)) (s : Transfer lib) (files bytes : ℕ) : Type 0 where
    pub files_left : files ≡ s.total_files_transferred + length items
    pub bytes_left : ulong bytes ≡ ulong (s.total_bytes_transferred + sizes lib items)

  -- A buffer moves from what is unread to what is written.
  pub copied-Totals :
      (items : List (Item Track)) (unread : List ℕ) (f : Text × List ℕ) (s : Transfer lib)
      (files bytes : ℕ)
      → Totals items unread s files bytes
      → Totals items (drop buffer_size unread) (copied lib unread f s) files bytes
  copied-Totals items unread f s files bytes totals = record {
    files_left = totals.files_left;
    bytes_left =
        omega (
          arith,
          totals.bytes_left,
          length-take buffer_size unread,
          length-drop buffer_size unread,
        );
  }

  pub opened-Totals :
      (disk : Text → Option (List ℕ)) (io : Io) (d : Db) (item : Item Track)
      (items : List (Item Track)) (r : Ready lib disk item) (s : Transfer lib) (files bytes : ℕ)
      → Waiting (item ∷ items) s files bytes
      → Totals items r.bytes (opened lib io d item items r.bytes s) files bytes
  unfolding sizes
  opened-Totals disk io d item items r s files bytes w = record {
    files_left = omega (arith, w.files_left);
    bytes_left = omega (arith, w.bytes_left, r.sized);
  }

  pub finished-Waiting :
      (items : List (Item Track)) (unread : List ℕ) (f g : Text × List ℕ) (item : Item Track)
      (s : Transfer lib) (d : Db) (files bytes : ℕ)
      → length unread ≤ buffer_size
      → Totals items unread s files bytes
      → Waiting items (finished lib d g item items (copied lib unread f s)) files bytes
  finished-Waiting items unread f g item s d files bytes last totals = record {
    files_left = omega (arith, totals.files_left);
    bytes_left = omega (arith, totals.bytes_left, length-take buffer_size unread);
  }

  pub ended-Over :
      (unread : List ℕ) (f g : Text × List ℕ) (item : Item Track) (s : Transfer lib) (d d' : Db)
      (files bytes : ℕ)
      → length unread ≤ buffer_size
      → Totals [] unread s files bytes
      → Over lib files bytes (ended lib d' (finished lib d g item [] (copied lib unread f s)))
  unfolding sizes
  ended-Over unread f g item s d d' files bytes last totals = record {
    status = refl;
    timer_off = refl;
    no_file = refl;
    buffer_freed = refl;
    src_closed = refl;
    dst_closed = refl;
    files_counted = sym totals.files_left;
    bytes_counted = omega (arith, totals.bytes_left, length-take buffer_size unread);
  }
