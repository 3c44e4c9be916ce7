-- ===== src/Transfer/Run/Queue.antt =====
-- A transfer window that opens on a queue of tracks copies them all, when nothing fails.
use mathlib.Core.List.{reverse}
use ipod_to_ipod.Base.{
  ◌<◌, ℕ, ◌≤◌, true, Option, List, ◌∷◌, ◌++◌, map, Text, length, ◌≡◌, refl, arith, All,
}
use ipod_to_ipod.Libipod.{Libipod, KeepsBase}
use ipod_to_ipod.Transfer.{filename_room, ok, Item, Io, Transfer}
use ipod_to_ipod.Transfer.Start.{start_copy}
use ipod_to_ipod.Transfer.Widget.{new_transfer_window}
use ipod_to_ipod.Transfer.Steps.{IsGood}
use ipod_to_ipod.Transfer.Run.{run, Ready, bytes_of, sizes, rounds_for, Connected, Completed}
use ipod_to_ipod.Transfer.Run.Landing.{Landed-Completed}
use ipod_to_ipod.Transfer.Run.Whole.{last-Reaches}
use ipod_to_ipod.Transfer.Run.Buffers.{opened-Reaches}

-- When nothing fails, each name fits its buffer, the source and the destination are open and not the same, and the list has at
-- least one item, each of them a track with no destination name whose file has as many bytes as its
-- `filesize`, more than 0 and less than 2^32: the transfer window that opens on the list, followed by
-- filesize / 65536 + 1 ticks of its timer for each item, or by more ticks, ends without a fault. The
-- status is then mounted, the timer off, `cur_file` is NULL, both streams are closed and the buffer is
-- freed; `total_files_transferred` is the length of the list, `total_bytes_transferred` the sum of the
-- sizes modulo 2^32; and the files written are the whole files of the list, in the list's order,
-- after those that were written before.
run-Completed :
    (lib : Libipod)
    → KeepsBase lib
    → (disk : Text → Option (List ℕ)) (ios : ℕ → Io) → ((k : ℕ) → IsGood lib disk (ios k))
    → (s : Transfer lib) (item : Item lib.Track) (items : List (Item lib.Track)) (rounds : ℕ)
    → s.passed ++ s.cur_file ≡ item ∷ items
    → All (Ready lib disk) (item ∷ items)
    → (con : Connected lib s.pod.dbs s.src_ipod s.dst_ipod)
    → ((k : ℕ) → length (lib.base_path con.dst_db ++ (ios k).location) < filename_room)
    → rounds_for lib (item ∷ items) ≤ rounds
    → (t : Transfer lib) × (run lib ios 0 rounds (new_transfer_window lib true s) ≡ ok t)
      × Completed lib
          (length (item ∷ items))
          (sizes lib (item ∷ items))
          (reverse (map (bytes_of lib disk) (item ∷ items)) ++ map (λ f. f.1) s.written)
          t
unfolding new_transfer_window start_copy
run-Completed lib keeps disk ios good s item items rounds queue ready con room enough =
    let base = lib.base_path con.dst_db in
    let (t, e, over, (landed, _)) =
      opened-Reaches lib keeps disk ios good base room rounds items item
        (last-Reaches lib keeps disk ios good base room rounds items) 0 rounds
        (new_transfer_window lib true s) (length (item ∷ items)) (sizes lib (item ∷ items)) ready
        refl queue refl refl con refl enough (omega arith)
        (record { files_left = omega arith; bytes_left = omega arith }) in
    (t, e, Landed-Completed lib disk over landed)
