-- ===== src/Tests/MenuTests.antt =====
-- "Transfer" and "Remove" on a list of one track of the remote iPod.
use ipod_to_ipod.Base.{
  ◌<◌, ◌≢◌, ◌++◌, length, false, ℕ, refl, some, Option, List, Text, [], ◌∷◌, inr, arith, true,
}
use ipod_to_ipod.Pod.{null}
use ipod_to_ipod.Link.{Heap, at}
use ipod_to_ipod.Link.Chain.{IsList, cons, nil, holds}
use ipod_to_ipod.ListUtils.{TrackList}
use ipod_to_ipod.ListUtils.Matches.{Ends}
use ipod_to_ipod.Transfer.{filename_room, Item, Io}
use ipod_to_ipod.Transfer.Start.{slashes}
use ipod_to_ipod.Transfer.Steps.{IsGood}
use ipod_to_ipod.Transfer.Attributes.Copied.{any_of}
use ipod_to_ipod.Transfer.Run.Names.{name_of}
use ipod_to_ipod.Transfer.Queue.{track_item}
use ipod_to_ipod.Transfer.Run.{Ready, rounds_for}
use ipod_to_ipod.TransferMenu.{transfer_tracks, remove_tracks_do_delete}
use ipod_to_ipod.TransferMenu.Gathers.{IsEmpty, items_for}
use ipod_to_ipod.TransferMenu.Queues.{Starts, other_ipod, transfer_tracks-Starts}
use ipod_to_ipod.TransferMenu.Completes.{Copies, transfer_tracks-Copies}
use ipod_to_ipod.TransferMenu.Stores.{Stocks, transfer_tracks-Stocks}
use ipod_to_ipod.TransferMenu.Removes.{Has, removed, remove_tracks_do_delete-Has}
use ipod_to_ipod.Sample.{table, table-IsStore, table-KeepsBase, table-IsAppending, two_tracks}
use ipod_to_ipod.Sample.Copies.{io_of, io_of-IsGood, queued}

abbrev one_track : TrackList
one_track = record { list = record { head = 1; tail = some 1 }; ipod = 2 }

abbrev one_track_heap : Heap ℕ
one_track_heap = (1, some (record { item = 1; next = null })) ∷ []

one_track-IsList : IsList one_track_heap one_track.list ((1, 1) ∷ [])
unfolding at holds
one_track-IsList = record { chain = cons (ground arith) refl refl nil; last = refl }

-- Every file has three bytes.
abbrev three_bytes : Text → Option (List ℕ)
three_bytes name = some (1 ∷ 2 ∷ 3 ∷ [])

abbrev one_item : Item ℕ
one_item = track_item table two_tracks 1

one_item-Ready : Ready table three_bytes one_item
unfolding track_item
one_item-Ready = record {
  track = 1;
  is_track = refl;
  unnamed = refl;
  bytes = 1 ∷ 2 ∷ 3 ∷ [];
  found = refl;
  sized = refl;
  not_empty = omega arith;
  small = omega arith;
}

transfer_tracks-Starts_example :
    Ends
      (λ r g. IsEmpty g r.0 × Starts table 2 1 (one_item ∷ []) queued r.1)
      (transfer_tracks table 2 true one_track queued one_track_heap)
unfolding other_ipod items_for
transfer_tracks-Starts_example =
    transfer_tracks-Starts table 2 two_tracks ((1, 1) ∷ []) one_track queued one_track_heap
      (ground arith) (inr refl) refl one_track-IsList (ground arith, tt) (omega arith)

transfer_tracks-Copies_example :
    Ends
      (λ r g.
        IsEmpty g r.0
        × Copies table table-KeepsBase three_bytes
            (λ k. io_of three_bytes)
            (λ k. io_of-IsGood three_bytes)
            (b'/' ∷ [])
            (λ k. omega arith)
            1
            (one_item ∷ [])
            queued
            r.1)
      (transfer_tracks table 2 true one_track queued one_track_heap)
unfolding other_ipod items_for track_item rounds_for
transfer_tracks-Copies_example =
    transfer_tracks-Copies table table-KeepsBase three_bytes (λ k. io_of three_bytes)
      (λ k. io_of-IsGood three_bytes) (b'/' ∷ []) (λ k. omega arith) 2 1 two_tracks two_tracks
      ((1, 1) ∷ []) one_track queued one_track_heap one_item [] (ground arith) (inr refl)
      (ground arith) refl refl refl one_track-IsList (ground arith, tt) (omega arith) refl
      (one_item-Ready, tt) (omega arith)

-- A location for each tick.
abbrev by_tick : ℕ → Io
by_tick k = record (io_of three_bytes) { location = b':' ∷ k ∷ [] }

by_tick-IsGood : (k : ℕ) → IsGood table three_bytes (by_tick k)
unfolding any_of
by_tick-IsGood k = record {
  opens = λ name. refl;
  stats = λ name. refl;
  writes = λ name. refl;
  reads = omega arith;
  accepts = omega arith;
  still = refl;
}

by_tick-room : (k : ℕ) → length ((b'/' ∷ []) ++ (by_tick k).location) < filename_room
by_tick-room k = omega arith

-- Two names of the first three ticks.
by_tick-fresh :
    (j k : ℕ) → j < k → k < 3 → name_of (b'/' ∷ []) by_tick 3 j ≢ name_of (b'/' ∷ []) by_tick 3 k
unfolding slashes
by_tick-fresh j k earlier small e = absurd (ground (arith, e))

transfer_tracks-Stocks_example :
    Ends
      (λ r g.
        IsEmpty g r.0
        × Stocks table table-IsStore table-IsAppending table-KeepsBase three_bytes by_tick
            by_tick-IsGood
            (b'/' ∷ [])
            by_tick-room
            3
            two_tracks
            1
            two_tracks
            (one_item ∷ [])
            queued
            r.1)
      (transfer_tracks table 2 true one_track queued one_track_heap)
unfolding other_ipod items_for track_item rounds_for
transfer_tracks-Stocks_example =
    transfer_tracks-Stocks table table-IsStore table-IsAppending table-KeepsBase three_bytes by_tick
      by_tick-IsGood (b'/' ∷ []) by_tick-room 2 3 two_tracks two_tracks ((1, 1) ∷ []) one_track
      queued one_track_heap one_item [] (ground arith) (inr refl) (ground arith) refl refl refl
      by_tick-fresh one_track-IsList (ground arith, tt) (omega arith) refl (one_item-Ready, tt)
      (omega arith)

remove_tracks_do_delete-Has_example :
    Ends
      (λ r g. IsEmpty g r.0 × Has table 2 two_tracks false queued.pod r.1)
      (remove_tracks_do_delete table 2 one_track queued.pod one_track_heap)
unfolding removed
remove_tracks_do_delete-Has_example =
    remove_tracks_do_delete-Has table 2 two_tracks two_tracks ((1, 1) ∷ []) one_track queued.pod
      one_track_heap refl one_track-IsList (ground arith, tt) (omega arith) refl
