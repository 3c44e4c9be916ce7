-- ===== src/Tests/CopyTests.antt =====
-- The last tick of a copy under way, and one after the remote iPod is unplugged.
use ipod_to_ipod.Base.{[], ◌∷◌, ◌≡◌, refl, arith, inl}
use ipod_to_ipod.Pod.{absent}
use ipod_to_ipod.Transfer.{ok, fault, freed_ipod, zero_bytes_read}
use ipod_to_ipod.Transfer.Aborts.{aborted}
use ipod_to_ipod.Transfer.Stranded.{Stranded, transfer_widget_timer_handler-Stranded}
use ipod_to_ipod.Transfer.Copy.{text_or_empty, finish_if_done, transfer_widget_timer_handler}
use ipod_to_ipod.Transfer.Steps.{copied}
use ipod_to_ipod.Transfer.Finish.{Added, finished}
use ipod_to_ipod.Transfer.Adds.{transfer_widget_timer_handler-Added}
use ipod_to_ipod.Transfer.Unplugged.{polled, transfer_widget_timer_handler-unplugged}
use ipod_to_ipod.Sample.{Table, table, table-IsStore, two_tracks, mounted_world}
use ipod_to_ipod.Sample.Copies.{disk, good_io, io_of-IsGood}
use ipod_to_ipod.Sample.Underway.{item, copying, copying-Copying}

transfer_widget_timer_handler-Added_example :
    (d : Table) × (transfer_widget_timer_handler table good_io copying
      ≡ finish_if_done table [] (
          finished table d
            (b'g' ∷ [], 0 ∷ 1 ∷ 2 ∷ 3 ∷ [])
            item
            []
            (copied table (1 ∷ 2 ∷ 3 ∷ []) (b'g' ∷ [], 0 ∷ []) copying)))
    × Added table two_tracks 0 [] two_tracks d
unfolding copying-Copying text_or_empty
transfer_widget_timer_handler-Added_example =
    transfer_widget_timer_handler-Added table table-IsStore disk good_io copying item []
      (1 ∷ 2 ∷ 3 ∷ []) (b'g' ∷ [], 0 ∷ []) (io_of-IsGood disk) copying-Copying (omega arith)

transfer_widget_timer_handler-unplugged_example :
    transfer_widget_timer_handler table good_io
      (polled table (record mounted_world { connection = absent }) copying)
    ≡ fault freed_ipod
transfer_widget_timer_handler-unplugged_example =
    transfer_widget_timer_handler-unplugged table disk good_io
      (record mounted_world { connection = absent }) copying item [] (1 ∷ 2 ∷ 3 ∷ [])
      (b'g' ∷ [], 0 ∷ []) (io_of-IsGood disk) copying-Copying (omega arith) refl (ground arith)
      (inl refl) refl

transfer_widget_timer_handler-Stranded_example :
    (transfer_widget_timer_handler table
        (record good_io { readable = 0 })
        (polled table (record mounted_world { connection = absent }) copying)
      ≡ ok (
          aborted table zero_bytes_read
            (b'g' ∷ [], 0 ∷ [])
            (polled table (record mounted_world { connection = absent }) copying)))
    × Stranded table (
        aborted table zero_bytes_read
          (b'g' ∷ [], 0 ∷ [])
          (polled table (record mounted_world { connection = absent }) copying))
transfer_widget_timer_handler-Stranded_example =
    transfer_widget_timer_handler-Stranded table (record good_io { readable = 0 })
      (record mounted_world { connection = absent }) copying item [] (1 ∷ 2 ∷ 3 ∷ [])
      (b'g' ∷ [], 0 ∷ []) copying-Copying refl refl refl refl
