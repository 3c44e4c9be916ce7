-- ===== src/Tests/RunTests.antt =====
-- Whole transfers at the sample.
use ipod_to_ipod.Base.{
  ℕ, ◌≡◌, ◌==◌, true, none, some, take, drop, text_eq, refl, [], ◌∷◌, arith, length, All,
  if◌then◌else◌,
}
use ipod_to_ipod.Transfer.{Outcome, ok, fault, short_write, Item, Io, Transfer}
use ipod_to_ipod.Transfer.Copy.{
  start_if_unnamed, do_copy, finish_if_copied, finish_if_done, finish_track, add_copy,
  transfer_widget_timer_handler,
}
use ipod_to_ipod.Transfer.Attributes.{copy_track_attributes}
use ipod_to_ipod.Transfer.Done.{Done}
use ipod_to_ipod.Transfer.Done.Runs.{run-Done}
use ipod_to_ipod.Transfer.Run.{run}
use ipod_to_ipod.Transfer.Start.{slashes, start_copy, start_next_file}
use ipod_to_ipod.Transfer.Closed.{Faults}
use ipod_to_ipod.Transfer.Refusals.{unreadable-fault, plain-fault}
use ipod_to_ipod.Transfer.Aborts.{aborted, short_write-aborts, empty_file-fault}
use ipod_to_ipod.Transfer.Widget.{new_transfer_window}
use ipod_to_ipod.Sample.{table}
use ipod_to_ipod.Sample.Copies.{good_io, item_a, item_b, queued}

-- The window has opened, on one item.
abbrev windows_item : Item ℕ → Transfer table
windows_item item = record (new_transfer_window table true queued) { cur_file = item ∷ [] }

abbrev nothing_there : Io
nothing_there = record (good_io) { source = λ name. none }

unreadable-fault_example :
    Faults
      (transfer_widget_timer_handler table nothing_there (new_transfer_window table true queued))
unfolding new_transfer_window start_copy
unreadable-fault_example =
    unreadable-fault table nothing_there (new_transfer_window table true queued) item_a
      (item_b ∷ []) refl refl refl

abbrev plain_file : Item ℕ
plain_file = record (item_a) { src_track = none; dst_filename = some (b'c' ∷ []) }

plain-fault_example : Faults (transfer_widget_timer_handler table good_io (windows_item plain_file))
unfolding new_transfer_window start_copy
plain-fault_example =
    plain-fault table good_io (windows_item plain_file) plain_file [] refl refl refl

-- A copy of three bytes of which the outside takes two.
abbrev item_open : Item ℕ
item_open = record (item_a) { dst_filename = some (b'c' ∷ []) }

abbrev copy_open : Transfer table
copy_open = record (windows_item item_open) {
  src_file = some (1 ∷ 2 ∷ 3 ∷ []);
  dst_file = some (b'c' ∷ [], []);
}

short_write-aborts_example :
    transfer_widget_timer_handler table (record (good_io) { accepted = 2 }) copy_open
    ≡ ok (aborted table short_write (b'c' ∷ [], 1 ∷ 2 ∷ []) copy_open)
unfolding new_transfer_window start_copy take
short_write-aborts_example =
    short_write-aborts table (record (good_io) { accepted = 2 }) copy_open item_open []
      (1 ∷ 2 ∷ 3 ∷ []) (b'c' ∷ [], []) refl refl refl refl refl (omega arith) (omega arith) refl
      refl

abbrev item_empty : Item ℕ
item_empty = record (item_open) { filesize = 0 }

abbrev copy_empty : Transfer table
copy_empty = record (windows_item item_empty) {
  src_file = some [];
  dst_file = some (b'c' ∷ [], []);
}

empty_file-fault_example : Faults (transfer_widget_timer_handler table good_io copy_empty)
unfolding new_transfer_window start_copy
empty_file-fault_example =
    empty_file-fault table good_io copy_empty item_empty [] refl refl refl refl refl refl

-- The first file is copied; the write of the second one is cut short.
abbrev failing : ℕ → Io
failing k = if k == 0 then good_io else record (good_io) { accepted = 0 }

abbrev ended : Outcome (Transfer table) → Transfer table
ended (ok t) = t
ended (fault e) = queued

abbrev failing_run : Outcome (Transfer table)
failing_run = run table failing 0 2 (new_transfer_window table true queued)

failing_run_passes : length (ended failing_run).passed ≡ 1
unfolding run transfer_widget_timer_handler new_transfer_window start_if_unnamed start_next_file
    do_copy finish_if_copied finish_if_done finish_track add_copy copy_track_attributes take drop
    text_eq slashes
failing_run_passes = refl

failing_run_ok : failing_run ≡ ok (ended failing_run)
unfolding run transfer_widget_timer_handler new_transfer_window start_if_unnamed start_next_file
    do_copy finish_if_copied finish_if_done finish_track add_copy copy_track_attributes take drop
    text_eq slashes
failing_run_ok = refl

run-Done_example : All (Done table failing (ended failing_run).written) (ended failing_run).passed
run-Done_example = run-Done table failing queued (ended failing_run) 2 refl refl failing_run_ok
