-- ===== src/Tests/SessionTests.antt =====
-- The transfer window on the queue of the sample: opened, two steps on, and aborted.
use ipod_to_ipod.Base.{arith, ◌≢◌, refl, true, false, some, text_eq, take, drop, [], ◌∷◌}
use ipod_to_ipod.Pod.{World, absent}
use ipod_to_ipod.Status.{rip_icon_timer_handler}
use ipod_to_ipod.Status.Ownership.{IsOwned}
use ipod_to_ipod.System
use ipod_to_ipod.System.Owned.{System-IsOwned}
use ipod_to_ipod.Transfer.{fault, double_free, short_write, Io, Transfer}
use ipod_to_ipod.Transfer.Copy.{
  start_if_unnamed, do_copy, finish_if_copied, transfer_widget_timer_handler,
}
use ipod_to_ipod.Transfer.Start.{start_next_file, slashes}
use ipod_to_ipod.Transfer.Aborts.{aborted}
use ipod_to_ipod.Transfer.Run.{run, sizes}
use ipod_to_ipod.Transfer.Widget.{
  menu_down, menu_button, new_transfer_window, transfer_widget_event,
}
use ipod_to_ipod.Transfer.Session.{Reach, IsSound, here, next, begin, press, tick}
use ipod_to_ipod.Transfer.Session.Reached.{Reach-IsSound, Reach-frees_once}
use ipod_to_ipod.Sample.{Table, mounted_world, table}
use ipod_to_ipod.Sample.Copies.{good_io, item_a, item_b, queued}

queued-IsSound : IsSound table queued
unfolding sizes
queued-IsSound = record {
  files = refl;
  bytes = refl;
  busy = λ h. absurd (cc h);
  timed = λ o a. absurd (cc o);
  closed = λ h. (refl, refl);
  files_done = λ o a. absurd (cc o);
  bytes_done = λ o a. absurd (cc o);
}

-- The window has opened, and its MENU button has been pressed without agreeing to an abort.
abbrev underway : Transfer table
underway = new_transfer_window table true queued

queued-Reach : Reach table queued underway
unfolding transfer_widget_event menu_button new_transfer_window
queued-Reach = next (next here (begin true refl)) (press menu_down false refl refl)

-- A tick whose first write takes two of three bytes aborts the transfer.
abbrev cut_off : Io
cut_off = record (good_io) { accepted = 2 }

abbrev cut_short : Transfer table
cut_short =
    aborted table short_write (b'/' ∷ b'/' ∷ b'x' ∷ [], 1 ∷ 2 ∷ [])
      (record underway {
        cur_file =
            record (item_a) {
              dst_filename = some (b'/' ∷ b'/' ∷ b'x' ∷ []);
              dst_location = some (b':' ∷ b'x' ∷ []);
            }
            ∷ item_b
            ∷ [];
      })

cut_short-Reach : Reach table queued cut_short
unfolding transfer_widget_timer_handler start_next_file start_if_unnamed new_transfer_window do_copy
    finish_if_copied slashes text_eq take drop
cut_short-Reach = next queued-Reach (tick cut_off refl refl refl)

Reach-IsSound_example : IsSound table cut_short
Reach-IsSound_example = Reach-IsSound table cut_short-Reach queued-IsSound

Reach-frees_once_example :
    (run table (λ k. good_io) 0 1 cut_short ≢ fault double_free)
    × (transfer_widget_event table menu_down true cut_short ≢ fault double_free)
unfolding new_transfer_window
Reach-frees_once_example =
    Reach-frees_once table (λ k. good_io) menu_down true cut_short-Reach queued-IsSound refl

queued-IsOwned : IsOwned queued.pod
queued-IsOwned = record {
  local_ne_null = ground arith;
  remote_ne_local = ground arith;
  owned = λ p. ground arith;
  closed = λ h. absurd (cc h);
}

-- The remote iPod is unplugged after the transfer.
abbrev unplugged_world : World Table
unplugged_world = record mounted_world { connection = absent; opened = 3 }

abbrev unplugged : Transfer table
unplugged = record cut_short { pod = rip_icon_timer_handler unplugged_world cut_short.pod }

unplugged-Reach : System.Reach table queued unplugged
unfolding transfer_widget_timer_handler start_next_file start_if_unnamed new_transfer_window do_copy
    finish_if_copied slashes text_eq take drop
unplugged-Reach =
    System.next
      (System.next (System.next System.here (System.begin true)) (System.tick cut_off refl refl))
      (System.poll unplugged_world
        (record { ne_null = ground arith; ne_local = ground arith; unused = refl }))

System-IsOwned_example : IsOwned unplugged.pod
System-IsOwned_example = System-IsOwned table unplugged-Reach queued-IsOwned
