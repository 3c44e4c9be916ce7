-- ===== src/Transfer/Widget.antt =====
-- The transfer window of transfer.c: how it opens, its events, how it closes. What closing a window
-- does to its timer is podzilla's; the model leaves the timer as it is.
use ipod_to_ipod.Base.{Bool, true, false}
use ipod_to_ipod.Pod.{null, Status, transferring}
use ipod_to_ipod.Libipod.{Libipod}
use ipod_to_ipod.Transfer.{Outcome, ok, Transfer}
use ipod_to_ipod.Transfer.Queue.{transfer_list_reset}
use ipod_to_ipod.Transfer.Start.{start_copy, abort_transfer}

-- `ev->type`, with `ev->arg` of a button.
pub data Event : Type 0 where
  menu_down other_down button_up destroy other_event : Event

module _ (lib : Libipod) where
  open lib use {Db}

  -- `got_buffer` says whether `malloc` returns the buffer of the transfer.
  unfoldable pub new_transfer_window : Bool → Transfer lib → Transfer lib
  unfolding start_copy
  new_transfer_window got_buffer s =
      start_copy lib got_buffer (record s { timer = true; window = true })

  unfoldable pub close_transfer : Transfer lib → Transfer lib
  unfolding transfer_list_reset
  close_transfer s = record (transfer_list_reset lib null null s) { window = false }

  -- The MENU button: a transfer is aborted if the dialog says so, any other window is closed.
  unfoldable pub menu_button : Status → Bool → Transfer lib → Outcome (Transfer lib)
  unfolding abort_transfer close_transfer
  menu_button transferring true s = abort_transfer lib s
  menu_button transferring false s = ok s
  menu_button _ agreed s = ok (close_transfer s)

  -- `agreed` says whether the dialog is answered with "Yes".
  unfoldable pub transfer_widget_event : Event → Bool → Transfer lib → Outcome (Transfer lib)
  unfolding menu_button
  transfer_widget_event menu_down agreed s = menu_button s.pod.rip_status agreed s
  transfer_widget_event _ agreed s = ok s
