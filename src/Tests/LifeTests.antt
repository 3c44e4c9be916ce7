-- ===== src/Tests/LifeTests.antt =====
-- The header icon, and the module's start and end, on a device that is connected.
use ipod_to_ipod.Base.{ℕ, true, false, none, [], length, ◌≡◌, refl, arith}
use ipod_to_ipod.Pod.{Pod, set_db}
use ipod_to_ipod.Status.{rip_icon_timer_handler}
use ipod_to_ipod.System.{Reach, here, next, poll, begin, press}
use ipod_to_ipod.Transfer.Widget.{
  menu_down, new_transfer_window, menu_button, transfer_widget_event,
}
use ipod_to_ipod.Transfer.Start.{abort_transfer, transfer_finished, free_buffer, flush_dst}
use ipod_to_ipod.Transfer.Session.Reached.{cancelled}
use ipod_to_ipod.Draw.{PzWidget}
use ipod_to_ipod.Icon.{Icon, rip_icon_draw_widget}
use ipod_to_ipod.Icon.Blinks.{shapes, blink_after, rip_icon_draw_widget-shapes}
use ipod_to_ipod.Life.{init_podtopod, cleanup_podtopod}
use ipod_to_ipod.Life.Closes.{init_podtopod-cleanup_podtopod}
use ipod_to_ipod.Transfer.{ok, Transfer}
use ipod_to_ipod.Sample.{Table, table, two_tracks, initial, mounted_world}
use ipod_to_ipod.Sample.Copies.{queued}

abbrev header : PzWidget
header = record { x = 140; y = 0; w = 20; h = 20 }

abbrev first_draw : Icon Table
first_draw = record {
  pod = initial;
  widget = header;
  rip_icon = false;
  timer = none;
  transfer_blink = true;
}

rip_icon_draw_widget-shapes_example :
    ((rip_icon_draw_widget false mounted_world first_draw).0.pod
      ≡ rip_icon_timer_handler mounted_world initial)
    × (length (rip_icon_draw_widget false mounted_world first_draw).1
        ≡ shapes (rip_icon_timer_handler mounted_world initial).rip_status true)
    × ((rip_icon_draw_widget false mounted_world first_draw).0.transfer_blink
        ≡ blink_after (rip_icon_timer_handler mounted_world initial).rip_status true)
    × ((rip_icon_draw_widget false mounted_world first_draw).0.rip_icon ≡ true)
rip_icon_draw_widget-shapes_example = rip_icon_draw_widget-shapes false mounted_world first_draw

abbrev started : Pod Table
started = (init_podtopod true true 1 two_tracks).0

abbrev at_first : Transfer table
at_first = record queued { pod = started }

-- A device is mounted by a poll, and the transfer window opens on the queue, and is aborted.
abbrev underway : Transfer table
underway =
    new_transfer_window table true
      (record queued { pod = rip_icon_timer_handler mounted_world started })

abbrev at_the_end : Transfer table
at_the_end = cancelled table two_tracks underway

whole_life : Reach table at_first at_the_end
unfolding init_podtopod set_db new_transfer_window transfer_widget_event menu_button abort_transfer
    transfer_finished free_buffer flush_dst rip_icon_timer_handler
whole_life =
    next
      (next
        (next here (
          poll mounted_world
            (record { ne_null = ground arith; ne_local = ground arith; unused = refl })))
        (begin true))
      (press menu_down true refl)

init_podtopod-cleanup_podtopod_example :
    (t : Transfer table) × (cleanup_podtopod table at_the_end ≡ ok t)
    × ((p : ℕ) → t.pod.dbs p ≡ none)
    × (t.passed ≡ [])
    × (t.cur_file ≡ [])
init_podtopod-cleanup_podtopod_example =
    init_podtopod-cleanup_podtopod table true true 1 two_tracks at_first at_the_end (ground arith)
      refl whole_life
