-- ===== src/System.antt =====
-- The module as a whole: the events of podtopod.c and those of the transfer window, in any order, on
-- the state that they share.
pub mod Handlers
pub mod Owned
pub mod Removes
pub mod Touches
use ipod_to_ipod.Base.{ℕ, Bool, true, Option, Text, ◌≡◌}
use ipod_to_ipod.Pod.{Ptr, Pod, World}
use ipod_to_ipod.Link.{Heap, Run}
use ipod_to_ipod.ListUtils.{TrackList}
use ipod_to_ipod.TransferMenu.{remove_tracks_do_delete}
use ipod_to_ipod.Libipod.{Libipod}
use ipod_to_ipod.Status.{rip_icon_timer_handler, new_cycle_status_window, settings_button, do_eject}
use ipod_to_ipod.Status.Events.{OpensNew}
use ipod_to_ipod.Transfer.{ok, Io, Transfer}
use ipod_to_ipod.Transfer.Copy.{transfer_widget_timer_handler}
use ipod_to_ipod.Transfer.Queue.{
  transfer_list_reset, transfer_list_add_file, transfer_list_add_track,
}
use ipod_to_ipod.Transfer.Widget.{Event, new_transfer_window, transfer_widget_event}

module _ (lib : Libipod) where
  open lib use {Db}

  -- The events of podtopod.c, then those of transfer.c ("Transfer" is a reset, the additions of tracks
  -- and the opening of the window). Those that end in a fault have no state after them.
  pub data Step : Transfer lib → Transfer lib → Type 0 where
    poll :
        {s : Transfer lib} (w : World Db)
        → OpensNew w s.pod
        → Step s (record s { pod = rip_icon_timer_handler w s.pod })
    cycle :
        {s : Transfer lib} (w : World Db)
        → OpensNew w s.pod
        → Step s (record s { pod = new_cycle_status_window w s.pod })
    settings :
        {s : Transfer lib} (key_is_menu : Bool) (w : World Db)
        → OpensNew w s.pod
        → Step s (record s { pod = settings_button key_is_menu w s.pod })
    configure :
        {s : Transfer lib} (rip_music automount : Bool)
        → Step s
            (record s { pod = record (s.pod) { rip_music = rip_music; automount = automount } })
    eject :
        {s : Transfer lib} (ipod_build : Bool) (w : World Db)
        → Step s (record s { pod = do_eject ipod_build w s.pod })
    remove :
        {s : Transfer lib} (fuel : ℕ) (tracks : TrackList) (rest : Option TrackList) (p : Pod Db)
        (h g : Heap ℕ)
        → remove_tracks_do_delete lib fuel tracks s.pod h ≡ Run.ok (rest, p) g
        → Step s (record s { pod = p })
    reset : {s : Transfer lib} (src dst : Ptr) → Step s (transfer_list_reset lib src dst s)
    add_file :
        {s : Transfer lib} (from : Text) (to : Option Text) (size : ℕ)
        → Step s (transfer_list_add_file lib from to size s)
    add_track :
        {s t : Transfer lib} (track_id : ℕ)
        → transfer_list_add_track lib track_id s ≡ ok t
        → Step s t
    begin : {s : Transfer lib} (got_buffer : Bool) → Step s (new_transfer_window lib got_buffer s)
    tick :
        {s t : Transfer lib} (io : Io)
        → s.timer ≡ true
        → transfer_widget_timer_handler lib io s ≡ ok t
        → Step s t
    press :
        {s t : Transfer lib} (e : Event) (agreed : Bool)
        → transfer_widget_event lib e agreed s ≡ ok t
        → Step s t

  pub data Reach (s : Transfer lib) : Transfer lib → Type 0 where
    here : Reach s s
    next : {t u : Transfer lib} → Reach s t → Step t u → Reach s u
