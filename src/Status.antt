-- ===== src/Status.antt =====
-- The status transitions of podtopod.c and the mounting commands of connect.c. A handler takes the
-- state and returns the new one; `World` holds what the polls and libipod answer meanwhile. The
-- flag `ipod_build` says whether `IPOD` is defined.
pub mod Events
pub mod Menu
pub mod Ownership
pub mod Settles
use ipod_to_ipod.Base.{Bool, true, false, none, some, ◌∷◌, ◌&&◌, not, ◌==◌, if◌then◌else◌}
use ipod_to_ipod.Pod.{
  null, Status, disconnected, unmounted, mounted, transferring, ejected, truthy, remote, browse,
  info, eject, mount, unmount, music, artists, albums, songs, playlists, add, remove,
  rip_already_opened, no_remote_itunes_db, no_rip_to_close, run_mount, run_umount, run_rmmod,
  run_modprobe, run_eject, Pod, World, set_db,
}

-- `is_connected`, `is_mounted` and `is_unmounted` on the status.
abbrev pub is_connected : Status → Bool
is_connected disconnected = false
is_connected ejected = false
is_connected _ = true

abbrev pub is_disconnected : Status → Bool
is_disconnected st = not (is_connected st)

abbrev pub is_mounted : Status → Bool
is_mounted mounted = true
is_mounted transferring = true
is_mounted _ = false

abbrev pub is_unmounted : Status → Bool
is_unmounted unmounted = true
is_unmounted _ = false

module _ {Db : Type 0} where
  unfoldable pub do_mount : Pod Db → Pod Db
  do_mount s = record s { commands = run_mount ∷ s.commands }

  unfoldable pub do_unmount : World Db → Pod Db → Pod Db
  do_unmount w s =
      if truthy w.mount_poll then record s { commands = run_umount ∷ s.commands } else s

  -- The guards come first, as early returns do.
  unfoldable pub load_rip_music : World Db → Pod Db → Pod Db
  load_rip_music w s =
      if not (s.remote_ipod == null)
      then record s { messages = rip_already_opened ∷ s.messages }
      else if not w.has_db
      then record s { messages = no_remote_itunes_db ∷ s.messages }
      else record s {
        remote_ipod = w.opened;
        dbs = set_db s.dbs w.opened (some w.opened_db);
        menu = add playlists ∷ add songs ∷ add albums ∷ add artists ∷ add music ∷ s.menu;
      }

  unfoldable pub close_rip_music : Pod Db → Pod Db
  close_rip_music s =
      if s.remote_ipod == null
      then record s { messages = no_rip_to_close ∷ s.messages }
      else record s {
        menu =
            remove music
            ∷ remove playlists
            ∷ remove songs
            ∷ remove albums
            ∷ remove artists
            ∷ s.menu;
        dbs = set_db s.dbs s.remote_ipod none;
        remote_ipod = null;
      }

  unfoldable pub ipod_status_mounted : World Db → Pod Db → Pod Db
  unfolding load_rip_music
  ipod_status_mounted w s =
      let s' = record s { rip_status = mounted } in if s.rip_music then load_rip_music w s' else s'

  unfoldable pub ipod_status_unmounted : Pod Db → Pod Db
  unfolding close_rip_music
  ipod_status_unmounted s =
      let s' = record s { rip_status = unmounted } in
      if s.remote_ipod == null then s' else close_rip_music s'

  -- The actions added by `ipod_status_connected`, before it polls the mount.
  unfoldable pub add_menu : Pod Db → Pod Db
  add_menu s = record s {
    rip_status = unmounted;
    menu = add unmount ∷ add mount ∷ add eject ∷ add info ∷ add browse ∷ add remote ∷ s.menu;
  }

  unfoldable pub ipod_status_connected : World Db → Pod Db → Pod Db
  unfolding add_menu ipod_status_mounted do_mount
  ipod_status_connected w s =
      let s' = add_menu s in
      if truthy w.mount_poll
      then ipod_status_mounted w s'
      else if s.automount
      then (if truthy w.mount_poll_again then ipod_status_mounted w (do_mount s') else do_mount s')
      else s'

  -- The part of `ipod_status_disconnected` after its guard.
  unfoldable pub remove_menu : Pod Db → Pod Db
  remove_menu s = record s {
    rip_status = disconnected;
    menu =
        remove remote
        ∷ remove unmount
        ∷ remove mount
        ∷ remove eject
        ∷ remove info
        ∷ remove browse
        ∷ s.menu;
  }

  -- Its guard: the music is closed on leaving any other status than these two.
  leave_status : Status → Pod Db → Pod Db
  unfolding ipod_status_unmounted
  leave_status unmounted s = s
  leave_status ejected s = s
  leave_status _ s = ipod_status_unmounted s

  unfoldable pub ipod_status_disconnected : Pod Db → Pod Db
  unfolding remove_menu leave_status
  ipod_status_disconnected s = remove_menu (leave_status s.rip_status s)

  unfoldable pub ipod_status_ejected : Pod Db → Pod Db
  unfolding ipod_status_disconnected
  ipod_status_ejected s = record (ipod_status_disconnected s) { rip_status = ejected }

  eject_commands : Bool → Pod Db → Pod Db
  eject_commands ipod_build s = record s {
    commands = if ipod_build then run_modprobe ∷ run_rmmod ∷ s.commands else run_eject ∷ s.commands;
  }

  unmount_first : Status → World Db → Pod Db → Pod Db
  unfolding do_unmount
  unmount_first mounted w s = do_unmount w s
  unmount_first _ w s = s

  unfoldable pub do_eject : Bool → World Db → Pod Db → Pod Db
  unfolding unmount_first eject_commands ipod_status_ejected
  do_eject ipod_build w s =
      ipod_status_ejected (eject_commands ipod_build (unmount_first s.rip_status w s))

  -- `rip_icon_timer_handler`, by the status it finds.
  poll_from : Status → World Db → Pod Db → Pod Db
  unfolding ipod_status_connected ipod_status_disconnected ipod_status_mounted ipod_status_unmounted
  poll_from disconnected w s = if truthy w.connection then ipod_status_connected w s else s
  poll_from unmounted w s =
      if not (truthy w.connection)
      then ipod_status_disconnected s
      else if truthy w.mount_poll
      then ipod_status_mounted w s
      else s
  poll_from mounted w s =
      if not (truthy w.connection)
      then ipod_status_disconnected s
      else if not (truthy w.mount_poll)
      then ipod_status_unmounted s
      else s
  poll_from transferring w s =
      if not (truthy w.connection)
      then ipod_status_disconnected s
      else if not (truthy w.mount_poll)
      then ipod_status_unmounted s
      else s
  poll_from ejected w s = if not (truthy w.connection) then ipod_status_disconnected s else s

  unfoldable pub rip_icon_timer_handler : World Db → Pod Db → Pod Db
  unfolding poll_from
  rip_icon_timer_handler w s = poll_from s.rip_status w s

  cycle_from : Status → World Db → Pod Db → Pod Db
  unfolding ipod_status_connected ipod_status_disconnected ipod_status_mounted
  cycle_from disconnected w s = ipod_status_connected w s
  cycle_from unmounted w s = ipod_status_mounted w s
  cycle_from mounted w s = record s { rip_status = transferring }
  cycle_from transferring w s = ipod_status_disconnected s
  cycle_from ejected w s = s

  unfoldable pub new_cycle_status_window : World Db → Pod Db → Pod Db
  unfolding cycle_from
  new_cycle_status_window w s = cycle_from s.rip_status w s

  -- `settings_button` when the key is TTK_BUTTON_MENU; any other key changes nothing here.
  settings_from : Status → World Db → Pod Db → Pod Db
  unfolding load_rip_music close_rip_music
  settings_from mounted w s =
      if s.rip_music && (s.remote_ipod == null)
      then load_rip_music w s
      else if not s.rip_music && not (s.remote_ipod == null)
      then close_rip_music s
      else s
  settings_from _ w s = s

  unfoldable pub settings_button : Bool → World Db → Pod Db → Pod Db
  unfolding settings_from
  settings_button key_is_menu w s = if key_is_menu then settings_from s.rip_status w s else s
