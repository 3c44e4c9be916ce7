-- ===== src/Status/Events.antt =====
-- The events of podtopod.c that drive its status, and the states that they lead to: the timer, the
-- menu actions and a change of the settings. `System` has those of transfer.c too.
use ipod_to_ipod.Base.{Bool, none, ◌≡◌, ◌≢◌}
use ipod_to_ipod.Pod.{null, Pod, World}
use ipod_to_ipod.Status.{rip_icon_timer_handler, new_cycle_status_window, settings_button, do_eject}

-- `ipod_new` returns a new handle: neither `NULL` nor one that is in use.
pub record OpensNew {Db : Type 0} (w : World Db) (s : Pod Db) : Type 0 where
  pub ne_null : w.opened ≢ null
  pub ne_local : w.opened ≢ s.local_ipod
  pub unused : s.dbs w.opened ≡ none

module _ {Db : Type 0} where
  pub data Step (s : Pod Db) : Pod Db → Type 0 where
    tick : (w : World Db) → OpensNew w s → Step s (rip_icon_timer_handler w s)
    cycle : (w : World Db) → OpensNew w s → Step s (new_cycle_status_window w s)
    button :
        (key_is_menu : Bool) (w : World Db)
        → OpensNew w s
        → Step s (settings_button key_is_menu w s)
    configure :
        (rip_music automount : Bool)
        → Step s (record s { rip_music = rip_music; automount = automount })
    eject : (ipod_build : Bool) (w : World Db) → Step s (do_eject ipod_build w s)

  pub data Reach (s : Pod Db) : Pod Db → Type 0 where
    here : Reach s s
    next : {t u : Pod Db} → Reach s t → Step t u → Reach s u
