-- ===== src/Status/Menu.antt =====
-- The "/Remote iPod" menu of podtopod.c against the status: which entries are there in any state
-- that the events of podtopod.c lead to.
use ipod_to_ipod.Base.{Bool, ◌≡◌, refl, not, ◌==◌, arith}
use ipod_to_ipod.Pod.{
  null, Entry, remote, music, artists, albums, songs, playlists, Pod, World, shown,
}
use ipod_to_ipod.Status.{
  is_connected, do_eject, rip_icon_timer_handler, new_cycle_status_window, settings_button,
}
use ipod_to_ipod.Status.Events
use ipod_to_ipod.Status.Events.{OpensNew, Step, Reach}
use ipod_to_ipod.Status.Ownership.{IsOwned, Reach-IsOwned}

module _ {Db : Type 0} where
  -- The entries of the device are there while it is connected, those of its music while its
  -- database is open.
  abbrev pub wanted : Pod Db → Entry → Bool
  wanted s music = not (s.remote_ipod == null)
  wanted s artists = not (s.remote_ipod == null)
  wanted s albums = not (s.remote_ipod == null)
  wanted s songs = not (s.remote_ipod == null)
  wanted s playlists = not (s.remote_ipod == null)
  wanted s _ = is_connected s.rip_status

  abbrev Fits : Pod Db → Type 0
  Fits s = (e : Entry) → shown e s.menu ≡ wanted s e

  pub record MenuFits (s : Pod Db) : Type 0 where
    pub fits : (e : Entry) → shown e s.menu ≡ wanted s e

  tick-Fits :
      (w : World Db) (s : Pod Db)
      → OpensNew w s
      → IsOwned s
      → Fits s
      → Fits (rip_icon_timer_handler w s)
  unfolding rip_icon_timer_handler shown
  tick-Fits w s o i m remote = ground (arith, m remote, i.closed, o.ne_null)
  tick-Fits w s o i m e = ground (arith, m e, i.closed, o.ne_null)

  cycle-Fits :
      (w : World Db) (s : Pod Db)
      → OpensNew w s
      → IsOwned s
      → Fits s
      → Fits (new_cycle_status_window w s)
  unfolding new_cycle_status_window shown
  cycle-Fits w s o i m remote = ground (arith, m remote, i.closed, o.ne_null)
  cycle-Fits w s o i m e = ground (arith, m e, i.closed, o.ne_null)

  button-Fits :
      (k : Bool) (w : World Db) (s : Pod Db) → OpensNew w s → Fits s → Fits (settings_button k w s)
  unfolding settings_button shown
  button-Fits k w s o m remote = ground (arith, m remote, o.ne_null)
  button-Fits k w s o m e = ground (arith, m e, o.ne_null)

  eject-Fits : (b : Bool) (w : World Db) (s : Pod Db) → IsOwned s → Fits s → Fits (do_eject b w s)
  unfolding do_eject shown
  eject-Fits b w s i m remote = ground (arith, m remote, i.closed)
  eject-Fits b w s i m e = ground (arith, m e, i.closed)

  -- A change that keeps the menu, the handle and the connection keeps the fit.
  same-Fits :
      (s t : Pod Db)
      → t.menu ≡ s.menu
      → t.remote_ipod ≡ s.remote_ipod
      → is_connected t.rip_status ≡ is_connected s.rip_status
      → Fits s
      → Fits t
  same-Fits s t a b c m remote = ground (arith, m remote)
  same-Fits s t a b c m e = ground (arith, m e)

  Step-Fits : {s t : Pod Db} → Step s t → IsOwned s → Fits s → Fits t
  Step-Fits (Events.tick w o) i m = tick-Fits w _ o i m
  Step-Fits (Events.cycle w o) i m = cycle-Fits w _ o i m
  Step-Fits (Events.button k w o) i m = button-Fits k w _ o m
  Step-Fits {s} (Events.configure r a) i m =
      same-Fits s (record s { rip_music = r; automount = a }) refl refl refl m
  Step-Fits (Events.eject b w) i m = eject-Fits b w _ i m

  -- From a state that is owned (`IsOwned`) and whose menu fits, every sequence of events of podtopod.c
  -- (polls, cycles of the status, the MENU key and the settings button, ejections and changes of the
  -- settings, with no transfer started or ended in between) leads to one whose menu fits: "Remote iPod" and its device entries are there exactly while the status is neither
  -- disconnected nor ejected, and its music entries exactly while a remote database is open.
  pub Reach-MenuFits : {s t : Pod Db} → Reach s t → IsOwned s → MenuFits s → MenuFits t
  Reach-MenuFits Events.here i m = m
  Reach-MenuFits (Events.next r st) i m = record {
    fits = Step-Fits st (Reach-IsOwned r i) (Reach-MenuFits r i m).fits;
  }
