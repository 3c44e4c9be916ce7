-- ===== src/Transfer/Session/Outside.antt =====
-- What the handlers of podtopod.c do while a transfer window is open: they never make the status
-- transferring, so their runs are steps of a session.
use ipod_to_ipod.Base.{Bool, ◌≡◌, arith}
use ipod_to_ipod.Pod.{Pod, World, transferring}
use ipod_to_ipod.Libipod.{Libipod}
use ipod_to_ipod.Status.{rip_icon_timer_handler, do_eject, settings_button}
use ipod_to_ipod.Transfer.{Transfer}
use ipod_to_ipod.Transfer.Session.{Step, outside}

module _ {Db : Type 0} where
  timer-idle :
      (w : World Db) (p : Pod Db)
      → (rip_icon_timer_handler w p).rip_status ≡ transferring
      → p.rip_status ≡ transferring
  unfolding rip_icon_timer_handler
  timer-idle w p busy = ground (arith, busy)

  eject-idle :
      (ipod_build : Bool) (w : World Db) (p : Pod Db)
      → (do_eject ipod_build w p).rip_status ≡ transferring
      → p.rip_status ≡ transferring
  unfolding do_eject
  eject-idle ipod_build w p busy = ground (arith, busy)

  settings-idle :
      (key_is_menu : Bool) (w : World Db) (p : Pod Db)
      → (settings_button key_is_menu w p).rip_status ≡ transferring
      → p.rip_status ≡ transferring
  unfolding settings_button
  settings-idle key_is_menu w p busy = ground (arith, busy)

module _ (lib : Libipod) where
  open lib use {Db}

  pub timer-Step :
      (w : World Db) (s : Transfer lib)
      → Step lib s (record s { pod = rip_icon_timer_handler w s.pod })
  timer-Step w s = outside (rip_icon_timer_handler w s.pod) (timer-idle w s.pod)

  pub eject-Step :
      (ipod_build : Bool) (w : World Db) (s : Transfer lib)
      → Step lib s (record s { pod = do_eject ipod_build w s.pod })
  eject-Step ipod_build w s = outside (do_eject ipod_build w s.pod) (eject-idle ipod_build w s.pod)

  pub settings-Step :
      (key_is_menu : Bool) (w : World Db) (s : Transfer lib)
      → Step lib s (record s { pod = settings_button key_is_menu w s.pod })
  settings-Step key_is_menu w s =
      outside (settings_button key_is_menu w s.pod) (settings-idle key_is_menu w s.pod)
