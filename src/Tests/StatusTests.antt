-- ===== src/Tests/StatusTests.antt =====
-- The status machine at the states of `Sample`.
use ipod_to_ipod.Base.{◌≡◌, refl, arith, true}
use ipod_to_ipod.Pod.{Entry, mounted, poll_error, present, shown, remote}
use ipod_to_ipod.Status.{rip_icon_timer_handler, new_cycle_status_window, do_eject}
use ipod_to_ipod.Status.Events.{OpensNew, Reach, here, next, tick, eject}
use ipod_to_ipod.Status.Ownership.{IsOwned}
use ipod_to_ipod.Status.Menu.{MenuFits, wanted, Reach-MenuFits}
use ipod_to_ipod.Status.Settles.{timer-status, timer-poll_error}
use ipod_to_ipod.Sample.{initial, mounted_world}

opens : OpensNew mounted_world initial
opens = record { ne_null = omega arith; ne_local = omega arith; unused = refl }

connected_mounts : (rip_icon_timer_handler mounted_world initial).rip_status ≡ mounted
unfolding rip_icon_timer_handler
connected_mounts = refl

initial-IsOwned : IsOwned initial
initial-IsOwned = record {
  local_ne_null = omega arith;
  remote_ne_local = omega arith;
  owned = λ p. ground arith;
  closed = λ h. refl;
}

initial_fits : (e : Entry) → shown e initial.menu ≡ wanted initial e
unfolding shown
initial_fits remote = refl
initial_fits e = refl

initial-MenuFits : MenuFits initial
initial-MenuFits = record { fits = initial_fits }

then_ejected :
    Reach initial (do_eject true mounted_world (rip_icon_timer_handler mounted_world initial))
then_ejected = next (next here (tick mounted_world opens)) (eject true mounted_world)

Reach-MenuFits_example :
    MenuFits (do_eject true mounted_world (rip_icon_timer_handler mounted_world initial))
Reach-MenuFits_example = Reach-MenuFits then_ejected initial-IsOwned initial-MenuFits

timer-status_example : (rip_icon_timer_handler mounted_world initial).rip_status ≡ mounted
timer-status_example = timer-status mounted_world initial refl

timer-poll_error_example :
    (rip_icon_timer_handler
        (record mounted_world { connection = poll_error; mount_poll = poll_error })
        initial
      ≡ rip_icon_timer_handler
          (record mounted_world { connection = present; mount_poll = present })
          initial)
    × (new_cycle_status_window (record mounted_world { mount_poll = poll_error }) initial
        ≡ new_cycle_status_window (record mounted_world { mount_poll = present }) initial)
timer-poll_error_example = timer-poll_error mounted_world initial
