-- ===== src/Status/Settles.antt =====
-- The status that the timer of podtopod.c settles at, given what the two polls answer.
pub mod Files
use ipod_to_ipod.Base.{◌≡◌, if◌then◌else◌, arith}
use ipod_to_ipod.Pod.{
  Status, disconnected, unmounted, mounted, transferring, ejected, poll_error, present, truthy, Pod,
  World,
}
use ipod_to_ipod.Status.{rip_icon_timer_handler, new_cycle_status_window}

module _ {Db : Type 0} where
  -- A world in which a further poll of the mount answers as the first did.
  abbrev pub IsStable : World Db → Type 0
  IsStable w = truthy w.mount_poll_again ≡ truthy w.mount_poll

  -- What the polls say of the device, whatever the status was, except that an ejected device stays
  -- so until it is gone, and that a transfer goes on.
  abbrev pub status_of : World Db → Status → Status
  status_of w ejected = if truthy w.connection then ejected else disconnected
  status_of w transferring =
      if truthy w.connection
      then (if truthy w.mount_poll then transferring else unmounted)
      else disconnected
  status_of w _ =
      if truthy w.connection
      then (if truthy w.mount_poll then mounted else unmounted)
      else disconnected

  -- In a stable world one run of the timer handler brings the status to what the polls say.
  pub timer-status :
      (w : World Db) (s : Pod Db)
      → IsStable w
      → (rip_icon_timer_handler w s).rip_status ≡ status_of w s.rip_status
  unfolding rip_icon_timer_handler
  timer-status w s h = ground arith

  -- In a stable world a second run of the timer handler leaves the status as the first made it.
  timer-timer_status :
      (w : World Db) (s : Pod Db)
      → IsStable w
      → (rip_icon_timer_handler w (rip_icon_timer_handler w s)).rip_status
        ≡ (rip_icon_timer_handler w s).rip_status
  timer-timer_status w s h =
      ground (arith, timer-status w s h, timer-status w (rip_icon_timer_handler w s) h)

  -- From any state, the timer handler and the cycle action do after a failed poll (-1) of the
  -- connection and of the mount just what they do after a successful one (1).
  pub timer-poll_error :
      (w : World Db) (s : Pod Db)
      → (rip_icon_timer_handler (record w { connection = poll_error; mount_poll = poll_error }) s
          ≡ rip_icon_timer_handler (record w { connection = present; mount_poll = present }) s)
        × (new_cycle_status_window (record w { mount_poll = poll_error }) s
            ≡ new_cycle_status_window (record w { mount_poll = present }) s)
  unfolding rip_icon_timer_handler new_cycle_status_window
  timer-poll_error w s = (ground arith, ground arith)
