-- ===== src/Status/Settles/Files.antt =====
-- The status that the timer settles at, by the files that a desktop's polls read.
use ipod_to_ipod.Base.{
  ℕ, ◌<◌, Bool, true, false, some, List, Text, length, All, ◌≡◌, refl, ap, sym, ◌∙◌, arith,
  if◌then◌else◌,
}
use ipod_to_ipod.Pod.{
  Status, disconnected, unmounted, mounted, transferring, ejected, Poll, absent, present, truthy,
  Pod, World,
}
use ipod_to_ipod.Status.{rip_icon_timer_handler}
use ipod_to_ipod.Status.Settles.{status_of, timer-status}
use ipod_to_ipod.Transfer.{ok}
use ipod_to_ipod.Polls.{poll_mount}
use ipod_to_ipod.Polls.Mounts.{Mount, IsMount, mounts, mount_of, poll_mount-mounts}
use ipod_to_ipod.Polls.Sysfs.{Device, poll_connection}
use ipod_to_ipod.Polls.Sysfs.Accepts.{HasLines, any_accepted, poll_connection-any_accepted}

-- The polls of a world answer what they read: the devices in sysfs, and the table of mounts, which
-- stays as it is.
pub record Reads {Db : Type 0} (fuel : ℕ) (devices : List Device) (ms : List Mount)
    (device mountpoint : Text) (w : World Db) : Type 0 where
  pub connection : poll_connection (some devices) ≡ ok w.connection
  pub mount : poll_mount fuel (some (mounts ms)) device mountpoint ≡ some (ok w.mount_poll)
  pub again : w.mount_poll_again ≡ w.mount_poll

-- The status, by whether an iPod is among the devices, and whether the table has its device.
abbrev pub settled : (connected listed : Bool) → Status → Status
settled connected listed ejected = if connected then ejected else disconnected
settled connected listed transferring =
    if connected then (if listed then transferring else unmounted) else disconnected
settled connected listed _ =
    if connected then (if listed then mounted else unmounted) else disconnected

abbrev poll_of : Bool → Poll
poll_of b = if b then present else absent

truthy-poll_of : (b : Bool) → truthy (poll_of b) ≡ b
truthy-poll_of true = refl
truthy-poll_of false = refl

module _ {Db : Type 0} where
  status_of-settled :
      (w : World Db) (st : Status) (connected listed : Bool)
      → truthy w.connection ≡ connected
      → truthy w.mount_poll ≡ listed
      → status_of w st ≡ settled connected listed st
  status_of-settled w disconnected connected listed c l = rw (c, l) refl
  status_of-settled w unmounted connected listed c l = rw (c, l) refl
  status_of-settled w mounted connected listed c l = rw (c, l) refl
  status_of-settled w transferring connected listed c l = rw (c, l) refl
  status_of-settled w ejected connected listed c l = rw c refl

  -- Where the polls read well-formed files, a run of the timer handler brings the status to what the
  -- files say: disconnected unless some device in sysfs is an iPod by its files; else mounted if the
  -- table of mounts has a line for the device, at the expected place or not, and unmounted if it has
  -- none; except that an ejected device stays so until it is gone, and that a transfer goes on while
  -- the table has its device. The table's lines fit the buffer, and the fuel exceeds their number.
  pub timer-settled :
      (fuel : ℕ) (devices : List Device) (ms : List Mount) (device mountpoint : Text) (w : World Db)
      (s : Pod Db)
      → All HasLines devices
      → All IsMount ms
      → length ms < fuel
      → Reads fuel devices ms device mountpoint w
      → (rip_icon_timer_handler w s).rip_status
        ≡ settled (any_accepted devices) (truthy (mount_of ms device mountpoint)) s.rip_status
  timer-settled fuel devices ms device mountpoint w s lines are enough reads =
      let seen = sym reads.connection ∙ poll_connection-any_accepted devices lines in
      let read = sym reads.mount ∙ poll_mount-mounts fuel ms device mountpoint are enough in
      let connected : w.connection ≡ poll_of (any_accepted devices) = ground arith in
      let listed : w.mount_poll ≡ mount_of ms device mountpoint = ground arith in
      timer-status w s (ap truthy reads.again)
      ∙ status_of-settled w s.rip_status (any_accepted devices)
          (truthy (mount_of ms device mountpoint))
          (ap truthy connected ∙ truthy-poll_of (any_accepted devices)) (ap truthy listed)
