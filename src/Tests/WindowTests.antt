-- ===== src/Tests/WindowTests.antt =====
-- The popup, the browser's action and the desktop's polls at concrete inputs.
use ipod_to_ipod.Base.{
  text_eq, ℕ, ◌+◌, ◌<◌, ◌≤◌, true, Bool, none, some, [], ◌∷◌, ◌++◌, Text, length, ◌≡◌, refl, arith,
}
use ipod_to_ipod.Pod.{null, mounted, present}
use ipod_to_ipod.Link.{Heap, Run, at}
use ipod_to_ipod.Link.Chain.{IsList, cons, nil, holds}
use ipod_to_ipod.ListUtils.{TrackList}
use ipod_to_ipod.ListUtils.Matches.{Ends}
use ipod_to_ipod.TransferMenu.Removes.{removed}
use ipod_to_ipod.Actions.{up_one, do_nothing, no, yes, remove_tracks, choose_answer}
use ipod_to_ipod.Actions.Asks.{Removed, remove_tracks-Removed}
use ipod_to_ipod.Browser.{last_byte, browser_transfer}
use ipod_to_ipod.Browser.Paths.{browser_transfer-path}
use ipod_to_ipod.Transfer.{fault, ok, overflow}
use ipod_to_ipod.Polls.{starts_with}
use ipod_to_ipod.Polls.Sysfs.{Device, poll_connection}
use ipod_to_ipod.Polls.Sysfs.Accepts.{HasLines, is_line, any_accepted, poll_connection-any_accepted}
use ipod_to_ipod.Sample.{table, two_tracks, initial, mounted_world}
use ipod_to_ipod.Status.{rip_icon_timer_handler}
use ipod_to_ipod.Status.Settles.Files.{Reads, timer-settled}
use ipod_to_ipod.Polls.Mounts.{Mount, IsMount, mount_of, poll_mount-mounts}

-- A list of the track 1 of the local iPod.
abbrev local_track : TrackList
local_track = record { list = record { head = 1; tail = some 1 }; ipod = 1 }

abbrev local_heap : Heap ℕ
local_heap = (1, some (record { item = 1; next = null })) ∷ []

local_track-IsList : IsList local_heap local_track.list ((1, 1) ∷ [])
unfolding at holds
local_track-IsList = record { chain = cons (ground arith) refl refl nil; last = refl }

remove_tracks-Removed_example :
    (choose_answer table 2 no (remove_tracks local_track) initial local_heap
      ≡ Run.ok (initial, up_one) local_heap)
    × Ends
        (λ r g. Removed table 1 two_tracks true initial r)
        (choose_answer table 2 yes (remove_tracks local_track) initial local_heap)
unfolding removed
remove_tracks-Removed_example =
    remove_tracks-Removed table 2 two_tracks two_tracks ((1, 1) ∷ []) local_track initial local_heap
      refl local_track-IsList (ground arith, tt) (omega arith) refl

-- In "/a", the file "b".
abbrev slashed_a : Text
slashed_a = b'/' ∷ b'a' ∷ b'/' ∷ []

browser_transfer-path_example :
    (length slashed_a + 1 < 512
      → (used : Bool) × (browser_transfer (some (b'/' ∷ b'a' ∷ [])) mounted (some (b'b' ∷ []))
          ≡ ok (do_nothing, some (slashed_a ++ b'b' ∷ [], used), true)))
    × (512 ≤ length slashed_a + 1
        → browser_transfer (some (b'/' ∷ b'a' ∷ [])) mounted (some (b'b' ∷ [])) ≡ fault overflow)
unfolding last_byte
browser_transfer-path_example =
    browser_transfer-path (b'/' ∷ b'a' ∷ []) (b'b' ∷ []) mounted b'a' refl (omega arith)

-- The parent entry of the directory, and an iPod of Apple's.
abbrev dots : Device
dots = record { d_name = b'.' ∷ b'.' ∷ []; model = none; vendor = none }

abbrev ipod_device : Device
ipod_device = record {
  d_name = b'0' ∷ [];
  model = some (b'i' ∷ b'P' ∷ b'o' ∷ b'd' ∷ b' ' ∷ b'\n' ∷ []);
  vendor = some (b'A' ∷ b'p' ∷ b'p' ∷ b'l' ∷ b'e' ∷ b'\n' ∷ []);
}

dots-HasLines : HasLines dots
dots-HasLines = record { model = tt; vendor = tt }

ipod_device-HasLines : HasLines ipod_device
ipod_device-HasLines = record { model = is_line (ground arith); vendor = is_line (ground arith) }

poll_connection-any_accepted_example : poll_connection (some (dots ∷ ipod_device ∷ [])) ≡ ok present
unfolding any_accepted starts_with
poll_connection-any_accepted_example =
    poll_connection-any_accepted (dots ∷ ipod_device ∷ [])
      (dots-HasLines, (ipod_device-HasLines, tt))

-- "b m x"
abbrev rip_mount : Mount
rip_mount = record { device = b'b' ∷ []; mountpoint = b'm' ∷ []; others = b'x' ∷ [] }

rip_mount-IsMount : IsMount rip_mount
rip_mount-IsMount = record {
  device_clean = (ground arith, tt);
  mountpoint_clean = (ground arith, tt);
  others_clean = (ground arith, tt);
  fits = omega arith;
}

files-Reads :
    Reads 2 (dots ∷ ipod_device ∷ []) (rip_mount ∷ []) (b'b' ∷ []) (b'm' ∷ []) mounted_world
unfolding any_accepted starts_with mount_of text_eq
files-Reads = record {
  connection =
      poll_connection-any_accepted (dots ∷ ipod_device ∷ [])
        (dots-HasLines, (ipod_device-HasLines, tt));
  mount =
      poll_mount-mounts 2 (rip_mount ∷ []) (b'b' ∷ []) (b'm' ∷ []) (rip_mount-IsMount, tt)
        (omega arith);
  again = refl;
}

timer-settled_example : (rip_icon_timer_handler mounted_world initial).rip_status ≡ mounted
unfolding any_accepted starts_with mount_of text_eq
timer-settled_example =
    timer-settled 2 (dots ∷ ipod_device ∷ []) (rip_mount ∷ []) (b'b' ∷ []) (b'm' ∷ []) mounted_world
      initial (dots-HasLines, (ipod_device-HasLines, tt)) (rip_mount-IsMount, tt) (omega arith)
      files-Reads
