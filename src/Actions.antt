-- ===== src/Actions.antt =====
-- The small actions of podtopod.c and connect.c that menus call: mounting and ejecting, the question
-- before tracks are removed, and queueing for mpd.
pub mod Asks
use ipod_to_ipod.Base.{
  ℕ, ◌+◌, Bool, true, false, Option, none, some, List, [], ◌∷◌, ◌++◌, ◌&&◌, not, Text, length, ltb,
  text_eq, ◌==◌, if◌then◌else◌,
}
use ipod_to_ipod.Pod.{Ptr, Status, mounted, Pod, World}
use ipod_to_ipod.Libipod.{Libipod}
use ipod_to_ipod.Status.{do_mount, do_unmount, do_eject}
use ipod_to_ipod.Link.{Heap, Run, Cmd, ◌>>=◌, pure}
use ipod_to_ipod.ListUtils.{TrackList}
use ipod_to_ipod.Transfer.{Outcome, ok, fault, null_string, overflow}
use ipod_to_ipod.TransferMenu.{remove_tracks_do_delete}

-- What an action tells the menu that it was chosen from: TTK_MENU_DONOTHING, …UPONE, …UPALL.
pub data Reply : Type 0 where
  do_nothing up_one up_all : Reply

-- RIP_MOUNTPOINT
abbrev pub rip_mountpoint : Text
rip_mountpoint = b'/' ∷ b'r' ∷ b'i' ∷ b'p' ∷ []

module _ {Db : Type 0} where
  unfoldable pub mpd_make_dirty : Pod Db → Pod Db
  mpd_make_dirty s = record s { mpd_dirty = true }

  -- The answer, which is given once.
  unfoldable pub mpd_is_dirty : Pod Db → Bool × Pod Db
  mpd_is_dirty s = (s.mpd_dirty, record s { mpd_dirty = false })

  -- Whether "Automount on" is printed, or else "Automount off".
  unfoldable pub do_tracks : Pod Db → Bool
  do_tracks s = if s.automount then true else false

  unfoldable pub new_do_tracks_window : Pod Db → Reply × Bool
  unfolding do_tracks
  new_do_tracks_window s = (do_nothing, do_tracks s)

  unfoldable pub new_domount_window : Pod Db → Pod Db × Reply
  unfolding do_mount
  new_domount_window s = (do_mount s, do_nothing)

  unfoldable pub new_dounmount_window : World Db → Pod Db → Pod Db × Reply
  unfolding do_unmount
  new_dounmount_window w s = (do_unmount w s, do_nothing)

  unfoldable pub new_eject_window : Bool → World Db → Pod Db → Pod Db × Reply
  unfolding do_eject
  new_eject_window ipod_build w s = (do_eject ipod_build w s, up_all)

-- What `pz_browser_open` is asked to show.
unfoldable pub new_browse_rip_window : Text
new_browse_rip_window = rip_mountpoint

-- The entries of `remove_tracks_menu`.
pub data Answer : Type 0 where
  no yes : Answer

-- The popup: its answers, all of them on the track list that is to be removed.
pub record RemoveMenu : Type 0 where
  pub answers : List Answer
  pub data_no : TrackList
  pub data_yes : TrackList

unfoldable pub remove_tracks : TrackList → RemoveMenu
remove_tracks tracks = record { answers = no ∷ yes ∷ []; data_no = tracks; data_yes = tracks }

unfoldable pub remove_tracks_aborted : Reply
remove_tracks_aborted = up_one

module _ (lib : Libipod) where
  -- The answer that is chosen in the popup: the `makesub` of its entry is called.
  unfoldable pub choose_answer : ℕ → Answer → RemoveMenu → Pod lib.Db → Cmd ℕ (Pod lib.Db × Reply)
  unfolding remove_tracks_aborted remove_tracks_do_delete
  choose_answer fuel no menu s = pure (s, remove_tracks_aborted)
  choose_answer fuel yes menu s = do
    (tracks, s') ← remove_tracks_do_delete lib fuel menu.data_yes s
    pure (s', up_all)

-- `enqueue_data`: the function that another module gave, and its item.
pub record EnqueueData (Item S : Type 0) : Type 0 where
  pub qfunc : Item → S → S
  pub item : Item

unfoldable pub enqueue_tracks : {Item S : Type 0} → EnqueueData Item S → S → S × Reply
enqueue_tracks eqdata s = (eqdata.qfunc eqdata.item s, up_one)
