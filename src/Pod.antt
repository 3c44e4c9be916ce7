-- ===== src/Pod.antt =====
-- The state that podtopod.c and connect.c share: the status of the remote iPod (`rip_status`), the
-- handles `remote_ipod` and `local_ipod`, the settings, `mpd_dirty`, and the calls made to podzilla
-- and to the shell. `Db` is what an `ipod_t` of libipod points at.
use ipod_to_ipod.Base.{ℕ, Bool, true, false, Option, List, [], ◌∷◌, ◌==◌, if◌then◌else◌}

-- A pointer; 0 is `NULL`.
abbrev pub Ptr : Type 0
Ptr = ℕ

abbrev pub null : Ptr
null = 0

-- The `STATUS_…` constants.
pub data Status : Type 0 where
  disconnected unmounted mounted transferring ejected : Status

-- The `int` that a poll returns: -1, 0, 1, or 2 (mounted at an unexpected place).
pub data Poll : Type 0 where
  poll_error absent present misplaced : Poll

-- The value of a poll as a condition in C.
abbrev pub truthy : Poll → Bool
truthy absent = false
truthy _ = true

-- The menu entries under "/Remote iPod", the first being that menu itself.
pub data Entry : Type 0 where
  remote browse info eject mount unmount : Entry
  music artists albums songs playlists : Entry

abbrev pub entry_index : Entry → ℕ
entry_index remote = 0
entry_index browse = 1
entry_index info = 2
entry_index eject = 3
entry_index mount = 4
entry_index unmount = 5
entry_index music = 6
entry_index artists = 7
entry_index albums = 8
entry_index songs = 9
entry_index playlists = 10

-- A call of `pz_menu_add_…` or of `pz_menu_remove`.
pub data MenuCall : Type 0 where
  add remove : Entry → MenuCall

-- The messages given to `pz_error` by the status handlers.
pub data Message : Type 0 where
  rip_already_opened no_remote_itunes_db no_rip_to_close : Message

-- The programs that are started: mount, umount, the reload of sbp2, eject.
pub data Command : Type 0 where
  run_mount run_umount run_rmmod run_modprobe run_eject : Command

pub record Pod (Db : Type 0) : Type 0 where
  pub rip_status : Status
  pub remote_ipod : Ptr
  pub local_ipod : Ptr
  -- the open databases, by handle; `ipod_free` takes one away
  pub dbs : Ptr → Option Db
  pub mpd_dirty : Bool
  -- the settings PPCONFIG_RIP_MUSIC and PPCONFIG_AUTOMOUNT
  pub rip_music : Bool
  pub automount : Bool
  -- newest first
  pub menu : List MenuCall
  pub messages : List Message
  pub commands : List Command

-- What the outside answers while one handler runs.
pub record World (Db : Type 0) : Type 0 where
  pub connection : Poll
  -- the first `poll_mount` of a handler, and the one after a `do_mount`
  pub mount_poll : Poll
  pub mount_poll_again : Poll
  -- whether `stat` finds the remote iTunesDB
  pub has_db : Bool
  -- what `ipod_new` returns, and what it points at
  pub opened : Ptr
  pub opened_db : Db

unfoldable pub set_db : {Db : Type 0} → (Ptr → Option Db) → Ptr → Option Db → Ptr → Option Db
set_db dbs p d q = if q == p then d else dbs q

-- Whether an entry is in the menu, by the last call about it.
unfoldable pub shown : Entry → List MenuCall → Bool
shown e [] = false
shown e (add f ∷ calls) = if entry_index e == entry_index f then true else shown e calls
shown e (remove f ∷ calls) = if entry_index e == entry_index f then false else shown e calls
