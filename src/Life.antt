-- ===== src/Life.antt =====
-- The start and the end of the module: init_podtopod and cleanup_podtopod of podtopod.c.
pub mod Closes
use ipod_to_ipod.Base.{Bool, false, Option, none, some, List, [], ◌∷◌, ◌==◌, if◌then◌else◌}
use ipod_to_ipod.Pod.{Ptr, null, disconnected, Pod, set_db}
use ipod_to_ipod.Libipod.{Libipod}
use ipod_to_ipod.Transfer.{Outcome, ok, fault, ◌>>=◌, freed_ipod, Transfer}
use ipod_to_ipod.Transfer.Queue.{transfer_list_reset}

-- What is registered with podzilla: the settings with their button handler, the header widget, the
-- two test actions, and the action of the file browser.
pub data Setup : Type 0 where
  add_rip_music_setting add_automount_setting set_settings_button add_header_widget
        enable_header_right add_do_tracks add_cycle_status add_browser_action :
      Setup

-- The settings are those of the configuration file; `opened` and `opened_db` are what `ipod_new`
-- returns for LIP_MOUNTPOINT.
unfoldable pub init_podtopod :
    {Db : Type 0}
    → (rip_music automount : Bool) (opened : Ptr) (opened_db : Db) → Pod Db × List Setup
init_podtopod rip_music automount opened opened_db = (
  record {
    rip_status = disconnected;
    remote_ipod = null;
    local_ipod = opened;
    dbs = set_db (λ p. none) opened (some opened_db);
    mpd_dirty = false;
    rip_music = rip_music;
    automount = automount;
    menu = [];
    messages = [];
    commands = [];
  },
  add_rip_music_setting ∷ add_automount_setting ∷ set_settings_button ∷ add_header_widget
      ∷ enable_header_right ∷ add_do_tracks ∷ add_cycle_status ∷ add_browser_action ∷ [],
)

module _ (lib : Libipod) where
  -- `if (ipod) ipod_free(ipod);`, a fault where the handle is not open.
  unfoldable pub free_if_open : Ptr → Transfer lib → Outcome (Transfer lib)
  free_if_open ipod s = if ipod == null then ok s else elim (s.pod.dbs ipod) [
    | none ↦ fault freed_ipod
    | some d ↦ ok (record s { pod = record (s.pod) { dbs = set_db s.pod.dbs ipod none } })
  ]

  -- The handles are left as they are.
  unfoldable pub cleanup_podtopod : Transfer lib → Outcome (Transfer lib)
  unfolding free_if_open transfer_list_reset
  cleanup_podtopod s = free_if_open s.pod.local_ipod s >>= λ s'.
      free_if_open s'.pod.remote_ipod s' >>= λ s''. ok (transfer_list_reset lib null null s'')
