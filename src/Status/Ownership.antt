-- ===== src/Status/Ownership.antt =====
-- Which databases are open: those of the two handles that podtopod.c holds, and no other.
use ipod_to_ipod.Base.{ℕ, Bool, false, ◌≡◌, ◌≢◌, ◌&&◌, ◌||◌, not, ◌==◌, is_some, arith}
use ipod_to_ipod.Pod.{null, Pod, World, set_db}
use ipod_to_ipod.Status.{
  is_mounted, do_eject, rip_icon_timer_handler, new_cycle_status_window, settings_button,
}
use ipod_to_ipod.Status.Events.{
  OpensNew, Step, Reach, tick, cycle, button, configure, eject, here, next,
}

module _ {Db : Type 0} where
  -- Whether a handle is one of the two that the module's globals hold.
  abbrev pub held : Pod Db → ℕ → Bool
  held s p = (p == s.local_ipod) || (not (s.remote_ipod == null) && (p == s.remote_ipod))

  pub record IsOwned (s : Pod Db) : Type 0 where
    pub local_ne_null : s.local_ipod ≢ null
    pub remote_ne_local : s.remote_ipod ≢ s.local_ipod
    pub owned : (p : ℕ) → is_some (s.dbs p) ≡ held s p
    pub closed : is_mounted s.rip_status ≡ false → s.remote_ipod ≡ null

  tick-IsOwned :
      (w : World Db) (s : Pod Db) → OpensNew w s → IsOwned s → IsOwned (rip_icon_timer_handler w s)
  unfolding rip_icon_timer_handler set_db
  tick-IsOwned w s o i = record {
    local_ne_null = ground (arith, i.local_ne_null);
    remote_ne_local = ground (arith, i.remote_ne_local, i.local_ne_null, o.ne_local);
    owned = λ p. ground (arith, i.owned p, i.remote_ne_local, o.ne_null, i.closed);
    closed = λ h. ground (arith, i.closed);
  }

  cycle-IsOwned :
      (w : World Db) (s : Pod Db) → OpensNew w s → IsOwned s → IsOwned (new_cycle_status_window w s)
  unfolding new_cycle_status_window set_db
  cycle-IsOwned w s o i = record {
    local_ne_null = ground (arith, i.local_ne_null);
    remote_ne_local = ground (arith, i.remote_ne_local, i.local_ne_null, o.ne_local);
    owned = λ p. ground (arith, i.owned p, i.remote_ne_local, o.ne_null, i.closed);
    closed = λ h. ground (arith, i.closed);
  }

  button-IsOwned :
      (k : Bool) (w : World Db) (s : Pod Db)
      → OpensNew w s
      → IsOwned s
      → IsOwned (settings_button k w s)
  unfolding settings_button set_db
  button-IsOwned k w s o i = record {
    local_ne_null = ground (arith, i.local_ne_null);
    remote_ne_local = ground (arith, i.remote_ne_local, i.local_ne_null, o.ne_local);
    owned = λ p. ground (arith, i.owned p, i.remote_ne_local, o.ne_null, i.closed);
    closed = λ h. ground (arith, i.closed);
  }

  eject-IsOwned : (b : Bool) (w : World Db) (s : Pod Db) → IsOwned s → IsOwned (do_eject b w s)
  unfolding do_eject set_db
  eject-IsOwned b w s i = record {
    local_ne_null = ground (arith, i.local_ne_null);
    remote_ne_local = ground (arith, i.remote_ne_local, i.local_ne_null);
    owned = λ p. ground (arith, i.owned p, i.remote_ne_local, i.closed);
    closed = λ h. ground (arith, i.closed);
  }

  Step-IsOwned : {s t : Pod Db} → Step s t → IsOwned s → IsOwned t
  Step-IsOwned (tick w o) i = tick-IsOwned w _ o i
  Step-IsOwned (cycle w o) i = cycle-IsOwned w _ o i
  Step-IsOwned (button k w o) i = button-IsOwned k w _ o i
  Step-IsOwned (configure m a) i = record {
    local_ne_null = i.local_ne_null;
    remote_ne_local = i.remote_ne_local;
    owned = i.owned;
    closed = i.closed;
  }
  Step-IsOwned (eject b w) i = eject-IsOwned b w _ i

  -- From a state in which the open databases are exactly those of `local_ipod` and, if it is not
  -- NULL, `remote_ipod`, where the two differ, the local one is not NULL and the remote one is NULL
  -- outside the mounted and transferring statuses, every event leads to such a state again.
  pub Reach-IsOwned : {s t : Pod Db} → Reach s t → IsOwned s → IsOwned t
  Reach-IsOwned here i = i
  Reach-IsOwned (next r st) i = Step-IsOwned st (Reach-IsOwned r i)
