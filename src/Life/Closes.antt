-- ===== src/Life/Closes.antt =====
-- The start and the end of the module: which databases are open.
use ipod_to_ipod.Base.{
  ℕ, Bool, true, false, Option, none, [], is_some, ◌==◌, ◌&&◌, not, if◌then◌else◌, ◌≡◌, ◌≢◌, refl,
  arith, Bool-cases, Option-cases, inl, inr, ap, ◌∙◌, sym,
}
use ipod_to_ipod.Pod.{Ptr, null, Pod, Entry, remote, shown, set_db}
use ipod_to_ipod.Libipod.{Libipod}
use ipod_to_ipod.Transfer.{ok, ◌>>=◌, Transfer}
use ipod_to_ipod.Transfer.Queue.{transfer_list_reset}
use ipod_to_ipod.Status.Events.{Reach}
use ipod_to_ipod.Status.Ownership.{IsOwned, Reach-IsOwned}
use ipod_to_ipod.Status.Menu.{MenuFits, wanted, Reach-MenuFits}
use mathlib.Core.Path.{subst}
use ipod_to_ipod.System
use ipod_to_ipod.System.Owned.{System-IsOwned}
use ipod_to_ipod.Life.{init_podtopod, free_if_open, cleanup_podtopod}

module _ {Db : Type 0} where
  init_podtopod-IsOwned :
      (rip_music automount : Bool) (opened : Ptr) (db : Db)
      → opened ≢ null
      → IsOwned (init_podtopod rip_music automount opened db).0
  unfolding init_podtopod set_db
  init_podtopod-IsOwned rip_music automount opened db ne = record {
    local_ne_null = ne;
    remote_ne_local = ground (arith, ne);
    owned = λ p. ground arith;
    closed = λ h. refl;
  }

  init_fits :
      (rip_music automount : Bool) (opened : Ptr) (db : Db) (e : Entry)
      → shown e (init_podtopod rip_music automount opened db).0.menu
        ≡ wanted (init_podtopod rip_music automount opened db).0 e
  unfolding init_podtopod shown
  init_fits rip_music automount opened db remote = refl
  init_fits rip_music automount opened db e = refl

  -- If `ipod_new` opens the local iPod, then in every state that status events lead to after
  -- `init_podtopod` the open databases are exactly those of the two handles, and the "/Remote iPod"
  -- entries fit: those of the device are there while one is connected, those of its music while its
  -- database is open.
  init_podtopod-Reach :
      (rip_music automount : Bool) (opened : Ptr) (db : Db) (s : Pod Db)
      → opened ≢ null
      → Reach (init_podtopod rip_music automount opened db).0 s
      → IsOwned s × MenuFits s
  init_podtopod-Reach rip_music automount opened db s ne reached =
      let owned = init_podtopod-IsOwned rip_music automount opened db ne in
      (
        Reach-IsOwned reached owned,
        Reach-MenuFits reached owned (record { fits = init_fits rip_music automount opened db }),
      )

module _ (lib : Libipod) where
  -- The handle's database is closed, the others are as before.
  closed_at : Ptr → Transfer lib → Transfer lib
  closed_at p s = record s { pod = record (s.pod) { dbs = set_db s.pod.dbs p none } }

  free_if_open-closed :
      (p : Ptr) (s : Transfer lib)
      → p ≢ null
      → is_some (s.pod.dbs p) ≡ true
      → free_if_open lib p s ≡ ok (closed_at p s)
  unfolding free_if_open closed_at
  free_if_open-closed p s ne is_open = elim (Option-cases (s.pod.dbs p)) [
    | inl missing ↦ absurd (ground (arith, missing, is_open))
    | inr (d, found) ↦
        let not_null : (p == null) ≡ false = ground (arith, ne) in rw (not_null, found) refl
  ]

  closed_lookup :
      (p : Ptr) (s : Transfer lib) (q : ℕ)
      → (p == null) ≡ false
      → (closed_at p s).pod.dbs q ≡ (if not (p == null) && (q == p) then none else s.pod.dbs q)
  unfolding closed_at set_db
  closed_lookup p s q not_null = rw not_null refl

  -- The remote handle, which may be `NULL`, in a state where it is open if it is not.
  free_remote :
      (p : Ptr) (s : Transfer lib)
      → (p ≢ null → is_some (s.pod.dbs p) ≡ true)
      → (t : Transfer lib) × (free_if_open lib p s ≡ ok t)
        × ((q : ℕ) → t.pod.dbs q ≡ (if not (p == null) && (q == p) then none else s.pod.dbs q))
  unfolding free_if_open set_db
  free_remote p s is_open = elim (Bool-cases (p == null)) [
    | inl is_null ↦ (s, rw is_null refl, λ q. rw is_null refl)
    | inr not_null ↦
        let ne : p ≢ null = ground (arith, not_null) in
        (closed_at p s, free_if_open-closed p s ne (is_open ne), λ q. closed_lookup p s q not_null)
  ]

  after_both :
      (s : Pod lib.Db) (f : Ptr → Option lib.Db)
      → IsOwned s
      → ((q : ℕ)
          → f q ≡ (
              if not (s.remote_ipod == null) && (q == s.remote_ipod)
              then none
              else if q == s.local_ipod
              then none
              else s.dbs q))
      → (q : ℕ) → f q ≡ none
  after_both s f i lookup q = ground (arith, lookup q, i.owned q)

  remote_open :
      (s : Transfer lib)
      → IsOwned s.pod
      → s.pod.remote_ipod ≢ null
      → is_some ((closed_at s.pod.local_ipod s).pod.dbs s.pod.remote_ipod) ≡ true
  unfolding closed_at set_db
  remote_open s i ne = ground (arith, i.owned s.pod.remote_ipod, i.remote_ne_local, ne)

  local_open : (s : Transfer lib) → IsOwned s.pod → is_some (s.pod.dbs s.pod.local_ipod) ≡ true
  local_open s i = ground (arith, i.owned s.pod.local_ipod)

  cleanup_podtopod-frees :
      (s : Transfer lib)
      → cleanup_podtopod lib s ≡ (
          free_if_open lib s.pod.local_ipod s >>= λ s'.
          free_if_open lib s'.pod.remote_ipod s' >>= λ s''.
          ok (transfer_list_reset lib null null s''))
  unfolding cleanup_podtopod
  cleanup_podtopod-frees s = refl

  closed_dbs :
      (s : Transfer lib) (q : ℕ)
      → (closed_at s.pod.local_ipod s).pod.dbs q
        ≡ (if q == s.pod.local_ipod then none else s.pod.dbs q)
  unfolding closed_at set_db
  closed_dbs s q = refl

  cleanup_podtopod-closes :
      (s : Transfer lib)
      → IsOwned s.pod
      → (t : Transfer lib) × (cleanup_podtopod lib s ≡ ok t)
        × ((p : ℕ) → t.pod.dbs p ≡ none)
        × (t.passed ≡ [])
        × (t.cur_file ≡ [])
  unfolding closed_at transfer_list_reset
  cleanup_podtopod-closes s i =
      let first = free_if_open-closed s.pod.local_ipod s i.local_ne_null (local_open s i) in
      let (t, second, lookup) =
        free_remote s.pod.remote_ipod (closed_at s.pod.local_ipod s) (remote_open s i) in
      (
        transfer_list_reset lib null null t,
        cleanup_podtopod-frees s
            ∙ ap
                (λ o. o >>= λ s'. free_if_open lib s'.pod.remote_ipod s' >>= λ s''.
                  ok (transfer_list_reset lib null null s''))
                first
            ∙ ap (λ o. o >>= λ s''. ok (transfer_list_reset lib null null s'')) second,
        after_both s.pod t.pod.dbs i (λ q.
            lookup q
            ∙ ap {A = Option lib.Db}
                (λ o.
                  if not (s.pod.remote_ipod == null) && (q == s.pod.remote_ipod) then none else o)
                (closed_dbs s q)),
        refl,
        refl,
      )

  -- If `ipod_new` opens the local iPod, then after `init_podtopod`, whatever transfer.c then holds, and
  -- after every sequence of events of the module that end without a fault (polls, cycles of the status,
  -- ejections, settings, removals of tracks, lists of items, transfer windows, ticks of a transfer and
  -- buttons, where a new database has a new handle, which is not NULL), `cleanup_podtopod` does not
  -- fail: it closes each open database once, so that none is open afterwards, and empties the transfer
  -- list, whatever is in it.
  pub init_podtopod-cleanup_podtopod :
      (rip_music automount : Bool) (opened : Ptr) (db : lib.Db) (first s : Transfer lib)
      → opened ≢ null
      → first.pod ≡ (init_podtopod rip_music automount opened db).0
      → System.Reach lib first s
      → (t : Transfer lib) × (cleanup_podtopod lib s ≡ ok t)
        × ((p : ℕ) → t.pod.dbs p ≡ none)
        × (t.passed ≡ [])
        × (t.cur_file ≡ [])
  init_podtopod-cleanup_podtopod rip_music automount opened db first s ne from_init reached =
      cleanup_podtopod-closes s (
        System-IsOwned lib reached
          (subst IsOwned (sym from_init) (init_podtopod-IsOwned rip_music automount opened db ne)))
