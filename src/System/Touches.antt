-- ===== src/System/Touches.antt =====
-- What the start and the end of a copy do to the state that transfer.c shares with podtopod.c.
use ipod_to_ipod.Base.{
  Bool, true, false, Option, none, some, List, [], ◌∷◌, Text, ◌≡◌, refl, arith, not, is_some,
}
use ipod_to_ipod.Pod.{Ptr, Pod, set_db}
use ipod_to_ipod.Libipod.{Libipod}
use ipod_to_ipod.Status.{is_mounted}
use ipod_to_ipod.Transfer.{
  Message, no_dst, already_has_dst, cannot_read, cannot_write, Item, Io, Transfer,
}
use ipod_to_ipod.Transfer.Outcomes.{any, Partly, safe, faulty, Post-bind, Post-if, Post-option}
use ipod_to_ipod.Transfer.Start.{
  complain, free_buffer, flush_dst, transfer_finished, abort_transfer, open_files, start_named,
  start_item, name_track, start_next_file,
}
use ipod_to_ipod.Transfer.Copy.{start_if_unnamed}

module _ {Db : Type 0} where
  -- The handles stay, the same databases are open, and the status is as it was, or mounted or
  -- transferring.
  pub record Touches (p q : Pod Db) : Type 0 where
    pub same_remote : q.remote_ipod ≡ p.remote_ipod
    pub same_local : q.local_ipod ≡ p.local_ipod
    pub same_open : (x : Ptr) → is_some (q.dbs x) ≡ is_some (p.dbs x)
    pub idle : is_mounted q.rip_status ≡ false → is_mounted p.rip_status ≡ false

  pub Touches-refl : (p : Pod Db) → Touches p p
  Touches-refl p = record {
    same_remote = refl;
    same_local = refl;
    same_open = λ x. refl;
    idle = λ h. h;
  }

  -- An open database is replaced by another.
  pub put-Touches :
      (p q : Pod Db) (dst : Ptr) (d d' : Db)
      → Touches p q
      → q.dbs dst ≡ some d
      → Touches p (record q { dbs = set_db q.dbs dst (some d') })
  unfolding set_db
  put-Touches p q dst d d' t open_db = record {
    same_remote = t.same_remote;
    same_local = t.same_local;
    same_open = λ x. ground (arith, t.same_open x, t.same_open dst, open_db);
    idle = t.idle;
  }

module _ (lib : Libipod) (p : Pod lib.Db) where
  open lib use {Db, Track}

  abbrev pub Fits : Transfer lib → Type 0
  Fits s = Touches p s.pod

  flush_dst-Touches :
      (dirty : Bool) (dst : Ptr) (q : Pod Db)
      → Touches p q
      → Partly (Touches p) (flush_dst lib dirty dst q)
  unfolding flush_dst
  flush_dst-Touches false dst q t = safe t
  flush_dst-Touches true dst q t =
      Post-option (q.dbs dst) (λ e. faulty refl)
        (λ d e.
          let put = put-Touches p q dst d (lib.flush d) t e in
          safe (record {
            same_remote = put.same_remote;
            same_local = put.same_local;
            same_open = put.same_open;
            idle = put.idle;
          }))

  pub transfer_finished-Fits : (s : Transfer lib) → Fits s → Partly Fits (transfer_finished lib s)
  unfolding transfer_finished
  transfer_finished-Fits s t = Post-bind (any (free_buffer s.buffer)) (λ b u.
      Post-bind (flush_dst-Touches s.dst_ipod_dirty s.dst_ipod s.pod t) (λ q r. safe (record {
        same_remote = r.same_remote;
        same_local = r.same_local;
        same_open = r.same_open;
        idle = λ h. absurd (cc h);
      })))

  pub abort_transfer-Fits :
      (m : Message) (s : Transfer lib)
      → Fits s
      → Partly Fits (abort_transfer lib (complain lib m s))
  unfolding abort_transfer complain
  abort_transfer-Fits m s t = transfer_finished-Fits (complain lib m s) t

  open_files-Fits :
      (io : Io) (from to : Text) (s : Transfer lib)
      → Fits s
      → Partly Fits (open_files lib io from to s)
  unfolding open_files
  open_files-Fits io from to s t =
      Post-option (io.source from)
        (λ e. abort_transfer-Fits cannot_read (record s { src_file = none }) t)
        (λ bytes e.
          Post-if (io.can_write to) (λ h. safe t)
            (λ h.
              abort_transfer-Fits cannot_write (record s { src_file = none; dst_file = none }) t))

  start_named-Fits :
      (io : Io) (item : Item Track) (items : List (Item Track)) (s : Transfer lib)
      → Fits s
      → Partly Fits (start_named lib io item items s)
  unfolding start_named
  start_named-Fits io item items s t =
      Post-option item.dst_filename (λ e. abort_transfer-Fits no_dst s t)
        (λ to e. open_files-Fits io item.src_filename to (record s { cur_file = item ∷ items }) t)

  start_item-Fits :
      (track : Option Track) (io : Io) (item : Item Track) (items : List (Item Track))
      (s : Transfer lib)
      → Fits s
      → Partly Fits (start_item lib track io item items s)
  unfolding start_item
  start_item-Fits none io item items s t = start_named-Fits io item items s t
  start_item-Fits (some track) io item items s t =
      Post-option item.dst_filename
        (λ e.
          Post-bind (any (name_track lib io s.dst_ipod s.pod.dbs item))
            (λ named u. start_named-Fits io named items s t))
        (λ name e. abort_transfer-Fits already_has_dst s t)

  pub start_if_unnamed-Fits :
      (io : Io) (items : List (Item Track)) (s : Transfer lib)
      → Fits s
      → Partly Fits (start_if_unnamed lib io items s)
  unfolding start_if_unnamed start_next_file complain
  start_if_unnamed-Fits io [] s t = faulty refl
  start_if_unnamed-Fits io (item ∷ items) s t =
      Post-if (is_some item.dst_filename) (λ h. safe t)
        (λ h.
          Post-if (not (io.stat_ok item.src_filename)) (λ h. safe t)
            (λ h. start_item-Fits item.src_track io item items s t))
