-- ===== src/Transfer/Unplugged.antt =====
-- A remote iPod that is unplugged during a transfer.
use ipod_to_ipod.Base.{
  ℕ, ◌≤◌, Option, none, some, List, Text, length, ◌≡◌, ◌≢◌, ◌⊎◌, inl, inr, refl, ap, sym, ◌∙◌,
  arith,
}
use ipod_to_ipod.Pod.{Ptr, null, Pod, World, absent, transferring, disconnected, set_db}
use ipod_to_ipod.Libipod.{Libipod}
use ipod_to_ipod.Status.{rip_icon_timer_handler}
use ipod_to_ipod.Transfer.{fault, ◌>>=◌, freed_ipod, buffer_size, Item, Io, Transfer}
use ipod_to_ipod.Transfer.Copy.{
  text_or_empty, finish_track, finish_file, finish_if_done, transfer_widget_timer_handler,
}
use ipod_to_ipod.Transfer.Steps.{
  IsGood, IsLast, started, advance-IsLast, advance, handler-advance, copied,
}
use ipod_to_ipod.Transfer.Run.{Copying}

module _ {Db : Type 0} where
  unplugged :
      (w : World Db) (p : Pod Db)
      → p.rip_status ≡ transferring
      → p.remote_ipod ≢ null
      → w.connection ≡ absent
      → ((rip_icon_timer_handler w p).dbs p.remote_ipod ≡ none)
        × ((q : Ptr) → q ≢ p.remote_ipod → (rip_icon_timer_handler w p).dbs q ≡ p.dbs q)
        × ((rip_icon_timer_handler w p).rip_status ≡ disconnected)
  unfolding rip_icon_timer_handler set_db
  unplugged w p busy ne gone = (
    ground (arith, busy, ne, gone),
    λ q apart. ground (arith, busy, ne, gone, apart),
    ground (arith, busy, gone),
  )

module _ (lib : Libipod) where
  open lib use {Db, Track}

  finish_track-freed :
      (io : Io) (src dst remote : Ptr) (t : Track) (location : Text) (pod : Pod Db) (ds : Db)
      → (src ≡ remote) ⊎ ((dst ≡ remote) × (pod.dbs src ≡ some ds))
      → pod.dbs remote ≡ none
      → finish_track lib io src dst (some t) location pod ≡ fault freed_ipod
  unfolding finish_track
  finish_track-freed io src dst remote t location pod ds (inl e) freed =
      let gone : pod.dbs src ≡ none = ap (λ p. pod.dbs p) e ∙ freed in rw (gone, finish_track) refl
  finish_track-freed io src dst remote t location pod ds (inr (e, open_src)) freed =
      let gone : pod.dbs dst ≡ none = ap (λ p. pod.dbs p) e ∙ freed in
      rw (open_src, gone, finish_track) refl

  finish_file-freed :
      (io : Io) (s : Transfer lib) (item : Item Track) (items : List (Item Track)) (t : Track)
      → item.src_track ≡ some t
      → finish_track lib io s.src_ipod s.dst_ipod (some t) (text_or_empty item.dst_location) s.pod
        ≡ fault freed_ipod
      → finish_file lib io item items s ≡ fault freed_ipod
  unfolding finish_file
  finish_file-freed io s item items t is_track freed = rw (is_track, freed) refl

  -- The remote iPod is one of the two of the transfer.
  abbrev pub TakesPart : Transfer lib → Type 0
  TakesPart s = (s.src_ipod ≡ s.pod.remote_ipod) ⊎ (s.dst_ipod ≡ s.pod.remote_ipod)

  -- The state after a poll.
  abbrev pub polled : World Db → Transfer lib → Transfer lib
  polled w s = record s { pod = rip_icon_timer_handler w s.pod }

  polled-IsLast :
      (w : World Db) (s : Transfer lib) (item : Item Track) (items : List (Item Track))
      (unread : List ℕ) (f : Text × List ℕ)
      → Copying lib item items unread f s
      → length unread ≤ buffer_size
      → IsLast lib item items unread f (polled w s)
  polled-IsLast w s item items unread f c last = record {
    at_hand = c.at_hand;
    buffer = c.buffer;
    src = c.src;
    dst = c.dst;
    not_done = c.not_done;
    counted = c.counted;
    small = c.small;
    last = last;
  }

  polled-freed :
      (io : Io) (w : World Db) (s : Transfer lib) (item : Item Track) (items : List (Item Track))
      (unread : List ℕ) (f : Text × List ℕ)
      → Copying lib item items unread f s
      → (t : Track) (location : Text) → s.pod.rip_status ≡ transferring
      → s.pod.remote_ipod ≢ null
      → w.connection ≡ absent
      → TakesPart s
      → finish_track lib io s.src_ipod s.dst_ipod (some t) location (rip_icon_timer_handler w s.pod)
        ≡ fault freed_ipod
  polled-freed io w s item items unread f c t location busy ne gone (inl from) =
      finish_track-freed io s.src_ipod s.dst_ipod s.pod.remote_ipod t location
        (rip_icon_timer_handler w s.pod) c.connected.src_db (inl from)
        (unplugged w s.pod busy ne gone).0
  polled-freed io w s item items unread f c t location busy ne gone (inr to) =
      let freed = unplugged w s.pod busy ne gone in
      finish_track-freed io s.src_ipod s.dst_ipod s.pod.remote_ipod t location
        (rip_icon_timer_handler w s.pod) c.connected.src_db
        (inr (to, freed.1 s.src_ipod (λ e. c.connected.apart (e ∙ sym to)) ∙ c.connected.src_open))
        freed.0

  -- After a poll during a transfer that finds the remote iPod unplugged, which is one of the two of
  -- the transfer: the tick of the transfer's timer that copies the last buffer of a track's file, with
  -- reads and writes that still succeed, uses the database that the poll has freed. It is a fault.
  pub transfer_widget_timer_handler-unplugged :
      (disk : Text → Option (List ℕ)) (io : Io) (w : World Db) (s : Transfer lib)
      (item : Item Track) (items : List (Item Track)) (unread : List ℕ) (f : Text × List ℕ)
      → IsGood lib disk io
      → Copying lib item items unread f s
      → length unread ≤ buffer_size
      → s.pod.rip_status ≡ transferring
      → s.pod.remote_ipod ≢ null
      → TakesPart s
      → w.connection ≡ absent
      → transfer_widget_timer_handler lib io (polled w s) ≡ fault freed_ipod
  transfer_widget_timer_handler-unplugged disk io w s item items unread f good c last busy ne part
        gone =
      let freed =
        finish_file-freed io (copied lib unread f (polled w s)) item items c.track c.is_track (
          polled-freed io w s item items unread f c c.track (text_or_empty item.dst_location) busy
            ne gone part) in
      handler-advance lib io (polled w s)
      ∙ ap (λ o. o >>= advance lib io) (started lib io (polled w s) item items c.has_name c.at_hand)
      ∙ advance-IsLast lib disk io (polled w s) item items unread f good
          (polled-IsLast w s item items unread f c last)
      ∙ ap (λ m. m >>= λ t. finish_if_done lib t.cur_file t) freed
