-- ===== src/Transfer/Stranded.antt =====
-- A transfer whose source is gone with the remote iPod: it is aborted, and the status is wrong.
use ipod_to_ipod.Base.{ℕ, false, List, Text, ◌≡◌, refl, arith, ◌==◌}
use ipod_to_ipod.Pod.{null, Pod, World, absent, mounted, transferring, remote, shown}
use ipod_to_ipod.Libipod.{Libipod}
use ipod_to_ipod.Status.{rip_icon_timer_handler}
use ipod_to_ipod.Transfer.{ok, zero_bytes_read, Item, Io, Transfer}
use ipod_to_ipod.Transfer.Aborts.{aborted, aborted-tick, do_copy-nothing}
use ipod_to_ipod.Transfer.Copy.{transfer_widget_timer_handler}
use ipod_to_ipod.Transfer.Run.{Copying}
use ipod_to_ipod.Transfer.Unplugged.{polled}

unplugged-menu :
    {Db : Type 0} (w : World Db) (p : Pod Db)
    → p.rip_status ≡ transferring
    → w.connection ≡ absent
    → (shown remote (rip_icon_timer_handler w p).menu ≡ false)
      × ((rip_icon_timer_handler w p).remote_ipod ≡ null)
unfolding rip_icon_timer_handler shown
unplugged-menu w p busy gone = (ground (arith, busy, gone), ground (arith, busy, gone))

module _ (lib : Libipod) where
  open lib use {Db, Track}

  -- What is shown to the user after an abort: mounted, with no remote iPod and no menu for it.
  pub record Stranded (t : Transfer lib) : Type 0 where
    pub status : t.pod.rip_status ≡ mounted
    pub no_remote : t.pod.remote_ipod ≡ null
    pub no_menu : shown remote t.pod.menu ≡ false

  -- After a poll during the copy of a track that finds the remote iPod unplugged, with no track added
  -- so far: the tick that reads nothing any more aborts the transfer, and sets the status to mounted,
  -- though there is no remote iPod any more and the poll has taken its menu away.
  pub transfer_widget_timer_handler-Stranded :
      (io : Io) (w : World Db) (s : Transfer lib) (item : Item Track) (items : List (Item Track))
      (unread : List ℕ) (f : Text × List ℕ)
      → Copying lib item items unread f s
      → s.dst_ipod_dirty ≡ false
      → s.pod.rip_status ≡ transferring
      → w.connection ≡ absent
      → io.readable ≡ 0
      → (transfer_widget_timer_handler lib io (polled lib w s)
          ≡ ok (aborted lib zero_bytes_read f (polled lib w s)))
        × Stranded (aborted lib zero_bytes_read f (polled lib w s))
  transfer_widget_timer_handler-Stranded io w s item items unread f c clean busy gone nothing =
      let unfinished : (item.filesize == s.file_bytes_transferred) ≡ false =
        ground (arith, c.counted, c.not_done) in
      let (menu, handle) = unplugged-menu w s.pod busy gone in
      (
        aborted-tick lib io (polled lib w s) item items zero_bytes_read f c.at_hand c.has_name
            unfinished
            (do_copy-nothing lib io (polled lib w s) unread f c.buffer c.src c.dst nothing clean),
        record { status = refl; no_remote = handle; no_menu = menu },
      )
