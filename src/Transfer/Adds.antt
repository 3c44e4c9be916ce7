-- ===== src/Transfer/Adds.antt =====
-- What the destination's database holds once a track's file is copied.
use ipod_to_ipod.Base.{ℕ, ◌≤◌, Option, List, ◌++◌, Text, length, ◌≡◌, ap, ◌∙◌}
use ipod_to_ipod.Libipod.{Libipod, IsStore}
use ipod_to_ipod.Transfer.{◌>>=◌, buffer_size, Item, Io, Transfer}
use ipod_to_ipod.Transfer.Copy.{text_or_empty, finish_if_done, transfer_widget_timer_handler}
use ipod_to_ipod.Transfer.Steps.{IsGood, started, advance, handler-advance, copied}
use ipod_to_ipod.Transfer.Finish.{Added, finished, add_copy-Added}
use ipod_to_ipod.Transfer.Run.{Copying}
use ipod_to_ipod.Transfer.Run.Advance.{advance-added}

module _ (lib : Libipod) where
  open lib use {Db, Track, get_text, get_attribute, track_add, set_text}

  module _ (store : IsStore lib) where
    -- The tick of the timer that copies the last buffer of a track's file, when nothing fails, adds
    -- one track to the destination's database: it has the source's text under the eleven text tags
    -- and the source's number under the 32 number tags, the location of the copy under the location
    -- tag, and what libipod gives a new track under the other tags of strings (10 and 11 of 1 to 14)
    -- and the other number tags below 2100. The stream of the copy is closed and took all the bytes,
    -- and the next item is at hand, or the transfer ends.
    pub transfer_widget_timer_handler-Added :
        (disk : Text → Option (List ℕ)) (io : Io) (s : Transfer lib) (item : Item Track)
        (items : List (Item Track)) (unread : List ℕ) (f : Text × List ℕ)
        → IsGood lib disk io
        → (c : Copying lib item items unread f s) → length unread ≤ buffer_size
        → (d : Db) × (transfer_widget_timer_handler lib io s
            ≡ finish_if_done lib items
                (finished lib d (f.0, f.1 ++ unread) item items (copied lib unread f s)))
          × Added lib c.connected.src_db c.track
              (text_or_empty item.dst_location)
              c.connected.dst_db
              d
    transfer_widget_timer_handler-Added disk io s item items unread f good c last =
        let (d, made, added) =
          add_copy-Added lib store io c.connected.src_db c.track (text_or_empty item.dst_location)
            c.connected.dst_db good.still in
        (
          d,
          handler-advance lib io s
              ∙ ap (λ o. o >>= advance lib io) (started lib io s item items c.has_name c.at_hand)
              ∙ advance-added lib disk io good s item items unread f c last c.connected d made,
          added,
        )
