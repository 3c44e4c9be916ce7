-- ===== src/Transfer/Refusals.antt =====
-- The transfers that go wrong: what the timer handler does where there is nothing to copy, where a
-- file cannot be opened, and where it was never opened.
use mathlib.Core.Path.{subst}
use ipod_to_ipod.Base.{
  true, false, Option, none, some, List, [], ◌∷◌, ◌++◌, length, ◌≡◌, refl, sym, ◌⊎◌, ap, ◌∙◌, arith,
  is_some, inl, inr, Bool-cases, ltb, Option-cases,
}
use ipod_to_ipod.Pod.{Ptr}
use ipod_to_ipod.Libipod.{Libipod}
use ipod_to_ipod.Transfer.{
  Outcome, ok, fault, ◌>>=◌, no_current_file, freed_ipod, overflow, filename_room, already_has_dst,
  no_dst, Item, Io, Transfer,
}
use ipod_to_ipod.Transfer.Start.{
  start_copy, start_next_file, start_item, start_named, complain, name_track, slashes,
}
use ipod_to_ipod.Transfer.Copy.{transfer_widget_timer_handler, start_if_unnamed}
use ipod_to_ipod.Transfer.Widget.{new_transfer_window}
use ipod_to_ipod.Transfer.Steps.{advance, handler-advance}
use ipod_to_ipod.Transfer.Closed.{
  Closed, advance-Closed, abort_transfer-Closed, open_files-Closed, Faults,
}

module _ (lib : Libipod) where
  open lib use {Db, Track}

  start_named-Closed :
      (io : Io) (item : Item Track) (items : List (Item Track)) (s : Transfer lib)
      → io.source item.src_filename ≡ none
      → Closed lib (start_named lib io item items s)
  unfolding start_named
  start_named-Closed io item items s missing = elim (Option-cases item.dst_filename) [
    | inl e ↦ rw (e, Closed) (abort_transfer-Closed lib (complain lib no_dst s))
    | inr (name, e) ↦
        rw (e, Closed)
          (open_files-Closed lib io item.src_filename name (record s { cur_file = item ∷ items })
            missing)
  ]

  name_track-cases :
      (io : Io) (dst : Ptr) (dbs : Ptr → Option Db) (item : Item Track)
      → Faults (name_track lib io dst dbs item)
        ⊎ ((item' : Item Track) × (name_track lib io dst dbs item ≡ ok item')
            × (item'.src_filename ≡ item.src_filename))
  unfolding name_track
  name_track-cases io dst dbs item = elim (Option-cases (dbs dst)) [
    | inl e ↦ inl (freed_ipod, rw (e, name_track) refl)
    | inr (d, e) ↦ elim (Bool-cases (ltb (length (lib.base_path d ++ io.location)) filename_room)) [
      | inl fits ↦ inr (
        record item {
          dst_filename = some (slashes (lib.base_path d ++ io.location));
          dst_location = some io.location;
        },
        rw (e, fits, name_track) refl,
        refl,
      )
      | inr long ↦ inl (overflow, rw (e, long, name_track) refl)
    ]
  ]

  name_track-src :
      (io : Io) (dst : Ptr) (dbs : Ptr → Option Db) (item : Item Track)
      (f : Item Track → Outcome (Transfer lib))
      → ((item' : Item Track) → item'.src_filename ≡ item.src_filename → Closed lib (f item'))
      → Closed lib (name_track lib io dst dbs item >>= f)
  name_track-src io dst dbs item f closed = elim (name_track-cases io dst dbs item) [
    | inl (e, eq) ↦ subst (λ m. Closed lib (m >>= f)) (sym eq) tt
    | inr (item', eq, same) ↦ subst (λ m. Closed lib (m >>= f)) (sym eq) (closed item' same)
  ]

  start_item-Closed :
      (io : Io) (o : Option Track) (item : Item Track) (items : List (Item Track))
      (s : Transfer lib)
      → io.source item.src_filename ≡ none
      → Closed lib (start_item lib o io item items s)
  unfolding start_item
  start_item-Closed io none item items s missing = start_named-Closed io item items s missing
  start_item-Closed io (some t) item items s missing = elim (Option-cases item.dst_filename) [
    | inl e ↦
        rw (e, Closed)
          (name_track-src io s.dst_ipod s.pod.dbs item (λ item'. start_named lib io item' items s)
            (λ item' same.
              start_named-Closed io item' items s (ap (λ name. io.source name) same ∙ missing)))
    | inr (name, e) ↦ rw (e, Closed) (abort_transfer-Closed lib (complain lib already_has_dst s))
  ]

  -- A start leaves no source open where none was and the item itself opens none.
  start_if_unnamed-Closed :
      (io : Io) (item : Item Track) (items : List (Item Track)) (s : Transfer lib)
      → s.src_file ≡ none
      → (is_some item.dst_filename ≡ false
          → Closed lib (start_item lib item.src_track io item items s))
      → Closed lib (start_if_unnamed lib io (item ∷ items) s)
  unfolding start_if_unnamed start_next_file
  start_if_unnamed-Closed io item items s closed opens =
      elim (Bool-cases (is_some item.dst_filename)) [
        | inl named ↦ rw (named, Closed) closed
        | inr unnamed ↦ elim (Bool-cases (io.stat_ok item.src_filename)) [
          | inl there ↦ rw (unnamed, there) (opens unnamed)
          | inr gone ↦ rw (unnamed, gone, Closed) closed
        ]
      ]

  tick-fault :
      (io : Io) (s : Transfer lib) (item : Item Track) (items : List (Item Track))
      → s.cur_file ≡ item ∷ items
      → s.src_file ≡ none
      → (is_some item.dst_filename ≡ false
          → Closed lib (start_item lib item.src_track io item items s))
      → Faults (transfer_widget_timer_handler lib io s)
  tick-fault io s item items at_hand closed opens =
      let (e, eq) =
        advance-Closed lib io (start_if_unnamed lib io (item ∷ items) s)
          (start_if_unnamed-Closed io item items s closed opens) in
      (
        e,
        handler-advance lib io s
            ∙ ap (λ l. start_if_unnamed lib io l s >>= advance lib io) at_hand
            ∙ eq,
      )

  -- A tick on an item whose source cannot be opened is a fault, when no copy is under way: in
  -- whichever way `start_next_file` ends, `do_copy` then runs without a stream or a buffer.
  pub unreadable-fault :
      (io : Io) (s : Transfer lib) (item : Item Track) (items : List (Item Track))
      → s.cur_file ≡ item ∷ items
      → s.src_file ≡ none
      → io.source item.src_filename ≡ none
      → Faults (transfer_widget_timer_handler lib io s)
  unreadable-fault io s item items at_hand closed missing =
      tick-fault io s item items at_hand closed
        (λ unnamed. start_item-Closed io item.src_track item items s missing)

  plain-Closed :
      (io : Io) (item : Item Track) (items : List (Item Track)) (s : Transfer lib)
      → item.src_track ≡ none
      → is_some item.dst_filename ≡ false
      → Closed lib (start_item lib item.src_track io item items s)
  unfolding start_item start_named
  plain-Closed io item items s plain unnamed = elim (Option-cases item.dst_filename) [
    | inl e ↦ rw (plain, e, Closed) (abort_transfer-Closed lib (complain lib no_dst s))
    | inr (name, e) ↦ absurd (ground (arith, unnamed, e))
  ]

  -- A tick on an item that is not a track is a fault, when no copy is under way, whether the item has
  -- a destination name (then nothing opens its file) or not, and whatever the outside answers: no
  -- plain file is ever copied.
  pub plain-fault :
      (io : Io) (s : Transfer lib) (item : Item Track) (items : List (Item Track))
      → s.cur_file ≡ item ∷ items
      → s.src_file ≡ none
      → item.src_track ≡ none
      → Faults (transfer_widget_timer_handler lib io s)
  plain-fault io s item items at_hand closed plain =
      tick-fault io s item items at_hand closed (plain-Closed io item items s plain)

  -- The first tick of a transfer window that opens on an empty list uses a `cur_file` that is NULL.
  empty-fault :
      (io : Io) (s : Transfer lib)
      → s.passed ++ s.cur_file ≡ []
      → transfer_widget_timer_handler lib io (new_transfer_window lib true s)
        ≡ fault no_current_file
  unfolding transfer_widget_timer_handler start_if_unnamed new_transfer_window start_copy
  empty-fault io s empty = ground arith
