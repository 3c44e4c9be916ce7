-- ===== src/Transfer/Finish.antt =====
-- The end of a file when nothing fails, and the end of the whole transfer.
use ipod_to_ipod.Base.{
  ◌<◌, ◌≢◌, ◌∙◌, ℕ, ◌+◌, true, false, none, some, List, [], ◌∷◌, ◌++◌, Text, ◌≡◌, arith, ◌==◌,
  if◌then◌else◌,
}
use ipod_to_ipod.Pod.{Ptr, Pod, set_db, mounted}
use ipod_to_ipod.Libipod.{Libipod, IsString, IsStore}
use ipod_to_ipod.Transfer.{ok, allocated, freed, Item, Io, Transfer}
use ipod_to_ipod.Transfer.Attributes.{text_tags, number_tags}
use ipod_to_ipod.Transfer.Attributes.Copied.{has, any_of, copy_track_attributes-copied}
use ipod_to_ipod.Transfer.Copy.{
  location_tag, text_or_empty, add_copy, finish_track, finish_file, finish_if_done,
}

module _ (lib : Libipod) where
  open lib use {Db, Track, track_add, get_text, get_attribute, set_text, flush}

  -- The state after a track's file, with the destination's new database.
  abbrev pub finished :
      Db → Text × List ℕ → Item Track → List (Item Track) → Transfer lib → Transfer lib
  finished d f item items s = record s {
    pod = record (s.pod) { dbs = set_db s.pod.dbs s.dst_ipod (some d) };
    dst_ipod_dirty = true;
    total_files_transferred = s.total_files_transferred + 1;
    src_file = none;
    dst_file = none;
    written = f ∷ s.written;
    passed = s.passed ++ item ∷ [];
    cur_file = items;
    file_bytes_transferred = 0;
  }

  -- The database `d` has the new track of `dst`, with the attributes of `t` and with the location.
  pub record Added (src : Db) (t : Track) (location : Text) (dst d : Db) : Type 0 where
    pub text :
        (tag : ℕ)
        → IsString tag
        → get_text d (track_add dst).1 tag ≡ (
            if tag == location_tag
            then location
            else if has tag text_tags
            then get_text src t tag
            else get_text (track_add dst).0 (track_add dst).1 tag)
    pub number :
        (tag : ℕ)
        → tag < 2100
        → get_attribute d (track_add dst).1 tag ≡ (
            if has tag number_tags
            then get_attribute src t tag
            else get_attribute (track_add dst).0 (track_add dst).1 tag)

  pub add_copy-Added :
      IsStore lib
      → (io : Io) (src : Db) (t : Track) (location : Text) (dst : Db)
      → any_of io.moves text_tags ≡ false
      → (d : Db) × (add_copy lib io src t location dst ≡ ok d) × Added src t location dst d
  unfolding add_copy
  add_copy-Added store io src t location dst still =
      let u = (track_add dst).1 in
      let (d, e, texts, numbers) =
        copy_track_attributes-copied lib store src t u io.moves (track_add dst).0 still in
      (
        set_text d u location_tag location,
        cc e,
        record {
          text = λ tag string. ground (
            arith,
            texts tag string,
            store.get_text-set_text d u location_tag location (omega arith),
            λ (ne : location_tag ≢ tag).
                store.get_text-set_text_ne d u location_tag tag location ne (omega arith) string,
          );
          number = λ tag small.
              store.get_attribute-set_text d u location_tag tag location (omega arith) small
              ∙ numbers tag small;
        },
      )

  finish_track-ok :
      (io : Io) (pod : Pod Db) (src dst : Ptr) (t : Track) (location : Text) (ds dd d : Db)
      → pod.dbs src ≡ some ds
      → pod.dbs dst ≡ some dd
      → add_copy lib io ds t location dd ≡ ok d
      → finish_track lib io src dst (some t) location pod
        ≡ ok (record pod { dbs = set_db pod.dbs dst (some d) })
  unfolding finish_track
  finish_track-ok io pod src dst t location ds dd d es ed e = ground arith

  -- The file is finished with the database that `add_copy` gives.
  pub finish_file-finished :
      (io : Io) (s : Transfer lib) (item : Item Track) (items : List (Item Track)) (t : Track)
      (ds dd d : Db) (unread : List ℕ) (f : Text × List ℕ)
      → item.src_track ≡ some t
      → s.pod.dbs s.src_ipod ≡ some ds
      → s.pod.dbs s.dst_ipod ≡ some dd
      → s.src_file ≡ some unread
      → s.dst_file ≡ some f
      → add_copy lib io ds t (text_or_empty item.dst_location) dd ≡ ok d
      → finish_file lib io item items s ≡ ok (finished d f item items s)
  unfolding finish_file
  finish_file-finished io s item items t ds dd d unread f track es ed u e made =
      let eq =
        finish_track-ok io s.pod s.src_ipod s.dst_ipod t (text_or_empty item.dst_location) ds dd d
          es ed made in
      ground (arith, eq)

  -- The state after the last file: the destination flushed, the buffer freed, the timer off.
  abbrev pub ended : Db → Transfer lib → Transfer lib
  ended d s = record s {
    buffer = freed;
    timer = false;
    pod = record (s.pod) {
      dbs = set_db s.pod.dbs s.dst_ipod (some (flush d));
      mpd_dirty = if s.dst_ipod == s.pod.local_ipod then true else s.pod.mpd_dirty;
      rip_status = mounted;
    };
  }

  pub finish_if_done-ended :
      (s : Transfer lib) (d : Db)
      → s.buffer ≡ allocated
      → s.dst_ipod_dirty ≡ true
      → s.src_file ≡ none
      → s.dst_file ≡ none
      → s.pod.dbs s.dst_ipod ≡ some d
      → finish_if_done lib [] s ≡ ok (ended d s)
  unfolding finish_if_done
  finish_if_done-ended s d b dirty u e open_db = ground arith
