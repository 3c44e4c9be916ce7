-- ===== src/Transfer/Run/Landing.antt =====
-- What becomes of the items of a queue: the file written for each, and the copy of its track in the
-- destination's database.
use mathlib.Core.List.{reverse, reverse_aux, reverse_aux-eq}
use ipod_to_ipod.Transfer.Run.{bytes_of, Over, Completed}
use ipod_to_ipod.Base.{
  map-reverse_aux, ℕ, false, Option, some, List, [], ◌∷◌, ◌++◌, Text, map, take, drop,
  take-append-drop, ◌≡◌, refl, ap, ◌∙◌,
}
use mathlib.Core.List.{append_assoc}
use ipod_to_ipod.Pod.{Ptr}
use ipod_to_ipod.Libipod.{Libipod}
use ipod_to_ipod.Transfer.{ok, buffer_size, Item, Io, Transfer}
use ipod_to_ipod.Transfer.Attributes.{text_tags}
use ipod_to_ipod.Transfer.Attributes.Copied.{any_of}
use ipod_to_ipod.Transfer.Start.{slashes}
use ipod_to_ipod.Transfer.Copy.{text_or_empty, add_copy}

module _ (lib : Libipod) (disk : Text → Option (List ℕ)) where
  open lib use {Db, Track, base_path, flush}

  -- `after` is `before` with a copy of the item's track of `src`, to which no string has moved.
  pub record Adding (src : Db) (item : Item Track) (location : Text) (before after : Db)
      : Type 0 where
    pub track : Track
    pub is_track : item.src_track ≡ some track
    pub io : Io
    pub still : any_of io.moves text_tags ≡ false
    pub made : add_copy lib io src track location before ≡ ok after

  -- The file `f` has the bytes of the item's file, under the name for the location that the copy has.
  pub record Landing (src : Db) (item : Item Track) (f : Text × List ℕ) (before after : Db)
      : Type 0 where
    pub location : Text
    pub name : f.0 ≡ slashes (base_path before ++ location)
    pub content : disk item.src_filename ≡ some f.1
    pub adding : Adding src item location before after

  -- The items land one after the other, from a database up to `last`.
  pub data Lands (src last : Db) : List (Item Track) → List (Text × List ℕ) → Db → Type 0 where
    done : Lands src last [] [] last
    next :
        {item : Item Track} {items : List (Item Track)} {f : Text × List ℕ}
        {files : List (Text × List ℕ)} {before after : Db}
        → Landing src item f before after
        → Lands src last items files after
        → Lands src last (item ∷ items) (f ∷ files) before

  -- At the end `t` of a transfer to `dst` the items have landed: their files are written after the
  -- files `already`, and the last database has been flushed.
  pub record Landed (src : Db) (dst : Ptr) (items : List (Item Track)) (before : Db)
      (already : List (Text × List ℕ)) (t : Transfer lib) : Type 0 where
    pub last : Db
    pub files : List (Text × List ℕ)
    pub lands : Lands src last items files before
    pub written : t.written ≡ reverse_aux files already
    pub stored : t.pod.dbs dst ≡ some (flush last)

  -- The same when the first item is being copied, of which `unread` is to come after `f`.
  pub record Landed1 (src : Db) (dst : Ptr) (item : Item Track) (items : List (Item Track))
      (unread : List ℕ) (f : Text × List ℕ) (before : Db) (already : List (Text × List ℕ))
      (t : Transfer lib) : Type 0 where
    pub last : Db
    pub files : List (Text × List ℕ)
    pub after : Db
    pub adding : Adding src item (text_or_empty item.dst_location) before after
    pub lands : Lands src last items files after
    pub written : t.written ≡ reverse_aux files ((f.0, f.1 ++ unread) ∷ already)
    pub stored : t.pod.dbs dst ≡ some (flush last)

  -- A buffer moves from what is to come to what is written.
  abbrev pub copied-Landed1 :
      {src before : Db} {dst : Ptr} {item : Item Track} {items : List (Item Track)}
      {already : List (Text × List ℕ)} {t : Transfer lib} (unread : List ℕ) (f : Text × List ℕ)
      → Landed1 src dst item items
          (drop buffer_size unread)
          (f.0, f.1 ++ take buffer_size unread)
          before
          already
          t
      → Landed1 src dst item items unread f before already t
  copied-Landed1 {already = already} unread f l =
      let whole : (f.1 ++ take buffer_size unread) ++ drop buffer_size unread ≡ f.1 ++ unread =
        append_assoc f.1 (take buffer_size unread) (drop buffer_size unread)
        ∙ ap (λ bs. f.1 ++ bs) (take-append-drop buffer_size unread) in
      record {
        last = l.last;
        files = l.files;
        after = l.after;
        adding = l.adding;
        lands = l.lands;
        written = l.written ∙ ap (λ bs. reverse_aux l.files ((f.0, bs) ∷ already)) whole;
        stored = l.stored;
      }

  -- The files written are those of the items.
  Lands-contents :
      {src last before : Db} {items : List (Item Track)} {files : List (Text × List ℕ)}
      → Lands src last items files before
      → map (λ f. f.1) files ≡ map (bytes_of lib disk) items
  unfolding bytes_of
  Lands-contents done = refl
  Lands-contents (next l ls) = cc (l.content, Lands-contents ls)

  pub Landed-Completed :
      {src before : Db} {dst : Ptr} {items : List (Item Track)} {already : List (Text × List ℕ)}
      {t : Transfer lib} {count bytes : ℕ}
      → Over lib count bytes t
      → Landed src dst items before already t
      → Completed lib count bytes
          (reverse (map (bytes_of lib disk) items) ++ map (λ f. f.1) already)
          t
  Landed-Completed {items = items} {already = already} over l = record {
    over = over;
    written_whole =
        ap (λ fs. map (λ f. f.1) fs) l.written
        ∙ map-reverse_aux (λ f. f.1) l.files already
        ∙ ap (λ cs. reverse_aux cs (map (λ f. f.1) already)) (Lands-contents l.lands)
        ∙ reverse_aux-eq (map (bytes_of lib disk) items) (map (λ f. f.1) already);
  }
