-- ===== src/Selection/Opens.antt =====
-- The handlers of the menus' items: what they open, the first time and when a menu is used again.
use ipod_to_ipod.Base.{
  ℕ, ◌+◌, ◌<◌, true, false, Option, some, List, [], ◌∷◌, All, length, length-append, ◌≡◌, refl, ◌≢◌,
  inl, inr, arith,
}
use ipod_to_ipod.Pod.{Ptr, null}
use ipod_to_ipod.Libipod.{Libipod}
use ipod_to_ipod.AltMenu.Counts.{Resolves, transfer_alt_menu-ShowsTracks}
use ipod_to_ipod.ListUtils.{Param}
use ipod_to_ipod.ListUtils.Matches.{IsMalloc}
use ipod_to_ipod.Selection.{
  Level, artists, albums, songs, pure, tag_of, MenuItem, Memory, Mallocs, ◌>>=◌, choose, put_back,
  Window, menu,
}
use ipod_to_ipod.Selection.Menus.{
  populate, show_tracks, populate_pp_artists, populate_pp_albums, populate_pp_songs,
  new_pp_artist_menu, new_pp_album_menu, new_pp_song_menu, open_artist, open_album, open_song,
  held_handler,
}
use ipod_to_ipod.Selection.Chooses.{
  Carries, Gives, gives, Gives-bind, IsListMalloc, chosen, choose-Denotes,
}
use ipod_to_ipod.Selection.Shows.{length-found, populate-Shows, search_ids-HoldsIds}
use ipod_to_ipod.Selection.Views.{Denotes-same, tracks_with, Opens, Offers, ShowsAll}

module _ (lib : Libipod) (mallocs : Mallocs) (params_new : IsMalloc mallocs.param)
    (lists_new : IsListMalloc mallocs.list) (strings_new : IsMalloc mallocs.string)
    (ids_new : IsMalloc mallocs.id) (fuel : ℕ) (dbs : Ptr → Option lib.Db) (remote_ipod : Ptr)
    (d : lib.Db) (ne : remote_ipod ≢ null) (open_db : dbs remote_ipod ≡ some d)
    (room : lib.track_count d < fuel) where
  open lib use {Db, Track, track_count, get_text, get_attribute, get_by_index}

  short :
      (ps : List Param) (level : Level) (item : MenuItem)
      → length ps + 1 < fuel
      → length (chosen ps level item) < fuel
  short ps level item enough =
      omega (arith, length-append ps (record { tag = tag_of level; value = item.name } ∷ []))

  -- The menu of one level is opened by an item of another.
  open_menu-Opens :
      (from level : Level) (item : MenuItem) (m : Memory) (ps : List Param)
      → Carries m item.param ps
      → length ps + 1 < fuel
      → Gives (Opens lib d level item (chosen ps from item)) (
          (choose mallocs from item >>= λ plist.
          populate lib mallocs fuel dbs remote_ipod level plist >>= λ items.
          pure (menu level items))
            m)
  open_menu-Opens from level item m ps carries enough =
      Gives-bind (choose-Denotes mallocs params_new lists_new m from item ps carries)
        (λ q m' (denotes, _, _, shared).
          Gives-bind
            (populate-Shows lib mallocs strings_new ids_new fuel dbs remote_ipod d ne open_db room
              level m' q (chosen ps from item) (inr denotes) (short ps from item enough))
            (λ shown m'' (shows, params, lists, _). gives (record {
              shown = shown;
              is_menu = refl;
              param = q;
              denotes = Denotes-same denotes params lists;
              shows = shows;
              shared = shared;
            })))

  -- Selecting an item of the artist menu opens a menu of albums, an item of the album menu one of
  -- songs: the names are distinct, and are just the albums (the songs) of the tracks that have the
  -- values of the item's parameters and of the item itself. The new items carry a list of these
  -- parameters, which is the very list of the selected item, if that carries one. Every `malloc`
  -- succeeds, the remote iPod is open, and the fuel exceeds its tracks and the parameters.
  pub open_artist-open_album-Opens :
      (item : MenuItem) (m : Memory) (ps : List Param)
      → Carries m item.param ps
      → length ps + 1 < fuel
      → Gives
          (Opens lib d albums item (chosen ps artists item))
          (open_artist lib mallocs fuel dbs remote_ipod item m)
        × Gives
            (Opens lib d songs item (chosen ps albums item))
            (open_album lib mallocs fuel dbs remote_ipod item m)
  unfolding open_artist open_album populate_pp_albums populate_pp_songs
  open_artist-open_album-Opens item m ps carries enough = (
    open_menu-Opens artists albums item m ps carries enough,
    open_menu-Opens albums songs item m ps carries enough,
  )

  new_menu-Shows :
      (level : Level) (m : Memory)
      → 0 < fuel
      → Gives (ShowsAll lib d level) (
          (populate lib mallocs fuel dbs remote_ipod level null >>= λ items.
          pure (menu level items))
            m)
  new_menu-Shows level m enough =
      Gives-bind
        (populate-Shows lib mallocs strings_new ids_new fuel dbs remote_ipod d ne open_db room level
          m null [] (inl (refl, refl)) enough)
        (λ shown m' (shows, _, _, _). gives (shown, refl, shows))

  -- The menus under "Music" show just the artists, the albums and the songs of all the tracks of the
  -- remote iPod, each once; their items carry no parameters. Every `malloc` succeeds, the remote iPod
  -- is open, and the fuel exceeds its tracks.
  new_menus-Shows :
      (m : Memory)
      → Gives (ShowsAll lib d artists) (new_pp_artist_menu lib mallocs fuel dbs remote_ipod m)
        × Gives (ShowsAll lib d albums) (new_pp_album_menu lib mallocs fuel dbs remote_ipod m)
        × Gives (ShowsAll lib d songs) (new_pp_song_menu lib mallocs fuel dbs remote_ipod m)
  unfolding new_pp_artist_menu new_pp_album_menu new_pp_song_menu populate_pp_artists
      populate_pp_albums populate_pp_songs
  new_menus-Shows m =
      let enough : 0 < fuel = omega (arith, room) in
      (
        new_menu-Shows artists m enough,
        new_menu-Shows albums m enough,
        new_menu-Shows songs m enough,
      )

  show_tracks-Offers :
      (m : Memory) (p : Ptr) (ps : List Param)
      → Carries m p ps
      → length ps < fuel
      → All (Resolves lib d) (tracks_with lib d ps)
      → Gives (Offers lib d remote_ipod ps) (show_tracks lib mallocs fuel dbs remote_ipod p m)
  unfolding show_tracks put_back
  show_tracks-Offers m p ps carries enough all =
      Gives-bind
        (search_ids-HoldsIds lib mallocs strings_new ids_new fuel dbs remote_ipod d ne open_db room
          m p ps carries enough)
        (λ tlist m' (held, _, _, _).
          let few : length (tracks_with lib d ps) < fuel = omega (
            arith,
            length-found lib mallocs strings_new ids_new fuel dbs remote_ipod d ne open_db room ps,
            room,
          ) in
          let (w, eq, shows) =
            transfer_alt_menu-ShowsTracks lib dbs remote_ipod d ne open_db fuel remote_ipod false
              (tracks_with lib d ps) tlist m'.ids held few all in
          rw eq (gives (w, refl, shows)))

  choose-Offers :
      (from : Level) (item : MenuItem) (m : Memory) (ps : List Param)
      → Carries m item.param ps
      → length ps + 1 < fuel
      → All (Resolves lib d) (tracks_with lib d (chosen ps from item))
      → Gives (Offers lib d remote_ipod (chosen ps from item)) (
          (choose mallocs from item >>= λ plist. show_tracks lib mallocs fuel dbs remote_ipod plist)
            m)
  choose-Offers from item m ps carries enough all =
      Gives-bind (choose-Denotes mallocs params_new lists_new m from item ps carries)
        (λ q m' (denotes, _, _, _).
          show_tracks-Offers m' q (chosen ps from item) (inr denotes) (short ps from item enough)
            all)

  -- Selecting a song opens the transfer menu over just the tracks of the remote iPod that have the
  -- values of the item's parameters and the title: their IDs in the database's order, how many they
  -- are, their sizes added up modulo 2^32, and the entries; it has no queue. Every `malloc` succeeds,
  -- the remote iPod is open, the fuel exceeds its tracks and the parameters, and each of the tracks
  -- is found again by its ID.
  open_song-Offers :
      (item : MenuItem) (m : Memory) (ps : List Param)
      → Carries m item.param ps
      → length ps + 1 < fuel
      → All (Resolves lib d) (tracks_with lib d (chosen ps songs item))
      → Gives
          (Offers lib d remote_ipod (chosen ps songs item))
          (open_song lib mallocs fuel dbs remote_ipod item m)
  unfolding open_song
  open_song-Offers item m ps carries enough all = choose-Offers songs item m ps carries enough all

  -- Holding the button on an artist or an album shows the transfer menu over just the tracks of the
  -- remote iPod that have the values of the item's parameters and that artist or album: their IDs in
  -- the database's order, how many they are, their sizes added up modulo 2^32, and the entries; it
  -- has no queue. Every `malloc` succeeds, the remote iPod is open, the fuel exceeds its tracks and
  -- the parameters, and each of the tracks is found again by its ID.
  pub held_handler-Offers :
      (from : Level) (item : MenuItem) (m : Memory) (ps : List Param)
      → Carries m item.param ps
      → length ps + 1 < fuel
      → All (Resolves lib d) (tracks_with lib d (chosen ps from item))
      → Gives
          (λ w m'.
            (v : Window) × (w ≡ some v) × Offers lib d remote_ipod (chosen ps from item) v m')
          (held_handler lib mallocs fuel dbs remote_ipod from true item m)
  unfolding held_handler
  held_handler-Offers from item m ps carries enough all =
      Gives-bind (choose-Denotes mallocs params_new lists_new m from item ps carries)
        (λ q m' (denotes, _, _, _).
          Gives-bind
            (show_tracks-Offers m' q (chosen ps from item) (inr denotes) (short ps from item enough)
              all)
            (λ w m'' offers. gives (w, refl, offers)))
