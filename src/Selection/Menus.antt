-- ===== src/Selection/Menus.antt =====
-- What the three menus show and what their items do: the functions of artist.c, album.c and song.c.
use ipod_to_ipod.Base.{ℕ, Bool, true, false, Option, none, some, List}
use ipod_to_ipod.Pod.{Ptr, null}
use ipod_to_ipod.Libipod.{Libipod}
use ipod_to_ipod.AltMenu.{transfer_alt_menu}
use ipod_to_ipod.ListUtils.{TrackList, track_search_id, string_list_track_search}
use ipod_to_ipod.Selection.{
  Level, artists, albums, songs, tag_of, MenuItem, Mallocs, Action, ◌>>=◌, pure, put_back, param_at,
  choose, pop_items, Window, menu, transfer_menu,
}

module _ (lib : Libipod) (mallocs : Mallocs) (fuel : ℕ) (dbs : Ptr → Option lib.Db)
    (remote_ipod : Ptr) where
  -- The body that the three `populate_pp_…` share.
  unfoldable pub populate : Level → Ptr → Action (List MenuItem)
  populate level param = do
    plist ← param_at param
    list ← λ m.
        put_back (λ h. record m { strings = h })
          (string_list_track_search lib fuel mallocs.string dbs remote_ipod (tag_of level) plist
            m.params m.strings)
    λ m. put_back (λ h. record m { strings = h }) (pop_items fuel level param list m.strings)

  -- `track_search_id(remote_ipod, plist)`
  unfoldable pub search_ids : Ptr → Action (Option TrackList)
  search_ids param = do
    plist ← param_at param
    λ m.
        put_back (λ h. record m { ids = h })
          (track_search_id lib fuel mallocs.id dbs remote_ipod plist m.params m.ids)

  -- `transfer_alt_menu(tlist, remote_ipod, NULL, NULL)`
  unfoldable pub show_tracks : Ptr → Action Window
  show_tracks param = do
    tlist ← search_ids param
    window ← λ m.
        put_back (λ h. record m { ids = h })
          (transfer_alt_menu lib fuel dbs remote_ipod tlist remote_ipod false m.ids)
    pure (transfer_menu window)

  unfoldable pub populate_pp_artists : Ptr → Action (List MenuItem)
  unfolding populate
  populate_pp_artists param = populate artists param

  unfoldable pub populate_pp_albums : Ptr → Action (List MenuItem)
  unfolding populate
  populate_pp_albums param = populate albums param

  unfoldable pub populate_pp_songs : Ptr → Action (List MenuItem)
  unfolding populate
  populate_pp_songs param = populate songs param

  unfoldable pub new_pp_artist_menu : Action Window
  unfolding populate_pp_artists
  new_pp_artist_menu = do items ← populate_pp_artists null; pure (menu artists items)

  unfoldable pub new_pp_album_menu : Action Window
  unfolding populate_pp_albums
  new_pp_album_menu = do items ← populate_pp_albums null; pure (menu albums items)

  unfoldable pub new_pp_song_menu : Action Window
  unfolding populate_pp_songs
  new_pp_song_menu = do items ← populate_pp_songs null; pure (menu songs items)

  unfoldable pub open_artist : MenuItem → Action Window
  unfolding populate_pp_albums
  open_artist item = do
    plist ← choose mallocs artists item
    items ← populate_pp_albums plist
    pure (menu albums items)

  unfoldable pub open_album : MenuItem → Action Window
  unfolding populate_pp_songs
  open_album item = do
    plist ← choose mallocs albums item
    items ← populate_pp_songs plist
    pure (menu songs items)

  unfoldable pub open_song : MenuItem → Action Window
  unfolding show_tracks
  open_song item = do plist ← choose mallocs songs item; show_tracks plist

  -- The body that the held handlers of artists and albums share: the window that is shown, if any.
  unfoldable pub held_handler : Level → Bool → MenuItem → Action (Option Window)
  unfolding show_tracks
  held_handler level false item = pure none
  held_handler level true item = do
    plist ← choose mallocs level item
    window ← show_tracks plist
    pure (some window)

  unfoldable pub artist_held_handler : Bool → MenuItem → Action (Option Window)
  unfolding held_handler
  artist_held_handler action item = held_handler artists action item

  unfoldable pub album_held_handler : Bool → MenuItem → Action (Option Window)
  unfolding held_handler
  album_held_handler action item = held_handler albums action item

  -- The window that `open_song` returns is not shown.
  unfoldable pub song_held_handler : Bool → MenuItem → Action (Option Window)
  unfolding open_song
  song_held_handler false item = pure none
  song_held_handler true item = do window ← open_song item; pure none
