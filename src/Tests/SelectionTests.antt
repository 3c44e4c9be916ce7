-- ===== src/Tests/SelectionTests.antt =====
-- The selection menus and the transfer menu over three tracks of one artist on two albums.
use ipod_to_ipod.Base.{
  ℕ, suc, ◌+◌, ◌≤◌, ◌<◌, true, false, Option, none, some, [], ◌∷◌, text_eq, ◌≡◌, refl, inl, inr,
  arith, ◌==◌, if◌then◌else◌, Bool,
}
use ipod_to_ipod.Pod.{Ptr, null}
use ipod_to_ipod.Link.{at, list_add, list_pop}
use ipod_to_ipod.Link.Chain.{cons, nil, holds}
use ipod_to_ipod.ListUtils.{Param, param_list_add, string_list_track_search}
use ipod_to_ipod.ListUtils.Matches.{Ends, keep, matches, tracks_from}
use ipod_to_ipod.AltMenu.{AltWindow, local_transfer_alt_menu}
use ipod_to_ipod.AltMenu.Counts.{ShowsTracks}
use ipod_to_ipod.AltMenu.Local.{local_transfer_alt_menu-ShowsTracks}
use ipod_to_ipod.Selection.{
  artists, albums, songs, MenuItem, Memory, Mallocs, Lists, list_at, Result, ◌>>=◌, Window, menu,
  choose, list_or_new, add_in_place, param_at, put_back, pop_items, transfer_menu,
}
use ipod_to_ipod.Selection.Menus.{open_artist, open_album, held_handler, album_held_handler}
use ipod_to_ipod.Selection.Chooses.{Denotes, Gives, IsListMalloc, chosen}
use ipod_to_ipod.Selection.Views.{Opens, Offers}
use ipod_to_ipod.Selection.Opens.{open_artist-open_album-Opens, held_handler-Offers}
use ipod_to_ipod.Selection.Again.{open_album-again}
use ipod_to_ipod.Sample.{Table, table, next_address, next_address-IsMalloc}

-- Three tracks by "x": "a" and "b" on the album "p", "c" on "q"; the ID of a track is its index.
abbrev three_tracks : Table
three_tracks = record {
  size = 3;
  texts = λ t tag.
      if tag == 4
      then b'x' ∷ []
      else if tag == 3
      then (if t == 2 then b'q' ∷ [] else b'p' ∷ [])
      else if t == 0
      then b'a' ∷ []
      else if t == 1
      then b'b' ∷ []
      else b'c' ∷ [];
  numbers = λ t tag. if tag == 2000 then t else 5;
}

abbrev dbs : Ptr → Option Table
dbs p = if p == 1 then some three_tracks else none

abbrev next_list : Lists → Ptr
next_list [] = 1
next_list ((p, l) ∷ lists) = suc p + next_list lists

list_at_above : (lists : Lists) (a : Ptr) → next_list lists ≤ a → list_at lists a ≡ none
unfolding list_at
list_at_above [] a l = refl
list_at_above ((p, c) ∷ lists) a l = ground (arith, list_at_above lists a)

next_list_pos : (lists : Lists) → 0 < next_list lists
next_list_pos [] = omega arith
next_list_pos ((p, l) ∷ lists) = omega arith

next_list-IsListMalloc : IsListMalloc next_list
next_list-IsListMalloc lists =
    (omega (arith, next_list_pos lists), list_at_above lists (next_list lists) (omega arith))

abbrev mallocs : Mallocs
mallocs = record {
  param = next_address;
  list = next_list;
  string = next_address;
  id = next_address;
}

abbrev empty : Memory
empty = record { params = []; lists = []; strings = []; ids = [] }

abbrev item_x : MenuItem
item_x = record { name = b'x' ∷ []; param = null; level = artists }

abbrev item_q : MenuItem
item_q = record { name = b'q' ∷ []; param = null; level = albums }

abbrev item_c : MenuItem
item_c = record { name = b'c' ∷ []; param = null; level = songs }

-- The memory after "x" was selected: a list with the artist, at 1.
abbrev artist_x : Param
artist_x = record { tag = 4; value = b'x' ∷ [] }

abbrev artist_chosen : Memory
artist_chosen = record empty {
  params = (1, some (record { item = artist_x; next = null })) ∷ [];
  lists = (1, record { head = 1; tail = some 1 }) ∷ [];
}

artist_chosen-Denotes : Denotes artist_chosen 1 (artist_x ∷ [])
unfolding list_at at holds
artist_chosen-Denotes = record {
  ne = ground arith;
  list = record { head = 1; tail = some 1 };
  there = refl;
  cells = (1, artist_x) ∷ [];
  held = record { chain = cons (ground arith) refl refl nil; last = refl };
  values = refl;
}

open_artist-open_album-Opens_example :
    Gives
      (Opens table three_tracks albums item_x (chosen [] artists item_x))
      (open_artist table mallocs 4 dbs 1 item_x empty)
    × Gives
        (Opens table three_tracks songs item_x (chosen [] albums item_x))
        (open_album table mallocs 4 dbs 1 item_x empty)
open_artist-open_album-Opens_example =
    open_artist-open_album-Opens table mallocs next_address-IsMalloc next_list-IsListMalloc
      next_address-IsMalloc next_address-IsMalloc 4 dbs 1 three_tracks (ground arith) refl
      (omega arith) item_x empty [] (inl (refl, refl)) (omega arith)

held_handler-Offers_example :
    Gives
      (λ w m'.
        (v : Window) × (w ≡ some v)
        × Offers table three_tracks 1 (chosen (artist_x ∷ []) albums item_q) v m')
      (held_handler table mallocs 4 dbs 1 albums true (record item_q { param = 1 }) artist_chosen)
unfolding keep matches tracks_from text_eq
held_handler-Offers_example =
    held_handler-Offers table mallocs next_address-IsMalloc next_list-IsListMalloc
      next_address-IsMalloc next_address-IsMalloc 4 dbs 1 three_tracks (ground arith) refl
      (omega arith) albums (record item_q { param = 1 }) artist_chosen (artist_x ∷ [])
      (inr artist_chosen-Denotes) (omega arith) (refl, tt)

abbrev shared_p : MenuItem
shared_p = record { name = b'p' ∷ []; param = 1; level = albums }

abbrev shared_q : MenuItem
shared_q = record { name = b'q' ∷ []; param = 1; level = albums }

open_album-again_example :
    Gives
      (λ w _. w ≡ menu songs [])
      ((open_album table mallocs 4 dbs 1 shared_p >>= λ _.
          open_album table mallocs 4 dbs 1 shared_q)
        artist_chosen)
    × Gives
        (λ w m'.
          (window : AltWindow) × (w ≡ some (transfer_menu window))
          × ShowsTracks table three_tracks 1 1 false [] window m'.ids)
        ((open_album table mallocs 4 dbs 1 shared_p >>= λ _.
            album_held_handler table mallocs 4 dbs 1 true shared_q)
          artist_chosen)
open_album-again_example =
    open_album-again table mallocs next_address-IsMalloc next_list-IsListMalloc
      next_address-IsMalloc next_address-IsMalloc 4 dbs 1 three_tracks (ground arith) refl
      (omega arith) shared_p shared_q artist_chosen (artist_x ∷ []) refl (ground arith)
      artist_chosen-Denotes (omega arith)

-- The first time, the album "q" has a song.
abbrev is_menu_of : ℕ → Result Window → Bool
is_menu_of n (Result.ok (menu songs (i ∷ [])) m) = n == 1
is_menu_of n r = false

first_time : is_menu_of 1 (open_album table mallocs 4 dbs 1 shared_q artist_chosen) ≡ true
unfolding open_album choose list_or_new add_in_place param_list_add list_add at param_at put_back
    string_list_track_search text_eq pop_items list_pop
first_time = refl

-- The local tracks of the album "p".
local_transfer_alt_menu-ShowsTracks_example :
    Ends (ShowsTracks table three_tracks 1 null false (0 ∷ 1 ∷ [])) (
      local_transfer_alt_menu table 4 next_address next_address dbs 1 null none
        (some (b'p' ∷ []))
        none
        false
        []
        [])
unfolding keep matches tracks_from text_eq
local_transfer_alt_menu-ShowsTracks_example =
    local_transfer_alt_menu-ShowsTracks table next_address next_address next_address-IsMalloc
      next_address-IsMalloc dbs 1 three_tracks (ground arith) refl 4 null none (some (b'p' ∷ []))
      none false [] [] (omega arith) (omega arith) (refl, (refl, tt))
