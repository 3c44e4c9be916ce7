-- ===== src/Selection/Again.antt =====
-- A menu that is used again: its items share one parameter list, and every selection adds to it.
use mathlib.Core.Path.{subst}
use ipod_to_ipod.Base.{
  ℕ, ◌+◌, ◌<◌, true, false, Option, some, List, [], ◌∷◌, ◌++◌, map, All, Text, length,
  length-append, length-map, ◌≤◌, ◌⊎◌, text_eq_iff, ◌≡◌, refl, ap, sym, ◌∙◌, ◌≢◌, ◌&&◌, Bool, inl,
  inr, arith,
}
use ipod_to_ipod.Pod.{Ptr, null}
use ipod_to_ipod.Libipod.{Libipod}
use ipod_to_ipod.AltMenu.{AltWindow}
use ipod_to_ipod.AltMenu.Counts.{Resolves, ShowsTracks}
use ipod_to_ipod.ListUtils.{Param}
use ipod_to_ipod.ListUtils.Matches.{IsMalloc, keep, matches, tracks_from}
use ipod_to_ipod.Selection.{
  songs, albums, tag_of, MenuItem, Memory, Mallocs, ◌>>=◌, Window, menu, transfer_menu,
}
use ipod_to_ipod.Selection.Menus.{open_album, album_held_handler}
use ipod_to_ipod.Selection.Shows.{item_for}
use ipod_to_ipod.Selection.Chooses.{
  Gives-weaken, Denotes, Carries, Gives, Gives-bind, IsListMalloc, chosen,
}
use ipod_to_ipod.Selection.Views.{Opens, tracks_with}
use ipod_to_ipod.Selection.Opens.{open_artist-open_album-Opens, held_handler-Offers}

no_names : (names : List Text) → length names ≤ 0 → names ≡ []
no_names [] none_there = refl
no_names (n ∷ names) none_there = absurd (omega arith)

Or_right : {p q : Ptr} → p ≢ null → (p ≡ null) ⊎ (q ≡ p) → q ≡ p
Or_right ne (inl e) = absurd (ne e)
Or_right ne (inr e) = e

keep_none : {A : Type 0} (p : A → Bool) (xs : List A) → ((x : A) → p x ≡ false) → keep p xs ≡ []
unfolding keep
keep_none p [] never = refl
keep_none p (x ∷ xs) never = ground (arith, never x, keep_none p xs never)

module _ (lib : Libipod) (d : lib.Db) where
  matches-append :
      (ps qs : List Param) (t : lib.Track)
      → matches lib d (ps ++ qs) t ≡ (matches lib d ps t && matches lib d qs t)
  unfolding matches
  matches-append [] qs t = refl
  matches-append (p ∷ ps) qs t = ground (arith, matches-append ps qs t)

  -- Two values under one tag: no track has both.
  matches_both :
      (ps : List Param) (tag : ℕ) (v w : Text) (t : lib.Track)
      → v ≢ w
      → matches lib d
          ((ps ++ record { tag = tag; value = v } ∷ []) ++ record { tag = tag; value = w } ∷ [])
          t
        ≡ false
  unfolding matches
  matches_both ps tag v w t differ = ground (
    arith,
    matches-append (ps ++ record { tag = tag; value = v } ∷ [])
        (record { tag = tag; value = w } ∷ []) t,
    matches-append ps (record { tag = tag; value = v } ∷ []) t,
    text_eq_iff (lib.get_text d t tag) v,
    text_eq_iff (lib.get_text d t tag) w,
    differ,
  )

module _ (lib : Libipod) (mallocs : Mallocs) (params_new : IsMalloc mallocs.param)
    (lists_new : IsListMalloc mallocs.list) (strings_new : IsMalloc mallocs.string)
    (ids_new : IsMalloc mallocs.id) (fuel : ℕ) (dbs : Ptr → Option lib.Db) (remote_ipod : Ptr)
    (d : lib.Db) (ne : remote_ipod ≢ null) (open_db : dbs remote_ipod ≡ some d)
    (room : lib.track_count d < fuel) where
  open lib use {Db, Track, track_count, get_text, get_attribute}

  abbrev both : List Param → MenuItem → MenuItem → List Param
  both ps a b = chosen (chosen ps albums a) albums b

  -- No track is on both of two albums.
  no_tracks :
      (ps : List Param) (a b : MenuItem) → a.name ≢ b.name → tracks_with lib d (both ps a b) ≡ []
  no_tracks ps a b differ =
      keep_none _ (tracks_from lib d (track_count d) 0)
        (λ t. matches_both lib d ps (tag_of albums) a.name b.name t differ)

  empty_menu :
      (item : MenuItem) (ps : List Param) (w : Window) (m : Memory)
      → tracks_with lib d ps ≡ []
      → Opens lib d songs item ps w m
      → w ≡ menu songs []
  empty_menu item ps w m none_found opens =
      opens.is_menu
      ∙ ap (λ l. menu songs l)
          (opens.shows.is_menu
            ∙ ap (map (item_for songs opens.param)) (
                no_names opens.shows.names (
                  omega (
                    arith,
                    opens.shows.short,
                    length-map (tracks_with lib d ps) (λ t. get_text d t (tag_of songs)),
                    ap (λ l. length l) none_found,
                  ))))

  chosen_short :
      (ps : List Param) (a : MenuItem)
      → length ps + 2 < fuel
      → length (chosen ps albums a) + 1 < fuel
  chosen_short ps a enough =
      omega (arith, length-append ps (record { tag = tag_of albums; value = a.name } ∷ []))

  after_first :
      (a b : MenuItem) (m : Memory) (ps : List Param)
      → a.param ≡ b.param
      → Denotes m a.param ps
      → length ps + 2 < fuel
      → Gives
          (λ _ m'. Carries m' b.param (chosen ps albums a))
          (open_album lib mallocs fuel dbs remote_ipod a m)
  after_first a b m ps same denotes enough =
      Gives-weaken
        ((open_artist-open_album-Opens lib mallocs params_new lists_new strings_new ids_new fuel dbs
          remote_ipod d ne open_db room a m ps (inr denotes) (omega (arith, enough))).1)
        (λ w m' opens. inr (
          subst (λ p. Denotes m' p (chosen ps albums a)) (Or_right denotes.ne opens.shared ∙ same)
            opens.denotes))

  -- In a menu of albums whose items carry one parameter list: once one album has been opened, opening
  -- another album of the same menu shows no song, and holding the button on it offers no track,
  -- whatever the database has. Every `malloc` succeeds, the remote iPod is open, and the fuel exceeds
  -- its tracks and the parameters.
  pub open_album-again :
      (a b : MenuItem) (m : Memory) (ps : List Param)
      → a.param ≡ b.param
      → a.name ≢ b.name
      → Denotes m a.param ps
      → length ps + 2 < fuel
      → Gives
          (λ w _. w ≡ menu songs [])
          ((open_album lib mallocs fuel dbs remote_ipod a >>= λ _.
              open_album lib mallocs fuel dbs remote_ipod b)
            m)
        × Gives
            (λ w m'.
              (window : AltWindow) × (w ≡ some (transfer_menu window))
              × ShowsTracks lib d remote_ipod remote_ipod false [] window m'.ids)
            ((open_album lib mallocs fuel dbs remote_ipod a >>= λ _.
                album_held_handler lib mallocs fuel dbs remote_ipod true b)
              m)
  unfolding album_held_handler
  open_album-again a b m ps same differ denotes enough =
      let none_found = no_tracks ps a b differ in
      let fits = chosen_short ps a enough in
      (
        Gives-bind (after_first a b m ps same denotes enough) (λ _ m' carries.
            Gives-weaken
              ((open_artist-open_album-Opens lib mallocs params_new lists_new strings_new ids_new
                fuel dbs remote_ipod d ne open_db room b m' (chosen ps albums a) carries fits).1)
              (λ w m'' opens. empty_menu b (both ps a b) w m'' none_found opens)),
        Gives-bind (after_first a b m ps same denotes enough) (λ _ m' carries.
            Gives-weaken
              (held_handler-Offers lib mallocs params_new lists_new strings_new ids_new fuel dbs
                remote_ipod d ne open_db room albums b m' (chosen ps albums a) carries fits
                (subst (All (Resolves lib d)) (sym none_found) tt))
              (λ w m'' (v, is_window, (window, is_menu, shows)). (
                window,
                is_window ∙ ap some is_menu,
                subst (λ ts. ShowsTracks lib d remote_ipod remote_ipod false ts window m''.ids)
                    none_found shows,
              ))),
      )
