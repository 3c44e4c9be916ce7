-- ===== src/Selection/Views.antt =====
-- What a window that a menu item opens shows: a menu, or the transfer menu.
use mathlib.Core.Path.{subst}
use ipod_to_ipod.Base.{false, List, [], map, ◌≡◌, ap, sym, ◌∙◌, ◌⊎◌}
use ipod_to_ipod.Pod.{Ptr, null}
use ipod_to_ipod.Libipod.{Libipod}
use ipod_to_ipod.Link.Chain.{IsList}
use ipod_to_ipod.AltMenu.{AltWindow}
use ipod_to_ipod.AltMenu.Counts.{ShowsTracks}
use ipod_to_ipod.ListUtils.{Param}
use ipod_to_ipod.ListUtils.Matches.{keep, matches, tracks_from}
use ipod_to_ipod.Selection.{Level, tag_of, MenuItem, Memory, list_at, Window, menu, transfer_menu}
use ipod_to_ipod.Selection.Chooses.{Denotes}
use ipod_to_ipod.Selection.Shows.{Shows}

pub Denotes-same :
    {m m' : Memory} {p : Ptr} {ps : List Param}
    → Denotes m p ps
    → m'.params ≡ m.params
    → m'.lists ≡ m.lists
    → Denotes m' p ps
Denotes-same {p} denotes params lists = record {
  ne = denotes.ne;
  list = denotes.list;
  there = ap (λ ls. list_at ls p) lists ∙ denotes.there;
  cells = denotes.cells;
  held = subst (λ h. IsList h denotes.list denotes.cells) (sym params) denotes.held;
  values = denotes.values;
}

module _ (lib : Libipod) (d : lib.Db) where
  -- The tracks with the values of all the parameters.
  abbrev pub tracks_with : List Param → List lib.Track
  tracks_with ps = keep (matches lib d ps) (tracks_from lib d (lib.track_count d) 0)

  -- A menu for the level over the tracks with the parameters, whose items carry a list of these
  -- parameters: the list of the item that opened it, if that had one.
  pub record Opens (level : Level) (item : MenuItem) (ps : List Param) (w : Window) (m : Memory)
      : Type 0 where
    pub shown : List MenuItem
    pub is_menu : w ≡ menu level shown
    pub param : Ptr
    pub denotes : Denotes m param ps
    pub shows :
        Shows level param (map (λ t. lib.get_text d t (tag_of level)) (tracks_with ps)) shown
    pub shared : (item.param ≡ null) ⊎ (param ≡ item.param)

  -- The transfer menu over the tracks with the parameters, without a queue.
  abbrev pub Offers : Ptr → List Param → Window → Memory → Type 0
  Offers remote_ipod ps w m =
      (window : AltWindow) × (w ≡ transfer_menu window)
      × ShowsTracks lib d remote_ipod remote_ipod false (tracks_with ps) window m.ids

  -- A menu over all the tracks, whose items carry no parameters.
  abbrev pub ShowsAll : Level → Window → Memory → Type 0
  ShowsAll level w m =
      (shown : List MenuItem) × (w ≡ menu level shown)
      × Shows level null (map (λ t. lib.get_text d t (tag_of level)) (tracks_with [])) shown
