-- ===== src/Transfer/Progress/Bounds.antt =====
-- When the progress can be drawn, and what its bars show.
use native.Mathlib.Nat.{div-lt_iff_lt-mul}
use ipod_to_ipod.Base.{
  ℕ, ◌*◌, ◌/◌, ◌^◌, ◌<◌, ◌≤◌, Bool, some, List, ◌∷◌, Text, ltb, All, ◌≡◌, ◌⊎◌, inl, inr, arith, ap,
  ◌∙◌, Bool-cases,
}
use ipod_to_ipod.Libipod.{Libipod}
use ipod_to_ipod.Draw.{Call, Metrics, PzWidget, menu_font}
use ipod_to_ipod.Draw.Bars.{Within}
use ipod_to_ipod.Transfer.{Outcome, ok, ulong, Item, Transfer}
use ipod_to_ipod.Transfer.Run.{Copying}
use ipod_to_ipod.Transfer.Progress.{Line, percent}

percent-value : (a b : ℕ) → 0 < b → percent a b ≡ ok (ulong (a * 100) / b)
unfolding percent
percent-value a b pos = ground arith

percent-small :
    (a b : ℕ)
    → 0 < b
    → a ≤ b
    → b < 42949673
    → (percent a b ≡ ok (a * 100 / b)) × (a * 100 / b ≤ 100)
percent-small a b pos part small =
    let fits : ulong (a * 100) ≡ a * 100 = omega arith in
    let below : a * 100 / b < 101 = (div-lt_iff_lt-mul pos).1 (omega arith) in
    (percent-value a b pos ∙ ap (λ n. ok (n / b)) fits, omega (arith, below))

-- The percentage that is shown of a part of a file with at least one byte: below 42,949,673 bytes it
-- is 100 times the part divided by the size, rounded down, and at most 100; from there on, for a size
-- that an `unsigned long` holds, it never exceeds 99, not even for the whole file.
pub percent-part :
    (a b : ℕ)
    → 0 < b
    → a ≤ b
    → b < 2 ^ 32
    → (b < 42949673 × (percent a b ≡ ok (a * 100 / b)) × (a * 100 / b ≤ 100))
      ⊎ (42949673 ≤ b × ((per : ℕ) × (percent a b ≡ ok per) × (per ≤ 99)))
percent-part a b pos part small = elim (Bool-cases (ltb b 42949673)) [
  | inl under ↦
      let below : b < 42949673 = ground arith in
      let (eq, most) = percent-small a b pos part below in inl (below, eq, most)
  | inr over_it ↦
      let large : 42949673 ≤ b = ground arith in
      let cut : ulong (a * 100) / b < 100 = (div-lt_iff_lt-mul pos).1 (omega (arith, large)) in
      inr (large, (ulong (a * 100) / b, percent-value a b pos, omega (arith, cut)))
]

module _ (lib : Libipod) (metrics : Metrics Line) (has_bg : Bool) (wid : PzWidget)
    (wide : 12 ≤ wid.w) (narrow : wid.w < 2 ^ 24)
    (measures : (l : Line) → metrics.text_width menu_font l < 2 ^ 31) where
  open lib use {Db, Track, get_text}

  -- The state in which a track is copied, with sizes that the percentages are right for.
  pub record Drawable (s : Transfer lib) : Type 0 where
    pub item : Item Track
    pub items : List (Item Track)
    pub at_hand : s.cur_file ≡ item ∷ items
    pub track : Track
    pub is_track : item.src_track ≡ some track
    pub src_db : Db
    pub src_open : s.pod.dbs s.src_ipod ≡ some src_db
    pub not_empty : 0 < item.filesize
    pub part : s.file_bytes_transferred ≤ item.filesize
    pub small : item.filesize < 42949673

  -- With more than one file, there are bytes to transfer.
  abbrev pub HasTotals : Transfer lib → Type 0
  HasTotals s =
      1 < s.total_files
      → (0 < s.total_bytes)
        × (s.total_bytes_transferred ≤ s.total_bytes)
        × (s.total_bytes < 42949673)

  -- What is drawn, from left to right.
  abbrev pub Draws : Outcome (List (Call Line)) → Type 0
  Draws o = (calls : List (Call Line)) × (o ≡ ok calls) × All (Within metrics wid.w) calls

  -- The lines above the first bar, and its percentage.
  abbrev Shown : Outcome (List (Call Line) × ℕ) → Type 0
  Shown o =
      (calls : List (Call Line)) × (per : ℕ) × (o ≡ ok (calls, per))
      × (per ≤ 100)
      × All (Within metrics wid.w) calls

  -- A copy under way can be drawn: its source is open, and what was copied is a part of the file.
  pub Copying-Drawable :
      (item : Item Track) (items : List (Item Track)) (unread : List ℕ) (f : Text × List ℕ)
      (s : Transfer lib)
      → Copying lib item items unread f s
      → item.filesize < 42949673
      → Drawable s
  Copying-Drawable item items unread f s c small = record {
    item = item;
    items = items;
    at_hand = c.at_hand;
    track = c.track;
    is_track = c.is_track;
    src_db = c.connected.src_db;
    src_open = c.connected.src_open;
    not_empty = omega (arith, c.counted, c.not_done);
    part = omega (arith, c.counted);
    small = small;
  }
