-- ===== src/Transfer/Progress.antt =====
-- `draw_transfer_widget` of transfer.c: what the transfer window shows while it copies and after.
pub mod Bounds
use ipod_to_ipod.Base.{
  ℕ, ◌+◌, ◌*◌, ◌/◌, Bool, Option, none, some, List, [], ◌∷◌, ◌++◌, Text, length, ◌==◌, ltb, leb,
  if◌then◌else◌,
}
use ipod_to_ipod.Pod.{Status, transferring, Ptr}
use ipod_to_ipod.Libipod.{Libipod}
use ipod_to_ipod.HumanSize.{Printed, humanize_size}
use ipod_to_ipod.Draw.{Call, Metrics, PzWidget, pp_place_text, fill_copied_percent}
use ipod_to_ipod.Transfer.{
  Outcome, ok, fault, ◌>>=◌, no_current_file, freed_ipod, null_string, overflow, divided_by_zero,
  ulong, Item, Transfer,
}

-- The texts, before they are printed: a track's artist or title, the two names of a plain file, the
-- sizes "%s / %s", the messages, "File %i of %i" and "%s / %s total".
pub data Line : Type 0 where
  tag_text source_name destination_name : Text → Line
  sizes total_sizes : Printed → Printed → Line
  aborted completed press_menu : Line
  file_of : ℕ → ℕ → Line

-- `sbuf`
abbrev pub line_room : ℕ
line_room = 128

-- `a * 100 / b` on `unsigned long`
unfoldable pub percent : ℕ → ℕ → Outcome ℕ
percent a b = if b == 0 then fault divided_by_zero else ok (ulong (a * 100) / b)

-- `sprintf(sbuf, "From: %s", cur_file->src_filename)`, and the same for "To: %s".
unfoldable pub print_name : ℕ → (Text → Line) → Option Text → Outcome Line
print_name prefix line none = fault null_string
print_name prefix line (some name) =
    if ltb (prefix + length name) line_room then ok (line name) else fault overflow

module _ (lib : Libipod) (metrics : Metrics Line) (has_bg : Bool) (wid : PzWidget) where
  open lib use {Db, Track, get_text}

  -- The first two lines: IPOD_ARTIST and IPOD_TITLE, or the names of a plain file.
  unfoldable pub name_lines : (Ptr → Option Db) → Ptr → Item Track → Outcome (List (Call Line))
  unfolding print_name
  name_lines dbs src_ipod item = elim item.src_track [
    | none ↦ print_name 6 source_name (some item.src_filename) >>= λ from.
        print_name 4 destination_name item.dst_filename >>= λ to.
        ok (pp_place_text metrics wid from 1 ∷ pp_place_text metrics wid to 2 ∷ [])
    | some t ↦ elim (dbs src_ipod) [
      | none ↦ fault freed_ipod
      | some d ↦ ok (
          pp_place_text metrics wid (tag_text (get_text d t 4)) 1
          ∷ pp_place_text metrics wid (tag_text (get_text d t 1)) 2
          ∷ [])
    ]
  ]

  -- `cur_file` while transferring: what is drawn above the first bar, and its percentage.
  unfoldable pub file_lines : List (Item Track) → Transfer lib → Outcome (List (Call Line) × ℕ)
  unfolding name_lines percent
  file_lines [] s = fault no_current_file
  file_lines (item ∷ items) s = name_lines s.pod.dbs s.src_ipod item >>= λ names.
      percent s.file_bytes_transferred item.filesize >>= λ per. ok (
        names
            ++ pp_place_text metrics wid
                (sizes (humanize_size s.file_bytes_transferred) (humanize_size item.filesize)) 3
              ∷ [],
        per,
      )

  -- The first `if`, by the status.
  unfoldable pub status_lines : Status → Transfer lib → Outcome (List (Call Line) × ℕ)
  unfolding file_lines
  status_lines transferring s = file_lines s.cur_file s
  status_lines _ s = ok (
    pp_place_text metrics wid (elim s.cur_file [ [] ↦ completed | item ∷ items ↦ aborted ]) 1
        ∷ pp_place_text metrics wid press_menu 2
        ∷ [],
    100,
  )

  -- `if (total_files > 1)`; `sbuf` is printed into itself, which is read as appending to it.
  unfoldable pub total_lines : Transfer lib → Outcome (List (Call Line))
  unfolding percent
  total_lines s =
      if leb s.total_files 1
      then ok []
      else percent s.total_bytes_transferred s.total_bytes >>= λ tpercent. ok (
          pp_place_text metrics wid
            (file_of (s.total_files_transferred + elim s.cur_file [ [] ↦ 0 | item ∷ items ↦ 1 ])
              s.total_files)
            6
          ∷ pp_place_text metrics wid
              (total_sizes (humanize_size s.total_bytes_transferred) (humanize_size s.total_bytes))
              7
          ∷ fill_copied_percent has_bg wid tpercent 97)

  unfoldable pub draw_transfer_widget : Transfer lib → Outcome (List (Call Line))
  unfolding status_lines total_lines
  draw_transfer_widget s = status_lines s.pod.rip_status s >>= λ shown. total_lines s >>= λ totals.
      ok (shown.0 ++ (fill_copied_percent has_bg wid shown.1 46 ++ totals))
