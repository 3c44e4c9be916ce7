-- ===== src/About.antt =====
-- Two windows of text of podtopod.c: transfer_alt_stat_draw, the numbers above the transfer menu, and
-- the window "Info" (draw_about_remote_ipod_widget, event_remote_ipod_widget).
pub mod Says
use ipod_to_ipod.Base.{
  ℕ, Bool, true, false, Option, none, some, List, [], ◌∷◌, ◌++◌, Text, if◌then◌else◌,
}
use ipod_to_ipod.Pod.{Poll, truthy}
use ipod_to_ipod.Words.{plus, minus, times, over}
use ipod_to_ipod.HumanSize.{Printed, humanize_size}
use ipod_to_ipod.Draw.{
  Font, text_font, menu_font, Ink, window_fg, black, dark_grey, Call, text, line, PzWidget, Metrics,
}
use ipod_to_ipod.AltMenu.{AltWindow}
use ipod_to_ipod.Polls.{check_kernel_module}

-- "Selected:", "%i tracks." and "%s bytes."
pub data StatLine : Type 0 where
  selected : StatLine
  tracks : ℕ → StatLine
  total : Printed → StatLine

-- `y += ttk_text_height (ttk_textfont) + 1;`
abbrev pub next_line : {L : Type 0} → Metrics L → ℕ → ℕ
next_line metrics y = plus y (plus (metrics.text_height text_font) 1)

unfoldable pub transfer_alt_stat_draw :
    Metrics StatLine → PzWidget → AltWindow → List (Call StatLine)
transfer_alt_stat_draw metrics wid stats =
    let y = plus wid.y 5 in
    let y' = next_line metrics y in
    let y'' = next_line metrics y' in
    text text_font (plus wid.x 5) y window_fg selected
    ∷ text text_font (plus wid.x 5) y' window_fg (tracks stats.num_files)
    ∷ text text_font (plus wid.x 5) y'' window_fg (total (humanize_size stats.total_bytes))
    ∷ []

-- "Test", "Test2", "… loaded", "… NOT loaded", and "Press a button to quit."
pub data AboutLine : Type 0 where
  test test2 press_button : AboutLine
  loaded not_loaded : Text → AboutLine

-- "tsb43aa82", "scsi_mod", "sd_mod" and "sbp2"
abbrev pub checked : List Text
checked =
    (b't' ∷ b's' ∷ b'b' ∷ b'4' ∷ b'3' ∷ b'a' ∷ b'a' ∷ b'8' ∷ b'2' ∷ [])
    ∷ (b's' ∷ b'c' ∷ b's' ∷ b'i' ∷ b'_' ∷ b'm' ∷ b'o' ∷ b'd' ∷ [])
    ∷ (b's' ∷ b'd' ∷ b'_' ∷ b'm' ∷ b'o' ∷ b'd' ∷ [])
    ∷ (b's' ∷ b'b' ∷ b'p' ∷ b'2' ∷ [])
    ∷ []

-- `if (check_kernel_module(name))`
abbrev pub module_line : Text → Poll → AboutLine
module_line name poll = if truthy poll then loaded name else not_loaded name

-- The module's lines from `y` on, and the `y` below them; `lsmod` is what the program prints when it
-- is asked about a name. `none` is too little fuel.
unfoldable pub module_calls :
    ℕ
    → Metrics AboutLine
    → PzWidget
    → (Text → Option (List ℕ))
    → List Text
    → ℕ
    → Option (List (Call AboutLine) × ℕ)
unfolding check_kernel_module
module_calls fuel metrics wid lsmod [] y = some ([], y)
module_calls fuel metrics wid lsmod (name ∷ names) y =
    let rest = module_calls fuel metrics wid lsmod names (next_line metrics y) in
    elim (check_kernel_module fuel (lsmod name) name) [
      | none ↦ none
      | some poll ↦ elim rest [
        | none ↦ none
        | some (calls, below) ↦
            some (text text_font (plus wid.x 5) y black (module_line name poll) ∷ calls, below)
      ]
    ]

unfoldable pub draw_about_remote_ipod_widget :
    ℕ → Metrics AboutLine → PzWidget → (Text → Option (List ℕ)) → Option (List (Call AboutLine))
draw_about_remote_ipod_widget fuel metrics wid lsmod =
    let y = plus wid.y 5 in
    let y' = next_line metrics y in
    elim (module_calls fuel metrics wid lsmod checked (next_line metrics y')) [
      | none ↦ none
      | some (calls, below) ↦ some (
          text text_font (plus wid.x 5) y black test
          ∷ text text_font (plus wid.x 5) y' black test2
          ∷ (calls
              ++ (line (plus wid.x 5) (plus below 3) (minus (plus wid.x wid.w) 5) (plus below 3)
                    dark_grey
                  ∷ text menu_font
                      (plus wid.x
                        (over (minus wid.w (metrics.text_width menu_font press_button)) 2))
                      (minus (minus (plus wid.y wid.h) (metrics.text_height menu_font)) 5) black
                      press_button
                  ∷ [])))
    ]

-- PZ_EVENT_BUTTON_UP, PZ_EVENT_DESTROY, and the other events.
pub data Event : Type 0 where
  button_up destroy other_event : Event

-- Whether the window is still on the screen after the event.
unfoldable pub event_remote_ipod_widget : Event → Bool → Bool
event_remote_ipod_widget button_up shown = false
event_remote_ipod_widget _ shown = shown
