-- ===== src/Draw.antt =====
-- What the drawing functions of podtopod.c and transfer.c ask of ttk, as lists of calls. Coordinates
-- are `int`s by their bit patterns; the widths and the height of a font are parameters.
pub mod Bars
use ipod_to_ipod.Base.{ℕ, ◌+◌, ◌*◌, Bool, List, [], ◌∷◌, ◌++◌, if◌then◌else◌}
use ipod_to_ipod.Words.{plus, minus, times, less, over}

pub data Font : Type 0 where
  text_font menu_font : Font

-- The entries of the colour scheme, and the colours that are given as such.
pub data Ink : Type 0 where
  window_fg header_fg music_bar music_bar_bg black dark_grey red : Ink

-- A call, over the texts `L` that are drawn.
pub data Call (L : Type 0) : Type 0 where
  text : Font → (x y : ℕ) → Ink → L → Call L
  fillrect : Ink → (x1 y1 x2 y2 : ℕ) → Call L
  hline : Ink → (x1 x2 y : ℕ) → Call L
  vline : Ink → (x y1 y2 : ℕ) → Call L
  line rect : (x1 y1 x2 y2 : ℕ) → Ink → Call L
  ellipse : (x y rx ry : ℕ) → Ink → Call L

-- `PzWidget`, as far as drawing reads it.
pub record PzWidget : Type 0 where
  pub x : ℕ
  pub y : ℕ
  pub w : ℕ
  pub h : ℕ

-- The measures of the fonts.
pub record Metrics (L : Type 0) : Type 0 where
  pub text_width : Font → L → ℕ
  pub text_height : Font → ℕ

-- `w` of the bar, `x` of the bar, and `pw`, in `int`s.
unfoldable pub bar_span : ℕ → ℕ
bar_span wid_w = minus wid_w (over wid_w 6)

unfoldable pub bar_left : ℕ → ℕ
unfolding bar_span
bar_left wid_w = over (minus wid_w (bar_span wid_w)) 2

unfoldable pub bar_width : (w per : ℕ) → ℕ
bar_width w per = over (times w (if less 100 per then 100 else per)) 100

module _ {L : Type 0} where
  -- The calls for a bar, over its `x`, `w` and `pw`.
  unfoldable pub bar_calls : Bool → (x w pw y : ℕ) → List (Call L)
  bar_calls has_bg x w pw y =
      (if has_bg then fillrect music_bar_bg x y (plus x (plus w 1)) (plus y 9) ∷ [] else [])
      ++ (fillrect music_bar x y (plus x (plus pw 1)) (plus y 9)
          ∷ hline window_fg x (plus x w) (minus y 1)
          ∷ hline window_fg x (plus x w) (plus y 9)
          ∷ vline window_fg (minus x 1) y (plus y 8)
          ∷ vline window_fg (plus x (plus w 1)) y (plus y 8)
          ∷ [])

  -- The flag says whether the scheme has "music.bar.bg".
  unfoldable pub fill_copied_percent : Bool → PzWidget → (per y : ℕ) → List (Call L)
  unfolding bar_span bar_left bar_width bar_calls
  fill_copied_percent has_bg wid per y =
      bar_calls has_bg (bar_left wid.w) (bar_span wid.w) (bar_width (bar_span wid.w) per) y

  unfoldable pub pp_place_text : Metrics L → PzWidget → L → ℕ → Call L
  pp_place_text metrics wid s num =
      let w = metrics.text_width menu_font s in
      let h = metrics.text_height menu_font in
      text menu_font (if less w wid.w then over (minus wid.w w) 2 else 8)
        (minus (times h num) (over (times 2 h) 3)) window_fg s
