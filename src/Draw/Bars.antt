-- ===== src/Draw/Bars.antt =====
-- Where the progress bar is drawn.
use ipod_to_ipod.Base.{
  ℕ, ◌+◌, ◌-◌, ◌*◌, ◌/◌, ◌^◌, ◌<◌, ◌≤◌, Bool, false, List, [], ◌∷◌, ◌++◌, if◌then◌else◌, ◌≡◌, ◌⊎◌,
  arith,
}
use native.Mathlib.Nat.{mul-le-mul_left}
use ipod_to_ipod.Words.{less}
use ipod_to_ipod.Draw.{
  Call, Metrics, text, fillrect, hline, vline, line, rect, ellipse, bar_span, bar_left, bar_width,
  music_bar, music_bar_bg, window_fg,
}

module _ {L : Type 0} where
  -- From left to right within a width. A text that is narrower is in the middle, and so ends within it;
  -- one that is not starts at 8, wherever it ends.
  abbrev pub Within : Metrics L → ℕ → Call L → Type 0
  Within metrics w (text font x y ink l) =
      (metrics.text_width font l < w
        × (x ≡ (w - metrics.text_width font l) / 2)
        × (x + metrics.text_width font l ≤ w))
      ⊎ (w ≤ metrics.text_width font l × (x ≡ 8))
  Within metrics w (fillrect ink x1 y1 x2 y2) = x1 < x2 × x2 ≤ w
  Within metrics w (hline ink x1 x2 y) = x1 < x2 × x2 ≤ w
  Within metrics w (vline ink x y1 y2) = x ≤ w
  Within metrics w (line x1 y1 x2 y2 ink) = x1 < x2 × x2 ≤ w
  Within metrics w (rect x1 y1 x2 y2 ink) = x1 < x2 × x2 ≤ w
  Within metrics w (ellipse x y rx ry ink) = x + rx ≤ w

pub bar_width-percent : (w per : ℕ) → w < 2 ^ 24 → per ≤ 100 → bar_width w per ≡ w * per / 100
unfolding bar_width
bar_width-percent w per small most =
    let part : w * per ≤ w * 100 = mul-le-mul_left w most in
    let not_more : less 100 per ≡ false = ground arith in rw not_more (ground (arith, part))

pub bar_span-share : (w : ℕ) → w < 2 ^ 24 → bar_span w ≡ w - w / 6
unfolding bar_span
bar_span-share w small = ground arith

pub bar_left-margin : (w : ℕ) → w < 2 ^ 24 → bar_left w ≡ w / 6 / 2
unfolding bar_left bar_span
bar_left-margin w small = ground arith

module _ {L : Type 0} where
  -- The bar without the limits of `int`s: from `left` on, `span` wide, `filled` of it.
  unfoldable pub plain_bar : Bool → (left span filled y : ℕ) → List (Call L)
  plain_bar has_bg left span filled y =
      (if has_bg then fillrect music_bar_bg left y (left + span + 1) (y + 9) ∷ [] else [])
      ++ (fillrect music_bar left y (left + filled + 1) (y + 9)
          ∷ hline window_fg left (left + span) (y - 1)
          ∷ hline window_fg left (left + span) (y + 9)
          ∷ vline window_fg (left - 1) y (y + 8)
          ∷ vline window_fg (left + span + 1) y (y + 8)
          ∷ [])
