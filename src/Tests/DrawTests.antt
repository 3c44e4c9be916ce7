-- ===== src/Tests/DrawTests.antt =====
-- The transfer window on a widget of 160 by 128 pixels, with a font of 10 pixels.
use ipod_to_ipod.Base.{ℕ, ◌<◌, ◌≤◌, ◌⊎◌, ◌*◌, ◌/◌, ◌≡◌, refl, arith}
use ipod_to_ipod.Draw.{Metrics, PzWidget}
use ipod_to_ipod.Transfer.{ok}
use ipod_to_ipod.Transfer.Progress.{Line, percent}
use ipod_to_ipod.Transfer.Progress.Bounds.{percent-part}

abbrev screen : PzWidget
screen = record { x = 0; y = 20; w = 160; h = 108 }

abbrev metrics : Metrics Line
metrics = record { text_width = λ font l. 60; text_height = λ font. 10 }

percent-part_example :
    (42949673 < 42949673
      × (percent 42949673 42949673 ≡ ok (42949673 * 100 / 42949673))
      × (42949673 * 100 / 42949673 ≤ 100))
    ⊎ (42949673 ≤ 42949673 × ((per : ℕ) × (percent 42949673 42949673 ≡ ok per) × (per ≤ 99)))
percent-part_example = percent-part 42949673 42949673 (omega arith) (omega arith) (omega arith)

-- The whole of a file of 42,949,673 bytes is shown as nothing.
wrapped : percent 42949673 42949673 ≡ ok 0
unfolding percent
wrapped = refl
