-- ===== src/HumanSize.antt =====
-- `humanize_size` of podtopod.c, as the numbers that it prints and their unit.
use ipod_to_ipod.Base.{
  ℕ, ◌+◌, ◌*◌, ◌/◌, ◌%◌, ◌≤◌, ◌<◌, leb, if◌then◌else◌, ◌≡◌, refl, arith, inl, inr, Bool-cases,
}
use ipod_to_ipod.Transfer.{ulong}

-- "%ld.%01ld MB", "%ld.%01ld kB" and "%ld B".
pub data Printed : Type 0 where
  megabytes kilobytes : ℕ → ℕ → Printed
  bytes : ℕ → Printed

unfoldable pub humanize_size : ℕ → Printed
humanize_size size =
    if leb 1048576 size
    then megabytes (size / 1048576) (ulong (size * 10) / 1048576 % 10)
    else if leb 1024 size
    then kilobytes (size / 1024) (ulong (size * 10) / 1024 % 10)
    else bytes size

-- What is printed is the size, cut to a tenth of its unit; the unit is the largest that fits.
abbrev pub Cuts : ℕ → Printed → Type 0
Cuts size (megabytes w t) =
    0 < w × t < 10 × (10 * w + t) * 1048576 ≤ 10 * size × 10 * size < (10 * w + t + 1) * 1048576
Cuts size (kilobytes w t) =
    0 < w
    × w < 1024
    × t < 10
    × (10 * w + t) * 1024 ≤ 10 * size
    × 10 * size < (10 * w + t + 1) * 1024
Cuts size (bytes b) = b ≡ size × b < 1024

-- A size below 2^32 / 10 is printed in the largest of the units megabyte, kilobyte and byte of which
-- it has at least one (or else in bytes), cut to a tenth of the unit.
pub humanize_size-Cuts : (size : ℕ) → size < 429496730 → Cuts size (humanize_size size)
unfolding humanize_size
humanize_size-Cuts size small = elim (Bool-cases (leb 1048576 size)) [
  | inl large ↦
      let fits : 1048576 ≤ size = ground arith in
      rw (large, Cuts) (omega (arith, fits), omega arith, omega (arith, fits), omega (arith, fits))
  | inr less ↦ elim (Bool-cases (leb 1024 size)) [
    | inl middle ↦
        let fits : 1024 ≤ size = ground arith in
        let below : size < 1048576 = ground arith in
        rw (less, middle, Cuts)
          (
            omega (arith, fits),
            omega (arith, below),
            omega arith,
            omega (arith, below),
            omega (arith, below),
          )
    | inr little ↦ let below : size < 1024 = ground arith in rw (less, little, Cuts) (refl, below)
  ]
]
