-- ===== src/Tests/SizeTests.antt =====
-- Sizes as they are printed.
use ipod_to_ipod.Base.{◌≡◌, refl, arith}
use ipod_to_ipod.HumanSize.{humanize_size, megabytes, kilobytes, Cuts, humanize_size-Cuts}

-- 1536 bytes are "1.5 kB".
half : humanize_size 1536 ≡ kilobytes 1 5
unfolding humanize_size
half = refl

humanize_size-Cuts_example : Cuts 1536 (humanize_size 1536)
humanize_size-Cuts_example = humanize_size-Cuts 1536 (omega arith)

-- A gigabyte is "1024.8 MB": ten times its size does not fit 32 bits.
gigabyte : humanize_size 1073741824 ≡ megabytes 1024 8
unfolding humanize_size
gigabyte = refl
