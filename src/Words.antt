-- ===== src/Words.antt =====
-- The `int` of C with 32 bits, as its bit pattern.
use ipod_to_ipod.Base.{ℕ, ◌+◌, ◌-◌, ◌*◌, ◌/◌, ◌^◌, Bool, leb, ltb, if◌then◌else◌}
use ipod_to_ipod.Transfer.{ulong}

abbrev pub plus : ℕ → ℕ → ℕ
plus a b = ulong (a + b)

abbrev pub minus : ℕ → ℕ → ℕ
minus a b = ulong (a + (2 ^ 32 - b))

abbrev pub times : ℕ → ℕ → ℕ
times a b = ulong (a * b)

-- `a < b`: both are moved up by 2^31, so that the negative ones come first.
abbrev pub less : ℕ → ℕ → Bool
less a b = ltb (plus a (2 ^ 31)) (plus b (2 ^ 31))

-- `a / b` for a positive `b`: towards 0.
abbrev pub over : ℕ → ℕ → ℕ
over a b = if leb (2 ^ 31) a then minus 0 ((2 ^ 32 - a) / b) else a / b
