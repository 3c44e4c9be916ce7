-- ===== src/Browser/Paths.antt =====
-- The path that `browser_transfer` builds in its buffer of 512 bytes.
use ipod_to_ipod.Base.{
  ℕ, ◌+◌, ◌<◌, ◌≤◌, Bool, true, false, some, [], ◌∷◌, ◌++◌, Text, length, length-append, ltb, ◌==◌,
  if◌then◌else◌, ◌≡◌, ◌⊎◌, inl, inr, refl, arith, Bool-cases,
}
use ipod_to_ipod.Pod.{Status}
use ipod_to_ipod.Transfer.{ok, fault, overflow}
use ipod_to_ipod.Actions.{do_nothing}
use ipod_to_ipod.Browser.{last_byte, strcat, add_slash, browser_transfer}

-- The directory with a slash at its end.
abbrev pub slashed : Text → ℕ → Text
slashed dir last = if last == b'/' then dir else dir ++ b'/' ∷ []

strcat-fits : (buf s : Text) → length buf + length s < 512 → strcat buf s ≡ ok (buf ++ s)
unfolding strcat
strcat-fits buf s fits = ground arith

strcat-overflow : (buf s : Text) → 512 ≤ length buf + length s → strcat buf s ≡ fault overflow
unfolding strcat
strcat-overflow buf s long = ground arith

length-slashed :
    (dir : Text) (last : ℕ) → (last == b'/') ≡ false → length (slashed dir last) ≡ length dir + 1
length-slashed dir last has_not = rw has_not (length-append dir (b'/' ∷ []))

add_slash-slashed :
    (dir : Text) (last : ℕ)
    → last_byte dir ≡ some last
    → length dir < 512
    → (add_slash dir ≡ ok (slashed dir last))
      ⊎ ((add_slash dir ≡ fault overflow) × (512 ≤ length (slashed dir last)))
unfolding add_slash
add_slash-slashed dir last ends fits = elim (Bool-cases (last == b'/')) [
  | inl has ↦ inl (rw (ends, has, add_slash) refl)
  | inr has_not ↦ elim (Bool-cases (ltb (length dir + 1) 512)) [
    | inl room ↦
        inl (rw (ends, has_not, add_slash) (strcat-fits dir (b'/' ∷ []) (ground (arith, room))))
    | inr full ↦ inr (
      rw (ends, has_not, add_slash) (strcat-overflow dir (b'/' ∷ []) (ground (arith, full))),
      ground (arith, full, length-slashed dir last has_not),
    )
  ]
]

after_slash :
    (dir name : Text) (st : Status) (last : ℕ)
    → add_slash dir ≡ ok (slashed dir last)
    → (length (slashed dir last) + length name < 512
        → (used : Bool) × (browser_transfer (some dir) st (some name)
            ≡ ok (do_nothing, some (slashed dir last ++ name, used), true)))
      × (512 ≤ length (slashed dir last) + length name
          → browser_transfer (some dir) st (some name) ≡ fault overflow)
unfolding browser_transfer
after_slash dir name st last eq = (
  λ fits. rw (eq, strcat-fits (slashed dir last) name fits) (_, refl),
  λ long. rw (eq, strcat-overflow (slashed dir last) name long) refl,
)

-- In a directory whose path `getcwd` fits into 512 bytes with its NUL, and on a name: if the
-- directory with a slash at its end, the name and a NUL fit into 512 bytes, the action gives the
-- message that it is not enabled, does nothing else, and that path is what it has built; otherwise it
-- writes past the end of its buffer.
pub browser_transfer-path :
    (dir name : Text) (st : Status) (last : ℕ)
    → last_byte dir ≡ some last
    → length dir < 512
    → (length (slashed dir last) + length name < 512
        → (used : Bool) × (browser_transfer (some dir) st (some name)
            ≡ ok (do_nothing, some (slashed dir last ++ name, used), true)))
      × (512 ≤ length (slashed dir last) + length name
          → browser_transfer (some dir) st (some name) ≡ fault overflow)
unfolding browser_transfer
browser_transfer-path dir name st last ends fits = elim (add_slash-slashed dir last ends fits) [
  | inl eq ↦ after_slash dir name st last eq
  | inr (eq, full) ↦ (λ short. absurd (omega (arith, full)), λ long. rw eq refl)
]
