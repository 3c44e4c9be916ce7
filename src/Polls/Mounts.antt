-- ===== src/Polls/Mounts.antt =====
-- `poll_mount` reads back what a table of mounts says.
use mathlib.Core.List.{append_assoc}
use ipod_to_ipod.Base.{
  ℕ, zero, suc, ◌<◌, false, some, List, [], ◌∷◌, ◌++◌, Text, length, length-append, text_eq, ◌≡◌,
  ◌≢◌, refl, ap, ◌∙◌, arith, All, ◌==◌, if◌then◌else◌, inl, inr, Bool-cases,
}
use ipod_to_ipod.Pod.{Poll, absent, present, misplaced}
use ipod_to_ipod.Transfer.{Outcome, ok}
use ipod_to_ipod.Polls.{
  fgets, c_string, split_space, poll_lines, unless_found, mount_line, poll_mount,
}

-- A line of /proc/mounts: the device, the mount point, and the other fields.
pub record Mount : Type 0 where
  pub device : Text
  pub mountpoint : Text
  pub others : Text

abbrev line : Mount → Text
line m = m.device ++ b' ' ∷ (m.mountpoint ++ b' ' ∷ m.others)

unfoldable pub mounts : List Mount → List ℕ
mounts [] = []
mounts (m ∷ ms) = line m ++ b'\n' ∷ mounts ms

-- A byte of a field, and a byte of a line.
abbrev FieldByte : ℕ → Type 0
FieldByte c = c ≢ b' ' × c ≢ b'\n' × c ≢ 0

abbrev LineByte : ℕ → Type 0
LineByte c = c ≢ b'\n' × c ≢ 0

-- The first two fields have no space, no field has a newline or a NUL, and the line fits the buffer.
pub record IsMount (m : Mount) : Type 0 where
  pub device_clean : All FieldByte m.device
  pub mountpoint_clean : All FieldByte m.mountpoint
  pub others_clean : All LineByte m.others
  pub fits : length (line m) < 255

-- What the table says about a device: the first line for it decides.
unfoldable pub mount_of : List Mount → Text → Text → Poll
unfolding text_eq
mount_of [] device mountpoint = absent
mount_of (m ∷ ms) device mountpoint =
    let rest = mount_of ms device mountpoint in
    if text_eq m.device device
    then if text_eq m.mountpoint mountpoint then present else misplaced
    else rest

line_bytes : (s : Text) → All FieldByte s → All LineByte s
line_bytes [] clean = tt
line_bytes (c ∷ s) (c_clean, clean) = ((c_clean.1, c_clean.2), line_bytes s clean)

bytes-append : (s t : Text) → All LineByte s → All LineByte t → All LineByte (s ++ t)
bytes-append [] t ps qs = qs
bytes-append (c ∷ s) t (p, ps) qs = (p, bytes-append s t ps qs)

line-clean : (m : Mount) → IsMount m → All LineByte (line m)
line-clean m is =
    bytes-append m.device (b' ' ∷ (m.mountpoint ++ b' ' ∷ m.others))
      (line_bytes m.device is.device_clean)
      (
        ground arith,
        bytes-append m.mountpoint (b' ' ∷ m.others) (line_bytes m.mountpoint is.mountpoint_clean)
            (ground arith, is.others_clean),
      )

fgets-line :
    (n : ℕ) (s : Text) (rest : List ℕ)
    → All LineByte s
    → length s < n
    → fgets n (s ++ b'\n' ∷ rest) ≡ (s ++ b'\n' ∷ [], rest)
unfolding fgets
fgets-line zero s rest clean fits = absurd (omega arith)
fgets-line (suc n) [] rest clean fits = refl
fgets-line (suc n) (c ∷ s) rest (c_clean, clean) fits =
    let other : (c == b'\n') ≡ false = ground (arith, c_clean.0) in
    rw (other, fgets-line n s rest clean (omega arith))

c_string-clean : (s : Text) → All LineByte s → c_string (s ++ b'\n' ∷ []) ≡ s ++ b'\n' ∷ []
unfolding c_string
c_string-clean [] clean = refl
c_string-clean (c ∷ s) (c_clean, clean) =
    let other : (c == 0) ≡ false = ground (arith, c_clean.1) in rw (other, c_string-clean s clean)

split_space-field : (s t : Text) → All FieldByte s → split_space (s ++ b' ' ∷ t) ≡ some (s, t)
unfolding split_space
split_space-field [] t clean = refl
split_space-field (c ∷ s) t (c_clean, clean) =
    let other : (c == b' ') ≡ false = ground (arith, c_clean.0) in
    rw (other, split_space-field s t clean)

line_newline :
    (m : Mount)
    → line m ++ b'\n' ∷ [] ≡ m.device ++ b' ' ∷ (m.mountpoint ++ b' ' ∷ (m.others ++ b'\n' ∷ []))
line_newline m =
    append_assoc m.device (b' ' ∷ (m.mountpoint ++ b' ' ∷ m.others)) (b'\n' ∷ [])
    ∙ ap (λ l. m.device ++ b' ' ∷ l) (append_assoc m.mountpoint (b' ' ∷ m.others) (b'\n' ∷ []))

-- What a single line says.
abbrev line_poll : Mount → Text → Text → Poll
line_poll m device mountpoint =
    if text_eq m.device device
    then if text_eq m.mountpoint mountpoint then present else misplaced
    else absent

unless_found-mount_of :
    (m : Mount) (ms : List Mount) (device mountpoint : Text)
    → unless_found (ok (line_poll m device mountpoint)) (some (ok (mount_of ms device mountpoint)))
      ≡ some (ok (mount_of (m ∷ ms) device mountpoint))
unfolding unless_found mount_of
unless_found-mount_of m ms device mountpoint = elim (Bool-cases (text_eq m.device device)) [
  | inl e ↦ elim (Bool-cases (text_eq m.mountpoint mountpoint)) [
    | inl e' ↦ rw (e, e') refl
    | inr e' ↦ rw (e, e') refl
  ]
  | inr e ↦ rw e refl
]

mount_line-line :
    (m : Mount) (device mountpoint : Text)
    → IsMount m
    → mount_line device mountpoint (line m ++ b'\n' ∷ []) ≡ ok (line_poll m device mountpoint)
unfolding mount_line
mount_line-line m device mountpoint is =
    ap (λ l. mount_line device mountpoint l) (line_newline m)
    ∙ rw
        (
          split_space-field m.device (m.mountpoint ++ b' ' ∷ (m.others ++ b'\n' ∷ []))
              is.device_clean,
          split_space-field m.mountpoint (m.others ++ b'\n' ∷ []) is.mountpoint_clean,
          mount_line,
        )
        (elim (Bool-cases (text_eq m.device device)) [ inl e ↦ rw e refl | inr e ↦ rw e refl ])

-- What the loop does with the first line of what is left.
poll_lines-step :
    (fuel : ℕ) (body : Text → Outcome Poll) (file : List ℕ) (s : Text) (left : List ℕ) (p : Poll)
    → 0 < length file
    → fgets 255 file ≡ (s, left)
    → body (c_string s) ≡ ok p
    → poll_lines (suc fuel) body file ≡ unless_found (ok p) (poll_lines fuel body left)
unfolding poll_lines
poll_lines-step fuel body [] s left p pos e v = absurd (omega arith)
poll_lines-step fuel body (c ∷ file) s left p pos e v =
    ap (λ read. unless_found (body (c_string read.0)) (poll_lines fuel body read.1)) e
    ∙ ap (λ found. unless_found found (poll_lines fuel body left)) v

-- `poll_mount` on a table of mounts, with fuel for its lines, returns 0 when no line is for the
-- expected device, 1 when the first line for it has the expected mount point, and 2 when that line
-- has another one; in a table the first two fields have no space, no field has a newline or a NUL, and
-- a line fits the buffer of 256 bytes.
pub poll_mount-mounts :
    (fuel : ℕ) (ms : List Mount) (device mountpoint : Text)
    → All IsMount ms
    → length ms < fuel
    → poll_mount fuel (some (mounts ms)) device mountpoint
      ≡ some (ok (mount_of ms device mountpoint))
unfolding poll_mount mounts mount_of
poll_mount-mounts zero ms device mountpoint are enough = absurd (omega arith)
poll_mount-mounts (suc fuel) [] device mountpoint are enough = refl
poll_mount-mounts (suc fuel) (m ∷ ms) device mountpoint (is, are) enough =
    poll_lines-step fuel (mount_line device mountpoint) (line m ++ b'\n' ∷ mounts ms)
      (line m ++ b'\n' ∷ []) (mounts ms) _
      (omega (arith, length-append (line m) (b'\n' ∷ mounts ms)))
      (fgets-line 255 (line m) (mounts ms) (line-clean m is) is.fits)
      (ap (λ l. mount_line device mountpoint l) (c_string-clean (line m) (line-clean m is))
        ∙ mount_line-line m device mountpoint is)
    ∙ ap (unless_found (ok (line_poll m device mountpoint)))
        (poll_mount-mounts fuel ms device mountpoint are (omega arith))
    ∙ unless_found-mount_of m ms device mountpoint
