-- ===== src/Polls.antt =====
-- The polls of connect.c, on the bytes of the files that they read: `poll_mount` on /proc/mounts,
-- `poll_connection` (as built for the iPod) on /proc/scsi/scsi, and `check_kernel_module` on what
-- lsmod prints. `none` is a file that `fopen` (or `popen`) does not open.
pub mod Mounts
pub mod Sysfs
use ipod_to_ipod.Base.{
  ℕ, zero, suc, Bool, true, false, Option, none, some, List, [], ◌∷◌, Text, length, drop, text_eq,
  ◌&&◌, ◌==◌, if◌then◌else◌,
}
use ipod_to_ipod.Pod.{Poll, poll_error, absent, present, misplaced}
use ipod_to_ipod.Transfer.{Outcome, ok, fault, null_string}

-- One `fgets` with room for that many bytes: up to a newline, and what is left of the file.
unfoldable pub fgets : ℕ → List ℕ → List ℕ × List ℕ
fgets zero file = ([], file)
fgets (suc n) [] = ([], [])
fgets (suc n) (c ∷ file) =
    let (line, rest) = fgets n file in if c == b'\n' then (c ∷ [], file) else (c ∷ line, rest)

-- The C string in a buffer: the bytes before the first NUL.
unfoldable pub c_string : List ℕ → Text
c_string [] = []
c_string (c ∷ s) = let rest = c_string s in if c == 0 then [] else c ∷ rest

-- `strchr(s, ' ')`: what stands before the first space, and what stands behind it.
unfoldable pub split_space : Text → Option (Text × Text)
split_space [] = none
split_space (c ∷ s) =
    let rest = split_space s in
    if c == b' '
    then some ([], s)
    else elim rest [ none ↦ none | some (before, after) ↦ some (c ∷ before, after) ]

-- `strncmp(s, prefix, strlen(prefix)) == 0`
unfoldable pub starts_with : Text → Text → Bool
starts_with s [] = true
starts_with [] (c ∷ prefix) = false
starts_with (b ∷ s) (c ∷ prefix) = (b == c) && starts_with s prefix

-- `strstr(s, key) + strlen(key)`
unfoldable pub after_key : Text → Text → Option Text
unfolding starts_with
after_key key [] = if starts_with [] key then some [] else none
after_key key (c ∷ s) =
    let rest = after_key key s in
    if starts_with (c ∷ s) key then some (drop (length key) (c ∷ s)) else rest

-- `ret==0`: whether the loop goes on, with what the lines that are left give.
unfoldable pub unless_found : Outcome Poll → Option (Outcome Poll) → Option (Outcome Poll)
unless_found (ok absent) rest = rest
unless_found (ok found) rest = some (ok found)
unless_found (fault e) rest = some (fault e)

-- `while (ret==0 && fgets (buf, 256, fp))`, with a value for each line.
unfoldable pub poll_lines : ℕ → (Text → Outcome Poll) → List ℕ → Option (Outcome Poll)
poll_lines zero body file = none
poll_lines (suc fuel) body [] = some (ok absent)
poll_lines (suc fuel) body (c ∷ file) =
    let read = fgets 255 (c ∷ file) in
    unless_found (body (c_string read.0)) (poll_lines fuel body read.1)

-- The body of the loop in `poll_mount`; a line with a single space has no mount point to cut off.
unfoldable pub mount_line : Text → Text → Text → Outcome Poll
unfolding split_space text_eq
mount_line device mountpoint line = elim (split_space line) [
  | none ↦ ok absent
  | some (buf, mountpt) ↦ elim (split_space mountpt) [
    | none ↦ fault null_string
    | some (mountpt', fstype) ↦
        if text_eq buf device
        then ok (if text_eq mountpt' mountpoint then present else misplaced)
        else ok absent
  ]
]

unfoldable pub poll_mount : ℕ → Option (List ℕ) → Text → Text → Option (Outcome Poll)
unfolding poll_lines mount_line
poll_mount fuel none device mountpoint = some (ok poll_error)
poll_mount fuel (some file) device mountpoint = poll_lines fuel (mount_line device mountpoint) file

-- "Vendor: ", "Model: ", ACCEPTED_VENDOR and ACCEPTED_MODEL
abbrev pub vendor_key : Text
vendor_key = b'V' ∷ b'e' ∷ b'n' ∷ b'd' ∷ b'o' ∷ b'r' ∷ b':' ∷ b' ' ∷ []

abbrev pub model_key : Text
model_key = b'M' ∷ b'o' ∷ b'd' ∷ b'e' ∷ b'l' ∷ b':' ∷ b' ' ∷ []

abbrev pub accepted_vendor : Text
accepted_vendor = b'A' ∷ b'p' ∷ b'p' ∷ b'l' ∷ b'e' ∷ []

abbrev pub accepted_model : Text
accepted_model = b'i' ∷ b'P' ∷ b'o' ∷ b'd' ∷ []

-- The body of the loop in `poll_connection`.
unfoldable pub scsi_line : Text → Outcome Poll
unfolding after_key starts_with
scsi_line line = elim (after_key vendor_key line) [
  | none ↦ ok absent
  | some vendor ↦ elim (after_key model_key line) [
    | none ↦ ok absent
    | some model ↦
        if starts_with vendor accepted_vendor && starts_with model accepted_model
        then ok present
        else ok absent
  ]
]

unfoldable pub poll_connection : ℕ → Option (List ℕ) → Option (Outcome Poll)
unfolding poll_lines scsi_line
poll_connection fuel none = some (ok poll_error)
poll_connection fuel (some file) = poll_lines fuel scsi_line file

-- `getline` until a line begins with the name; a line is read whole.
unfoldable pub module_lines : ℕ → Text → List ℕ → Option Poll
module_lines zero module_name file = none
module_lines (suc fuel) module_name [] = some absent
module_lines (suc fuel) module_name (c ∷ file) =
    let read = fgets (length (c ∷ file)) (c ∷ file) in
    let rest = module_lines fuel module_name read.1 in
    if starts_with (c_string read.0) module_name then some present else rest

-- The first line of what lsmod prints is skipped.
unfoldable pub check_kernel_module : ℕ → Option (List ℕ) → Text → Option Poll
unfolding module_lines
check_kernel_module fuel none module_name = some poll_error
check_kernel_module fuel (some printed) module_name =
    module_lines fuel module_name (fgets (length printed) printed).1
