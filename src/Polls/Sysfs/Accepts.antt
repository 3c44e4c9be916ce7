-- ===== src/Polls/Sysfs/Accepts.antt =====
-- What `poll_connection` finds in sysfs: a device whose files begin with the accepted names.
use ipod_to_ipod.Base.{
  ℕ, zero, suc, ◌≤◌, Bool, true, false, Option, none, some, List, [], ◌∷◌, Text, length, All, ◌&&◌,
  ◌||◌, not, ◌==◌, if◌then◌else◌, ◌≡◌, ◌≢◌, refl, arith, ap, sym, ◌∙◌, Bool-cases, inl, inr,
}
use ipod_to_ipod.Pod.{Poll, absent, present}
use ipod_to_ipod.Transfer.{Outcome, ok, ◌>>=◌}
use ipod_to_ipod.Polls.{fgets, c_string, starts_with, accepted_vendor, accepted_model}
use ipod_to_ipod.Polls.Sysfs.{Device, chomp, attribute, if_accepted, poll_devices, poll_connection}

-- A byte of a name: neither NUL nor a newline.
abbrev Plain : ℕ → Type 0
Plain c = (c ≢ 0) × (c ≢ b'\n')

fgets-starts_with :
    (prefix : Text) (n : ℕ) (file : List ℕ)
    → All Plain prefix
    → length prefix ≤ n
    → starts_with (c_string (fgets n file).0) prefix ≡ starts_with file prefix
unfolding starts_with c_string fgets
fgets-starts_with [] n file plain fits = refl
fgets-starts_with (p ∷ prefix) zero file plain fits = absurd (omega arith)
fgets-starts_with (p ∷ prefix) (suc n) [] plain fits = refl
fgets-starts_with (p ∷ prefix) (suc n) (c ∷ file) ((p0, pn), plain) fits =
    ground (arith, fgets-starts_with prefix n file plain (omega arith), p0, pn)

chomp-starts_with :
    (prefix : Text) (s : Text)
    → All Plain prefix
    → starts_with (chomp s) prefix ≡ starts_with s prefix
unfolding starts_with chomp
chomp-starts_with [] s plain = refl
chomp-starts_with (p ∷ prefix) [] plain = refl
chomp-starts_with (p ∷ prefix) (c ∷ []) ((p0, pn), plain) = ground (arith, p0, pn)
chomp-starts_with (p ∷ prefix) (c ∷ (d ∷ s)) ((p0, pn), plain) =
    ap (λ b. (c == p) && b) (chomp-starts_with prefix (d ∷ s) plain)

-- A file that begins with a byte other than NUL.
pub data IsLine : List ℕ → Type 0 where
  is_line : {c : ℕ} {file : List ℕ} → c ≢ 0 → IsLine (c ∷ file)

first_line :
    (n c : ℕ) (file : List ℕ) → c ≢ 0 → (s : Text) × (c_string (fgets (suc n) (c ∷ file)).0 ≡ c ∷ s)
unfolding c_string fgets
first_line n c file ne = elim (Bool-cases (c == b'\n')) [
  | inl ends ↦ let not_nul : (c == 0) ≡ false = ground (arith, ne) in rw (ends, not_nul) (_, refl)
  | inr goes ↦ let not_nul : (c == 0) ≡ false = ground (arith, ne) in rw (goes, not_nul) (_, refl)
]

-- What is kept of a file: a text that begins with the same names as the file.
abbrev Begins : List ℕ → Text → Type 0
Begins file s =
    (prefix : Text)
    → All Plain prefix
    → length prefix ≤ 63
    → starts_with s prefix ≡ starts_with file prefix

attribute-Begins :
    (file : List ℕ) → IsLine file → (s : Text) × (attribute file ≡ ok s) × Begins file s
unfolding attribute
attribute-Begins [] line = elim line [ ]
attribute-Begins (c ∷ file) (is_line ne) =
    let (s, eq) = first_line 62 c file ne in
    (
      chomp (c ∷ s),
      rw (eq, attribute) refl,
      λ prefix plain fits.
          chomp-starts_with prefix (c ∷ s) plain
          ∙ ap (λ l. starts_with l prefix) (sym eq)
          ∙ fgets-starts_with prefix 63 (c ∷ file) plain fits,
    )

-- A file that is there begins with the name; one that is not does not.
abbrev pub file_starts_with : Option (List ℕ) → Text → Bool
file_starts_with none prefix = false
file_starts_with (some file) prefix = starts_with file prefix

-- A device of Apple's that is an iPod, by the bytes of its files, under a name that is not hidden.
abbrev pub accepts : Device → Bool
accepts dev =
    not (starts_with dev.d_name (b'.' ∷ []))
    && (file_starts_with dev.model accepted_model && file_starts_with dev.vendor accepted_vendor)

unfoldable pub any_accepted : List Device → Bool
any_accepted [] = false
any_accepted (dev ∷ devices) = accepts dev || any_accepted devices

-- A file has a line, if it is there.
abbrev pub HasLine : Option (List ℕ) → Type 0
HasLine none = Unit {0}
HasLine (some file) = IsLine file

pub record HasLines (dev : Device) : Type 0 where
  pub model : HasLine dev.model
  pub vendor : HasLine dev.vendor

model-Plain : All Plain accepted_model
model-Plain = ground arith

vendor-Plain : All Plain accepted_vendor
vendor-Plain = ground arith

abbrev answer : Bool → Outcome Poll
answer b = ok (if b then present else absent)

both_files :
    (m v : Bool) (rest : Outcome Poll) (b : Bool)
    → rest ≡ answer b
    → (if m && v then ok present else rest) ≡ answer ((m && v) || b)
both_files true true rest b eq = refl
both_files true false rest b eq = eq
both_files false v rest b eq = eq

no_vendor : (m b : Bool) → answer b ≡ answer ((m && false) || b)
no_vendor true b = refl
no_vendor false b = refl

-- One turn of the loop, over whether the name is hidden and the two files.
one_device :
    (hidden : Bool) (m v : Option (List ℕ)) (rest : Outcome Poll) (b : Bool)
    → rest ≡ answer b
    → HasLine m
    → HasLine v
    → (if hidden then rest else elim m [
      | none ↦ rest
      | some file ↦ attribute file >>= λ model. elim v [
        | none ↦ rest
        | some file' ↦ attribute file' >>= λ vendor. if_accepted model vendor rest
      ]
    ])
      ≡ answer (
          (not hidden && (file_starts_with m accepted_model && file_starts_with v accepted_vendor))
          || b)
unfolding if_accepted
one_device true m v rest b eq has_m has_v = eq
one_device false none v rest b eq has_m has_v = eq
one_device false (some f) none rest b eq has_m has_v =
    let (s, read, begins) = attribute-Begins f has_m in
    rw read (eq ∙ no_vendor (starts_with f accepted_model) b)
one_device false (some f) (some g) rest b eq has_m has_v =
    let (s, read, begins) = attribute-Begins f has_m in
    let (t, read', begins') = attribute-Begins g has_v in
    rw
      (
        read,
        read',
        begins accepted_model model-Plain (omega arith),
        begins' accepted_vendor vendor-Plain (omega arith),
      )
      (both_files (starts_with f accepted_model) (starts_with g accepted_vendor) rest b eq)

poll_devices-accepts :
    (devices : List Device)
    → All HasLines devices
    → poll_devices devices ≡ answer (any_accepted devices)
unfolding poll_devices any_accepted
poll_devices-accepts [] lines = refl
poll_devices-accepts (dev ∷ devices) (has, lines) =
    one_device (starts_with dev.d_name (b'.' ∷ [])) dev.model dev.vendor (poll_devices devices)
      (any_accepted devices) (poll_devices-accepts devices lines) has.model has.vendor

-- On a directory that can be opened, where the files `model` and `vendor` of the devices that have
-- them begin with a byte other than NUL: the poll gives 1 exactly if some device whose name does not
-- begin with a dot has both files, of which the first begins with "iPod" and the second with "Apple",
-- and 0 otherwise.
pub poll_connection-any_accepted :
    (devices : List Device)
    → All HasLines devices
    → poll_connection (some devices) ≡ ok (if any_accepted devices then present else absent)
unfolding poll_connection
poll_connection-any_accepted devices lines = poll_devices-accepts devices lines
