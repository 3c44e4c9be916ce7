-- ===== src/Transfer/Run/Names.antt =====
-- Under which names the files of a run are written: each under the location of the moment at which its
-- copy started, and those moments follow one another.
use mathlib.Core.List.{reverse_aux}
use ipod_to_ipod.Base.{
  ℕ, suc, ◌≤◌, ◌<◌, Option, none, some, List, [], ◌∷◌, ◌++◌, Text, text_eq, text_eq_iff,
  if◌then◌else◌, ◌≡◌, ◌≢◌, refl, sym, ap, ◌∙◌, arith, All, true, false,
}
use ipod_to_ipod.Transfer.{Io}
use ipod_to_ipod.Transfer.Start.{slashes}

-- What a file holds once the streams of this log, newest first, have been closed with all that was
-- written to them: the stream that was opened last has truncated it.
unfoldable pub file_at : Text → List (Text × List ℕ) → Option (List ℕ)
file_at name [] = none
file_at name (f ∷ fs) = if text_eq name f.0 then some f.1 else file_at name fs

text_eq-false : (s t : Text) → s ≢ t → text_eq s t ≡ false
text_eq-false s t ne = ground (arith, text_eq_iff s t)

module _ (base : Text) (ios : ℕ → Io) (limit : ℕ) where
  -- The name of a file whose copy starts at the moment `k`.
  abbrev pub name_of : ℕ → Text
  name_of k = slashes (base ++ (ios k).location)

  -- The files are named at moments from `k` on and before the limit, one after the other.
  pub data Named : ℕ → List (Text × List ℕ) → Type 0 where
    all_named : {k : ℕ} → Named k []
    named_at :
        {k j : ℕ} {f : Text × List ℕ} {files : List (Text × List ℕ)}
        → k ≤ j
        → j < limit
        → f.0 ≡ name_of j
        → Named (suc j) files
        → Named k (f ∷ files)

  pub Named-weaken :
      {j k : ℕ} {files : List (Text × List ℕ)} → j ≤ k → Named k files → Named j files
  Named-weaken l all_named = all_named
  Named-weaken l (named_at from below e n) = named_at (omega (arith, l, from)) below e n

  module _ (fresh : (j k : ℕ) → j < k → k < limit → name_of j ≢ name_of k) where
    -- A name of an earlier moment is none of the later ones.
    file_at-later :
        (j k : ℕ) (files already : List (Text × List ℕ))
        → j < k
        → Named k files
        → file_at (name_of j) (reverse_aux files already) ≡ file_at (name_of j) already
    unfolding file_at
    file_at-later j k [] already l n = refl
    file_at-later j k (f ∷ files) already l (named_at {j = i} from below e n) =
        let other : text_eq (name_of j) f.0 ≡ false =
          text_eq-false (name_of j) f.0
            (λ same. fresh j i (omega (arith, l, from)) below (same ∙ e)) in
        file_at-later j (suc i) files (f ∷ already) (omega (arith, l, from)) n ∙ rw other refl

    -- Each of the files holds in the end what was written to it.
    pub file_at-Named :
        (k : ℕ) (files already : List (Text × List ℕ))
        → Named k files
        → All (λ f. file_at f.0 (reverse_aux files already) ≡ some f.1) files
    unfolding file_at
    file_at-Named k [] already n = tt
    file_at-Named k (f ∷ files) already (named_at {j = j} from below e n) =
        let same : text_eq (name_of j) f.0 ≡ true = (text_eq_iff (name_of j) f.0).1 (sym e) in
        (
          ap (λ name. file_at name (reverse_aux files (f ∷ already))) e
              ∙ file_at-later j (suc j) files (f ∷ already) (omega arith) n
              ∙ rw same refl,
          file_at-Named (suc j) files (f ∷ already) n,
        )
