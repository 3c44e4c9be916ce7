-- ===== src/Transfer/Outcomes.antt =====
-- What a chain of outcomes tells of its parts, and chains that free nothing twice.
use mathlib.Core.Path.{subst}
use ipod_to_ipod.Base.{
  ap, sym, ◌∙◌, Bool, true, false, Option, none, some, ◌≡◌, refl, if◌then◌else◌,
}
use ipod_to_ipod.Transfer.{Fault, double_free, Outcome, ok, fault, ◌>>=◌}

pub ok-bind :
    {A B : Type 0} (m : Outcome A) (f : A → Outcome B) (b : B)
    → (m >>= f) ≡ ok b
    → (a : A) × (m ≡ ok a) × (f a ≡ ok b)
ok-bind (ok a) f b e = (a, refl, e)
ok-bind (fault x) f b e = absurd (cc e)

abbrev pub frees_twice : Fault → Bool
frees_twice double_free = true
frees_twice _ = false

-- The outcome is a value with the property, or a fault that the test does not find.
pub data Post {A : Type 0} (bad : Fault → Bool) (P : A → Type 0) : Outcome A → Type 0 where
  safe : {a : A} → P a → Post bad P (ok a)
  faulty : {x : Fault} → bad x ≡ false → Post bad P (fault x)

-- Nothing is freed twice; any fault is taken.
abbrev pub Safe : {A : Type 0} → (A → Type 0) → Outcome A → Type 0
Safe P m = Post frees_twice P m

abbrev pub Partly : {A : Type 0} → (A → Type 0) → Outcome A → Type 0
Partly P m = Post (λ x. false) P m

pub any : {A : Type 0} (m : Outcome A) → Partly (λ a. Unit) m
any (ok a) = safe tt
any (fault x) = faulty refl

module _ {bad : Fault → Bool} where
  pub Post-bind :
      {A B : Type 0} {P : A → Type 0} {Q : B → Type 0} {m : Outcome A} {f : A → Outcome B}
      → Post bad P m
      → ((a : A) → P a → Post bad Q (f a))
      → Post bad Q (m >>= f)
  Post-bind (safe {a} p) g = g a p
  Post-bind (faulty h) g = faulty h

  pub Post-weaken :
      {A : Type 0} {P Q : A → Type 0} {m : Outcome A}
      → Post bad P m
      → ((a : A) → P a → Q a)
      → Post bad Q m
  Post-weaken (safe {a} p) g = safe (g a p)
  Post-weaken (faulty h) g = faulty h

  pub Post-if :
      {A : Type 0} {P : A → Type 0} {m n : Outcome A} (b : Bool)
      → (b ≡ true → Post bad P m)
      → (b ≡ false → Post bad P n)
      → Post bad P (if b then m else n)
  Post-if true h g = h refl
  Post-if false h g = g refl

  pub Post-option :
      {A B : Type 0} {P : B → Type 0} {m : Outcome B} {f : A → Outcome B} (o : Option A)
      → (o ≡ none → Post bad P m)
      → ((a : A) → o ≡ some a → Post bad P (f a))
      → Post bad P (elim o [ none ↦ m | some a ↦ f a ])
  Post-option none h g = h refl
  Post-option (some a) h g = g a refl

  pub Post-ok :
      {A : Type 0} {P : A → Type 0} {m : Outcome A} {a : A} → m ≡ ok a → Post bad P m → P a
  Post-ok {P = P} {a = a} e (safe {a = b} p) = let same : b ≡ a = cc e in subst P same p
  Post-ok e (faulty h) = absurd (cc e)

  pub Post-fault :
      {A : Type 0} {P : A → Type 0} {m : Outcome A} {x : Fault}
      → m ≡ fault x
      → Post bad P m
      → bad x ≡ false
  Post-fault e (safe p) = absurd (cc e)
  Post-fault {x = x} e (faulty {x = y} h) = let same : y ≡ x = cc e in ap bad (sym same) ∙ h
