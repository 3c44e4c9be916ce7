-- ===== src/Link/Chain.antt =====
-- What a chain of nodes in the heap stands for: the address and the item of each, in order.
use ipod_to_ipod.Base.{
  Bool, true, false, Option, none, some, List, [], ◌∷◌, ◌++◌, ◌≡◌, refl, ◌≢◌, ◌==◌, ◌||◌, arith,
}
use ipod_to_ipod.Pod.{Ptr, null}
use ipod_to_ipod.Link.{Node, Heap, Handle, at}

abbrev pub Cells : Type 0 → Type 0
Cells A = List (Ptr × A)

module _ {A : Type 0} where
  -- Whether an address is that of a cell.
  unfoldable pub holds : Ptr → Cells A → Bool
  holds a [] = false
  holds a ((p, _) ∷ xs) = (a == p) || holds a xs

  -- From `p` the `next` pointers lead through distinct nodes to `NULL`.
  pub data Chain (h : Heap A) : Ptr → Cells A → Type 0 where
    nil : Chain h null []
    cons :
        {p q : Ptr} {a : A} {xs : Cells A}
        → p ≢ null
        → at h p ≡ some (record { item = a; next = q })
        → holds p xs ≡ false
        → Chain h q xs
        → Chain h p ((p, a) ∷ xs)

  -- `tail` points at the last cell; it is not read while there is none.
  abbrev pub IsLast : Option Ptr → Cells A → Type 0
  IsLast t [] = Unit {0}
  IsLast t ((p, a) ∷ []) = t ≡ some p
  IsLast t (x ∷ y ∷ xs) = IsLast t (y ∷ xs)

  pub record IsList (h : Heap A) (l : Handle) (xs : Cells A) : Type 0 where
    pub chain : Chain h l.head xs
    pub last : IsLast l.tail xs

  -- A chain survives a write elsewhere.
  pub frame :
      {h : Heap A} {p : Ptr} {xs : Cells A} (a : Ptr) (c : Option (Node A))
      → Chain h p xs
      → holds a xs ≡ false
      → Chain ((a, c) ∷ h) p xs
  unfolding holds at
  frame a c nil o = nil
  frame a c (cons {p} ne e out s) o = cons ne (ground arith) out (frame a c s (ground arith))

  -- A free address is not in a chain.
  pub holds_free :
      {h : Heap A} {p : Ptr} {xs : Cells A} (a : Ptr)
      → Chain h p xs
      → at h a ≡ none
      → holds a xs ≡ false
  unfolding holds
  holds_free a nil f = refl
  holds_free a (cons ne e out s) f = ground (arith, holds_free a s f)

  pub holds-append :
      (a p : Ptr) (x : A) (xs : Cells A) → holds a (xs ++ (p, x) ∷ []) ≡ (holds a xs || (a == p))
  unfolding holds
  holds-append a p x [] = ground arith
  holds-append a p x ((q, y) ∷ xs) = ground (arith, holds-append a p x xs)

  pub holds_last :
      (t : Ptr) (x : Ptr × A) (xs : Cells A) → IsLast (some t) (x ∷ xs) → holds t (x ∷ xs) ≡ true
  unfolding holds
  holds_last t (p, a) [] e = ground arith
  holds_last t (p, a) ((q, b) ∷ xs) e = ground (arith, holds_last t (q, b) xs e)

  pub IsLast-append : (p : Ptr) (x : A) (xs : Cells A) → IsLast (some p) (xs ++ (p, x) ∷ [])
  IsLast-append p x [] = refl
  IsLast-append p x (y ∷ []) = refl
  IsLast-append p x (y ∷ z ∷ xs) = IsLast-append p x (z ∷ xs)

  -- The write `tail->next = fresh` makes the new node the last of the chain.
  pub link :
      {h : Heap A} {p : Ptr} {xs : Cells A} (fresh : Ptr) (x : A)
      → Chain h p xs
      → fresh ≢ null
      → at h fresh ≡ some (record { item = x; next = null })
      → holds fresh xs ≡ false
      → (t : Ptr) (n : Node A) → IsLast (some t) xs
      → xs ≢ []
      → at h t ≡ some n
      → Chain ((t, some (record n { next = fresh })) ∷ h) p (xs ++ (fresh, x) ∷ [])
  unfolding holds at
  link fresh x nil fn ef out t n l ne en = absurd (ne refl)
  link fresh x (cons {p} {xs = []} np e o s) fn ef out t n l ne en =
      cons np (ground arith) (ground arith) (cons fn (ground arith) refl nil)
  link fresh x (cons {p} {xs = y ∷ ys} np e o s) fn ef out t n l ne en =
      cons np (ground (arith, holds_last t y ys l))
        (ground (arith, holds-append p fresh x (y ∷ ys)))
        (link fresh x s fn ef (ground arith) t n l (λ z. cc) en)
