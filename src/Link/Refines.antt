-- ===== src/Link/Refines.antt =====
-- `list_add` and `list_pop` on the heap do what appending and taking the first do on the sequence.
use mathlib.Core.Path.{subst}
use ipod_to_ipod.Base.{false, Option, none, some, [], ◌∷◌, ◌++◌, ◌≡◌, refl, ◌≢◌, ◌==◌, arith}
use ipod_to_ipod.Pod.{Ptr, null}
use ipod_to_ipod.Link.{Node, Heap, Handle, Run, ok, at, load, free, list_add, list_pop}
use ipod_to_ipod.Link.Chain.{
  Cells, holds, Chain, nil, cons, IsLast, IsList, frame, holds_free, holds-append, holds_last,
  IsLast-append, link,
}

pub ne_null : (p : Ptr) → p ≢ null → (p == null) ≡ false
ne_null p h = ground arith

module _ {A : Type 0} where
  -- The heap `g` differs from `h` at most at the cells of `xs` and at `fresh`.
  abbrev pub SameElsewhere : Cells A → Heap A → Heap A → Type 0
  SameElsewhere xs h g = (a : Ptr) → holds a xs ≡ false → at g a ≡ at h a

  -- A run that ends in a list of the given cells, having written only there.
  pub data Builds (h : Heap A) (xs : Cells A) : Run A Handle → Type 0 where
    builds : {l : Handle} {g : Heap A} → IsList g l xs → SameElsewhere xs h g → Builds h xs (ok l g)

  pub data Pops (h : Heap A) (a : A) (p : Ptr) (xs : Cells A)
      : Run A (Option A × Handle) → Type 0 where
    pops :
        {l : Handle} {g : Heap A}
        → IsList g l xs
        → at g p ≡ none
        → ((q : Ptr) → q ≢ p → at g q ≡ at h q)
        → Pops h a p xs (ok (some a, l) g)

  eq_null : {h : Heap A} {p : Ptr} → Chain h p [] → p ≡ null
  eq_null nil = refl

  last_node :
      {h : Heap A} {p : Ptr} {x : Ptr × A} {xs : Cells A} (t : Option Ptr)
      → Chain h p (x ∷ xs)
      → IsLast t (x ∷ xs)
      → (q : Ptr) × (n : Node A) × (t ≡ some q) × (at h q ≡ some n) × (q ≢ null)
  last_node t (cons {p} {q} {a} {xs = []} ne e o s) l = (p, record { item = a; next = q }, l, e, ne)
  last_node t (cons {p} {xs = y ∷ ys} ne e o s) l = last_node t s l

  pub load-ok : (p : Ptr) (n : Node A) (h : Heap A) → p ≢ null → at h p ≡ some n → load p h ≡ ok n h
  unfolding load
  load-ok p n h ne e = rw (ne_null p ne, e)

  -- `list_add` on a list that is not empty, step by step.
  add-eq :
      (h : Heap A) (p q fresh : Ptr) (a : A) (m : Node A)
      → p ≢ null
      → q ≢ null
      → fresh ≢ null
      → at ((fresh, some (record { item = a; next = null })) ∷ h) q ≡ some m
      → list_add fresh (record { head = p; tail = some q }) a h
        ≡ ok
            (record { head = p; tail = some fresh })
            ((q, some (record m { next = fresh }))
              ∷ (fresh, some (record { item = a; next = null }))
              ∷ h)
  unfolding list_add
  add-eq h p q fresh a m np nq nf e = rw (ne_null fresh nf, ne_null p np, load-ok q m _ nq e)

  add-Builds :
      {h : Heap A} {p : Ptr} {xs : Cells A} (t : Option Ptr) (fresh : Ptr) (a : A)
      → Chain h p xs
      → IsLast t xs
      → fresh ≢ null
      → at h fresh ≡ none
      → Builds h (xs ++ (fresh, a) ∷ []) (list_add fresh (record { head = p; tail = t }) a h)
  unfolding list_add at holds
  add-Builds t fresh a nil l ne e =
      rw (ne_null fresh ne)
        (builds (record { chain = cons ne (ground arith) refl nil; last = refl }) (ground arith))
  add-Builds {h} t fresh a (cons {p} {q} {a = b} {xs} n e' o s) l ne e =
      let (r, m, et, er, nr) = last_node t (cons n e' o s) l in
      let hf : holds fresh ((p, b) ∷ xs) ≡ false = holds_free fresh (cons n e' o s) e in
      let l' : IsLast (some r) ((p, b) ∷ xs) = subst (λ z. IsLast z ((p, b) ∷ xs)) et l in
      rw (et, add-eq h p r fresh a m n nr ne (ground arith))
        (builds
          (record {
            chain =
                link fresh a (frame fresh _ (cons n e' o s) hf) ne (ground arith) hf r m l'
                  (λ z. cc) (ground arith);
            last = IsLast-append fresh a ((p, b) ∷ xs);
          })
          (λ c out.
            ground (arith, holds-append c fresh a ((p, b) ∷ xs), holds_last r (p, b) xs l')))

  -- On a list that holds `xs`, with an address that is free, `list_add` ends in a list that holds
  -- `xs` and then the new item, and writes nowhere else.
  pub list_add-Builds :
      {h : Heap A} {l : Handle} {xs : Cells A} (fresh : Ptr) (a : A)
      → IsList h l xs
      → fresh ≢ null
      → at h fresh ≡ none
      → Builds h (xs ++ (fresh, a) ∷ []) (list_add fresh l a h)
  list_add-Builds {l} fresh a i ne e = add-Builds l.tail fresh a i.chain i.last ne e

  free-ok :
      (p : Ptr) (n : Node A) (h : Heap A)
      → p ≢ null
      → at h p ≡ some n
      → free p h ≡ ok tt ((p, none) ∷ h)
  unfolding free
  free-ok p n h ne e = rw (load-ok p n h ne e)

  pop-eq :
      (h : Heap A) (p : Ptr) (t : Option Ptr) (n : Node A)
      → p ≢ null
      → at h p ≡ some n
      → list_pop (record { head = p; tail = t }) h
        ≡ ok (some n.item, record { head = n.next; tail = t }) ((p, none) ∷ h)
  unfolding list_pop
  pop-eq h p t n np e = rw (ne_null p np, load-ok p n h np e, free-ok p n h np e)

  pop-Pops :
      {h : Heap A} {p q : Ptr} {a : A} {xs : Cells A} (t : Option Ptr)
      → Chain h q ((p, a) ∷ xs)
      → IsLast t ((p, a) ∷ xs)
      → Pops h a p xs (list_pop (record { head = q; tail = t }) h)
  unfolding at
  pop-Pops {h} {xs = []} t (cons {p} n e o s) l =
      rw (pop-eq h p t _ n e)
        (pops (record { chain = frame p none s o; last = tt }) (ground arith) (ground arith))
  pop-Pops {h} {xs = x ∷ xs} t (cons {p} n e o s) l =
      rw (pop-eq h p t _ n e)
        (pops (record { chain = frame p none s o; last = l }) (ground arith) (ground arith))

  -- On a list that holds a cell and then `xs`, `list_pop` returns the item of that cell, frees its
  -- node, and leaves a list that holds `xs` and a heap that is otherwise the same.
  pub list_pop-Pops :
      {h : Heap A} {l : Handle} {a : A} {p : Ptr} {xs : Cells A}
      → IsList h l ((p, a) ∷ xs)
      → Pops h a p xs (list_pop l h)
  list_pop-Pops {l} i = pop-Pops l.tail i.chain i.last

  -- On a list that holds nothing, `list_pop` returns `NULL` and changes nothing.
  pub list_pop-nil : {h : Heap A} {l : Handle} → IsList h l [] → list_pop l h ≡ ok (none, l) h
  unfolding list_pop
  list_pop-nil i = rw (eq_null i.chain)
