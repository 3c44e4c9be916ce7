-- ===== src/Link.antt =====
-- The linked lists of list_utils.c, over a heap of nodes. `track_list`, `string_list` and
-- `param_list` differ in what a node carries (`A`) and in their guards: `ListUtils` has those. A
-- `malloc` is a parameter: it returns an address for the heap at hand, perhaps `NULL`.
pub mod Chain
pub mod Refines
use ipod_to_ipod.Base.{Option, none, some, List, [], ◌∷◌, ◌==◌, if◌then◌else◌}
use ipod_to_ipod.Pod.{Ptr, null}

-- `track_item`, `string_item`, `param_item`: what is carried, and `next`.
pub record Node (A : Type 0) : Type 0 where
  pub item : A
  pub next : Ptr

-- The heap: the writes so far, newest first; a free writes `none`.
abbrev pub Heap : Type 0 → Type 0
Heap A = List (Ptr × Option (Node A))

-- `track_list`, `string_list`, `param_list`: `head` and `tail`. A new list has no `tail` yet.
pub record Handle : Type 0 where
  pub head : Ptr
  pub tail : Option Ptr

-- `track_list_new`, `string_list_new`, `param_list_new`: `tail` is left as `malloc` gave it.
unfoldable pub list_new : Handle
list_new = record { head = null; tail = none }

-- A run that ends, one that reads or writes where there is no node, and one whose loop was given
-- too little fuel.
pub data Run (A : Type 0) (B : Type 0) : Type 0 where
  ok : B → Heap A → Run A B
  fault : Run A B
  out_of_fuel : Run A B

abbrev pub Cmd : Type 0 → Type 0 → Type 0
Cmd A B = Heap A → Run A B

module _ {A : Type 0} where
  unfoldable pub at : Heap A → Ptr → Option (Node A)
  at [] p = none
  at ((q, c) ∷ h) p = if p == q then c else at h p

  abbrev pub and_then : {B C : Type 0} → Run A B → (B → Cmd A C) → Run A C
  and_then (ok b h) k = k b h
  and_then fault k = fault
  and_then out_of_fuel k = out_of_fuel

  infixl 5 ◌>>=◌ ◌>>◌
  abbrev pub ◌>>=◌ : {B C : Type 0} → Cmd A B → (B → Cmd A C) → Cmd A C
  m >>= k = λ h. and_then (m h) k

  abbrev pub ◌>>◌ : {B C : Type 0} → Cmd A B → Cmd A C → Cmd A C
  m >> n = m >>= λ _. n

  abbrev pub pure : {B : Type 0} → B → Cmd A B
  pure b h = ok b h

  -- `*p`, a fault at `NULL` and at an address that holds no node.
  unfoldable pub load : Ptr → Cmd A (Node A)
  load p h = if p == null then fault else elim (at h p) [ none ↦ fault | some n ↦ ok n h ]

  -- The fields of a node that `malloc` returned; a write through `NULL` is a fault.
  unfoldable pub init : Ptr → Node A → Cmd A (Unit {0})
  init p n h = if p == null then fault else ok tt ((p, some n) ∷ h)

  -- `p->next = q`
  unfoldable pub set_next : Ptr → Ptr → Cmd A (Unit {0})
  unfolding load
  set_next p q = do n ← load p; λ h. ok tt ((p, some (record n { next = q })) ∷ h)

  unfoldable pub free : Ptr → Cmd A (Unit {0})
  unfolding load
  free p = do n ← load p; λ h. ok tt ((p, none) ∷ h)

  -- `lst->tail->next = nitem; lst->tail = nitem;`, a fault where `tail` was never set.
  unfoldable pub link_last : Option Ptr → Ptr → Cmd A (Unit {0})
  unfolding set_next
  link_last none fresh h = fault
  link_last (some t) fresh h = set_next t fresh h

  -- The body that the three `…_list_add` share behind their guards, with the address that `malloc`
  -- returns.
  unfoldable pub list_add : Ptr → Handle → A → Cmd A Handle
  unfolding init link_last
  list_add fresh l a = do
    init fresh (record { item = a; next = null })
    if l.head == null
        then pure (record { head = fresh; tail = some fresh })
        else (do link_last l.tail fresh; pure (record l { tail = some fresh }))

  -- The body of `track_list_pop` and `string_list_pop` on a list that is not `NULL`.
  unfoldable pub list_pop : Handle → Cmd A (Option A × Handle)
  unfolding free
  list_pop l =
      if l.head == null
      then pure (none, l)
      else (do n ← load l.head; free l.head; pure (some n.item, record l { head = n.next }))
