-- ===== src/Cache/Lru.antt =====
-- The eviction order of cache_store.cpp: the iterators of `m_lru_map` into `m_lru_order`.
pub mod Helpers
pub mod Operations
pub mod Commands
use socketley.Prelude.{
  ℕ, zero, suc, ◌<◌, ◌≡◌, refl, inl, inr, arith, Bool, true, false, Option, none, some, List, [],
  ◌∷◌, ◌++◌, Bytes, beq, beq_iff, beq_refl, ◌==◌, ==_iff, get_elem?, remove_at, Option-cases,
  Bool-cases, if◌then◌else◌,
}
use socketley.Map.{Map, find, erase, assign, emplace, contains}
use socketley.Map.Laws.{find-erase, find-assign, find-emplace}
use socketley.Cache.State.{Store, unlink}

-- The key of the node with an identity.
unfoldable pub key_at : ℕ → List (ℕ × Bytes) → Option Bytes
key_at node [] = none
key_at node ((n, k) ∷ order) = if n == node then some k else key_at node order

abbrev pub Unique : List (ℕ × Bytes) → Type 0
Unique [] = Unit {0}
Unique ((n, k) ∷ order) = (key_at n order ≡ none) × Unique order

-- Every iterator of the map leads to a node of the order, which holds its key; no two nodes have one
-- identity; and the identity to come is new.
pub record Linked (order : List (ℕ × Bytes)) (nodes : Map ℕ) (next : ℕ) : Type 0 where
  pub live : (k : Bytes) (n : ℕ) → find k nodes ≡ some n → key_at n order ≡ some k
  pub unique : Unique order
  pub fresh : (k : Bytes) (n : ℕ) → key_at n order ≡ some k → n < next

key_at-unlink :
    (node n : ℕ) (order : List (ℕ × Bytes))
    → Unique order
    → key_at n (unlink node order) ≡ (if node == n then none else key_at n order)
unfolding key_at unlink
key_at-unlink node n [] u = ground arith
key_at-unlink node n ((i, k) ∷ order) u = ground (arith, key_at-unlink node n order u.1)

unlink-Unique : (node : ℕ) (order : List (ℕ × Bytes)) → Unique order → Unique (unlink node order)
unfolding unlink
unlink-Unique node [] u = tt
unlink-Unique node ((i, k) ∷ order) u =
    ground (arith, unlink-Unique node order u.1, key_at-unlink node i order u.1)

key_at-append :
    (n node : ℕ) (key : Bytes) (order : List (ℕ × Bytes))
    → key_at n (order ++ (node, key) ∷ [])
      ≡ (elim (key_at n order) [ some k ↦ some k | none ↦ if node == n then some key else none ])
unfolding key_at
key_at-append n node key [] = ground arith
key_at-append n node key ((i, k) ∷ order) = ground (arith, key_at-append n node key order)

append-Unique :
    (node : ℕ) (key : Bytes) (order : List (ℕ × Bytes))
    → key_at node order ≡ none
    → Unique order
    → Unique (order ++ (node, key) ∷ [])
unfolding key_at
append-Unique node key [] e u = ground arith
append-Unique node key ((i, k) ∷ order) e u =
    ground (arith, append-Unique node key order, key_at-append i node key order)

-- The key found by identity is that of the node at its position.
key_at_of_elem :
    (i : ℕ) (order : List (ℕ × Bytes)) (node : ℕ) (k : Bytes)
    → Unique order
    → get_elem? order i ≡ some (node, k)
    → key_at node order ≡ some k
unfolding key_at
key_at_of_elem i [] node k u e = absurd (ground arith)
key_at_of_elem zero ((m, l) ∷ order) node k u e = ground arith
key_at_of_elem (suc i) ((m, l) ∷ order) node k u e =
    ground (arith, key_at_of_elem i order node k u.1)

key_at-remove_at :
    (i n : ℕ) (order : List (ℕ × Bytes))
    → Unique order
    → key_at n (remove_at i order) ≡ (elim (get_elem? order i) [
      | none ↦ key_at n order
      | some (node, k) ↦ if node == n then none else key_at n order
    ])
unfolding key_at
key_at-remove_at i n [] u = ground arith
key_at-remove_at zero n ((m, k) ∷ order) u = ground arith
key_at-remove_at (suc i) n ((m, k) ∷ order) u = elim (Option-cases (get_elem? order i)) [
  | inl out ↦ ground (arith, key_at-remove_at i n order u.1)
  | inr ((node, l), e) ↦
      ground (arith, key_at-remove_at i n order u.1, key_at_of_elem i order node l u.1 e)
]

remove_at-Unique : (i : ℕ) (order : List (ℕ × Bytes)) → Unique order → Unique (remove_at i order)
remove_at-Unique i [] u = tt
remove_at-Unique zero ((m, k) ∷ order) u = u.1
remove_at-Unique (suc i) ((m, k) ∷ order) u = elim (Option-cases (get_elem? order i)) [
  | inl out ↦ ground (arith, remove_at-Unique i order u.1, key_at-remove_at i m order u.1)
  | inr ((node, l), e) ↦
      ground (arith, remove_at-Unique i order u.1, key_at-remove_at i m order u.1)
]

-- The four things that happen to the order and the map.
module _ (order : List (ℕ × Bytes)) (nodes : Map ℕ) (next : ℕ) (h : Linked order nodes next) where
  pub Linked-erase : (key : Bytes) → Linked order (erase key nodes) next
  Linked-erase key = record {
    live = λ k n e. ground (arith, h.live k n, find-erase key k nodes);
    unique = h.unique;
    fresh = h.fresh;
  }

  pub Linked-drop :
      (key : Bytes) (node : ℕ)
      → find key nodes ≡ some node
      → Linked (unlink node order) (erase key nodes) next
  Linked-drop key node there = record {
    live = λ k n e. ground (
      arith,
      h.live k n,
      h.live key node,
      beq_iff key k,
      find-erase key k nodes,
      key_at-unlink node n order h.unique,
    );
    unique = unlink-Unique node order h.unique;
    fresh = λ k n e. ground (arith, h.fresh k n, key_at-unlink node n order h.unique);
  }

  pub Linked-evict :
      (i node : ℕ) (victim : Bytes)
      → get_elem? order i ≡ some (node, victim)
      → Linked (remove_at i order) (erase victim nodes) next
  Linked-evict i node victim there = record {
    live = λ k n e. ground (
      arith,
      h.live k n,
      key_at_of_elem i order node victim h.unique,
      beq_iff victim k,
      find-erase victim k nodes,
      key_at-remove_at i n order h.unique,
    );
    unique = remove_at-Unique i order h.unique;
    fresh = λ k n e. ground (arith, h.fresh k n, key_at-remove_at i n order h.unique);
  }

  pub Linked-push :
      (key : Bytes)
      → find key nodes ≡ none
      → Linked (order ++ (next, key) ∷ []) (emplace key next nodes) (suc next)
  Linked-push key absent = record {
    live = λ k n e. ground (
      arith,
      h.live k n,
      h.fresh k n,
      no_key,
      beq_iff key k,
      find-emplace key k next nodes,
      key_at-append n next key order,
    );
    unique = append-Unique next key order no_key h.unique;
    fresh = λ k n e. ground (arith, h.fresh k n, key_at-append n next key order);
  }
    where
      no_key : key_at next order ≡ none
      no_key = elim (Option-cases (key_at next order)) [
        | inl e ↦ e
        | inr (k, e) ↦ absurd (omega (arith, h.fresh k next e))
      ]

-- The map matters by what it finds.
pub Linked-ext :
    (order : List (ℕ × Bytes)) (nodes nodes' : Map ℕ) (next : ℕ)
    → ((k : Bytes) → find k nodes' ≡ find k nodes)
    → Linked order nodes next
    → Linked order nodes' next
Linked-ext order nodes nodes' next same h = record {
  live = λ k n e. h.live k n (ground (arith, same k));
  unique = h.unique;
  fresh = h.fresh;
}
