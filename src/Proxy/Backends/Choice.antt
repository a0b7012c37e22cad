-- ===== src/Proxy/Backends/Choice.antt =====
-- The backend that is chosen, under every strategy.
use socketley.Prelude.{
  ℕ, zero, suc, ◌+◌, ◌%◌, ◌^◌, ◌<◌, ◌≡◌, ◌⊎◌, refl, inl, inr, arith, Bool, true, false, Option,
  none, some, List, [], ◌∷◌, length, get_elem?, Option-cases, Bool-cases,
}
use native.Mathlib.Nat.{mod-lt}
use socketley.Prelude.Int.{ℤ}
use socketley.Proxy.Backends.{
  CircuitBreaker, Proxy, Strategy, strategy_round_robin, strategy_random, strategy_lua, is_open,
  is_blocking, passes_at, is_backend_available, half_opened, half_open_first, available_from,
  next_available, mesh_enabled, routed, select_single, select_random, select_next, select_in_mesh,
  select_plain, select_backend,
}

-- There is a breaker at the index, and it is open.
abbrev pub open_at : ℕ → List CircuitBreaker → Bool
open_at idx cbs = elim (get_elem? cbs idx) [ none ↦ false | some cb ↦ is_open cb ]

half_opened-passes :
    (now timeout : ℤ) (cb : CircuitBreaker)
    → is_blocking now timeout (half_opened now timeout cb) ≡ false
    → is_open (half_opened now timeout cb) ≡ false
unfolding half_opened
half_opened-passes now timeout cb h = ground arith

half_open_first-passes :
    (n idx : ℕ) (now timeout : ℤ) (cbs : List CircuitBreaker)
    → idx < n
    → passes_at now timeout idx (half_open_first n now timeout cbs) ≡ true
    → open_at idx (half_open_first n now timeout cbs) ≡ false
unfolding half_open_first
half_open_first-passes n idx now timeout [] low h = ground arith
half_open_first-passes zero idx now timeout (cb ∷ cbs) low h = absurd (omega arith)
half_open_first-passes (suc n) zero now timeout (cb ∷ cbs) low h =
    ground (arith, half_opened-passes now timeout cb)
half_open_first-passes (suc n) (suc idx) now timeout (cb ∷ cbs) low h =
    half_open_first-passes n idx now timeout cbs (omega arith) h

module _ (clock : ℕ → ℤ) (p : Proxy) where
  available_from-available :
      (idx n j i : ℕ)
      → get_elem? (available_from clock p idx n) j ≡ some i
      → is_backend_available (clock i) i p ≡ true
  unfolding available_from
  available_from-available idx zero j i h = ground arith
  available_from-available idx (suc n) zero i h =
      ground (arith, available_from-available (idx + 1) n zero i)
  available_from-available idx (suc n) (suc j) i h = ground (
    arith,
    available_from-available (idx + 1) n j i,
    available_from-available (idx + 1) n (suc j) i,
  )

  next_available-available :
      (attempts n i : ℕ)
      → next_available clock p attempts n ≡ some i
      → (k : ℕ) × (k < attempts + n) × (is_backend_available (clock k) i p ≡ true)
  unfolding next_available
  next_available-available attempts zero i h = absurd (ground arith)
  next_available-available attempts (suc n) i h =
      let idx = ((p.m_rr_index + attempts) % 2 ^ 64) % length p.m_backends in
      elim (Bool-cases (is_backend_available (clock attempts) idx p)) [
        | inl ready ↦ (attempts, omega arith, ground arith)
        | inr busy ↦
            let (k, low, free) = next_available-available (attempts + 1) n i (ground arith) in
            (k, omega arith, free)
      ]

available-lt :
    (now : ℤ) (i : ℕ) (q : Proxy) → is_backend_available now i q ≡ true → i < length q.m_backends
unfolding is_backend_available
available-lt now i q h = ground arith

available-rr :
    (now : ℤ) (i r : ℕ) (p : Proxy)
    → is_backend_available now i (record p { m_rr_index = r }) ≡ is_backend_available now i p
unfolding is_backend_available
available-rr now i r p = refl

-- The chosen backend is available at the time, and the breakers and the backends are as they were.
abbrev Fits : ℤ → ℕ → Proxy → Proxy → Type 0
Fits time i p q =
    (is_backend_available time i q ≡ true)
    × (q.m_circuit_breakers ≡ p.m_circuit_breakers)
    × (q.m_backends ≡ p.m_backends)
    × (q.circuit_timeout ≡ p.circuit_timeout)

select_next-Fits :
    (clock : ℕ → ℤ) (p q : Proxy) (i : ℕ)
    → select_next clock p ≡ (some i, q)
    → (k : ℕ) × (k < length p.m_backends) × Fits (clock k) i p q
unfolding select_next
select_next-Fits clock p q i h =
    elim (Option-cases (next_available clock p 0 (length p.m_backends))) [
      | inl out ↦ absurd (ground arith)
      | inr (j, found) ↦
          let (k, low, ready) = next_available-available clock p 0 (length p.m_backends) j found in
          (
            k,
            ground (arith, low),
            ground (arith, ready, available-rr (clock k) j ((j + 1) % 2 ^ 64) p),
          )
    ]

select_random-Fits :
    (clock : ℕ → ℤ) (dist : ℕ → ℕ) (p q : Proxy) (i : ℕ)
    → select_random clock dist p ≡ some (some i, q)
    → Fits (clock i) i p q
unfolding select_random
select_random-Fits clock dist p q i h =
    let n = length p.m_backends in
    ground
      (arith, available_from-available clock p 0 n (dist (length (available_from clock p 0 n))) i)

available-passes :
    (now : ℤ) (i : ℕ) (q : Proxy)
    → is_backend_available now i q ≡ true
    → passes_at now q.circuit_timeout i q.m_circuit_breakers ≡ true
unfolding is_backend_available
available-passes now i q h = ground arith

-- Where every breaker whose time-out was over at `now` is half open, a backend that is available later has
-- a breaker that is not open, or one whose time-out was not over at `now`.
Fits-open_at :
    (now time : ℤ) (p q : Proxy) (i : ℕ) (cbs : List CircuitBreaker)
    → p.m_circuit_breakers ≡ half_open_first (length p.m_backends) now p.circuit_timeout cbs
    → Fits time i p q
    → (i < length q.m_backends)
      × (q.m_backends ≡ p.m_backends)
      × ((open_at i q.m_circuit_breakers ≡ false)
          ⊎ (passes_at now q.circuit_timeout i q.m_circuit_breakers ≡ false))
Fits-open_at now time p q i cbs halves (ready, same, pool, timeout) =
    let low : i < length p.m_backends = ground (arith, available-lt time i q ready) in
    elim (Bool-cases (passes_at now q.circuit_timeout i q.m_circuit_breakers)) [
      | inl over ↦
          let closed =
            half_open_first-passes (length p.m_backends) i now p.circuit_timeout cbs low
              (ground arith) in
          (ground arith, pool, inl (ground arith))
      | inr early ↦ (ground arith, pool, inr early)
    ]

-- What is promised of the index that is chosen.
abbrev pub Chosen : ℤ → (ℕ → ℤ) → ℕ → Proxy → Proxy → Type 0
Chosen now clock i p q =
    (i < length p.m_backends)
    × (mesh_enabled p ≡ true
        → (open_at i q.m_circuit_breakers ≡ false)
          ⊎ (passes_at now q.circuit_timeout i q.m_circuit_breakers ≡ false))
    × (mesh_enabled p ≡ true
        → 1 < length p.m_backends
        → (k : ℕ) × (k < length p.m_backends) × (is_backend_available (clock k) i q ≡ true))

Strategy-cases :
    (s : Strategy) → (s ≡ strategy_round_robin) ⊎ ((s ≡ strategy_random) ⊎ (s ≡ strategy_lua))
Strategy-cases strategy_round_robin = inl refl
Strategy-cases strategy_random = inr (inl refl)
Strategy-cases strategy_lua = inr (inr refl)

select_in_mesh-Chosen :
    (now : ℤ) (clock : ℕ → ℤ) (dist : ℕ → ℕ) (p q : Proxy) (i : ℕ)
    → select_in_mesh now clock dist p ≡ some (some i, q)
    → Chosen now clock i p q
unfolding select_in_mesh
select_in_mesh-Chosen now clock dist p q i h =
    let cbs = half_open_first (length p.m_backends) now p.circuit_timeout p.m_circuit_breakers in
    let r : Proxy = record p { m_circuit_breakers = cbs } in
    let (k, early, fits) : (k : ℕ) × (k < length p.m_backends) × Fits (clock k) i r q =
      elim (Strategy-cases p.m_strategy) [
        | inl next ↦ select_next-Fits clock r q i (ground arith)
        | inr (inl draw) ↦
            let fits = select_random-Fits clock dist r q i (ground arith) in
            (i, ground (arith, available-lt (clock i) i q (fits.0)), fits)
        | inr (inr script) ↦ select_next-Fits clock r q i (ground arith)
      ] in
    let (low, pool, state) = Fits-open_at now (clock k) r q i p.m_circuit_breakers refl fits in
    (ground arith, λ mesh. state, λ mesh many. (k, early, fits.0))

List-cases {ℓ} :
    {A : Type ℓ} (xs : List A) → (xs ≡ []) ⊎ ((x : A) × (rest : List A) × (xs ≡ x ∷ rest))
List-cases [] = inl refl
List-cases (x ∷ rest) = inr (x, rest, refl)

select_single-Chosen :
    (now : ℤ) (p q : Proxy) (i : ℕ)
    → length p.m_backends ≡ 1
    → select_single now p ≡ (some i, q)
    → (i < length p.m_backends) × (mesh_enabled p ≡ true → open_at i q.m_circuit_breakers ≡ false)
unfolding select_single
select_single-Chosen now p q i one h = elim (List-cases p.m_circuit_breakers) [
  | inl nothing ↦ ground arith
  | inr (cb, cbs, there) ↦ ground arith
]

select_plain-low :
    (dist : ℕ → ℕ) (p q : Proxy) (i : ℕ)
    → 1 < length p.m_backends
    → dist (length p.m_backends) < length p.m_backends
    → select_plain dist p ≡ (some i, q)
    → i < length p.m_backends
unfolding select_plain
select_plain-low dist p q i many low h = elim (Strategy-cases p.m_strategy) [
  | inl next ↦ ground (arith, mod-lt p.m_rr_index {m = length p.m_backends} (omega arith))
  | inr (inl draw) ↦ ground arith
  | inr (inr script) ↦ ground (arith, mod-lt p.m_rr_index {m = length p.m_backends} (omega arith))
]

-- Where the script does not choose, and the random distribution stays in its range, the backend that is
-- chosen exists. With health checks or circuit breakers, its breaker is not open afterwards, or its
-- time-out was not over when the clock was read for the transitions; and where there is another backend,
-- the one chosen is available at the time that some round of the loop has read.
pub select_backend-Chosen :
    (now : ℤ) (clock : ℕ → ℤ) (route : Option ℤ) (dist : ℕ → ℕ) (p q : Proxy) (i : ℕ)
    → dist (length p.m_backends) < length p.m_backends
    → routed route p ≡ none
    → select_backend now clock route dist p ≡ some (some i, q)
    → Chosen now clock i p q
unfolding select_backend
select_backend-Chosen now clock route dist p q i draw unrouted h = elim (List-cases p.m_backends) [
  | inl nobody ↦ absurd (ground arith)
  | inr (b, bs, some_one) ↦ elim (List-cases bs) [
    | inl alone ↦
        let (low, shut) = select_single-Chosen now p q i (ground arith) (ground arith) in
        (low, λ mesh. inl (shut mesh), λ mesh many. absurd (ground arith))
    | inr (c, cs, more) ↦ elim (Bool-cases (mesh_enabled p)) [
      | inl mesh ↦ select_in_mesh-Chosen now clock dist p q i (ground arith)
      | inr plain ↦ (
        select_plain-low dist p q i (ground arith) draw (ground arith),
        λ mesh. absurd (ground arith),
        λ mesh many. absurd (ground arith),
      )
    ]
  ]
]
