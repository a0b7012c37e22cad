-- ===== src/Proxy/Backends.antt =====
-- The circuit breakers and the choice of a backend in proxy_instance.cpp, where no backend is a group.
-- `none` is an overflow of `int` or of a local array. The clock is read anew by each call of
-- `is_backend_available`: `clock k` is the reading of round `k` of a loop that calls it.
pub mod Choice
use socketley.Prelude.{
  ℕ, zero, suc, ◌+◌, ◌-◌, ◌%◌, ◌^◌, Bool, true, false, not, ◌&&◌, ◌||◌, Option, none, some, List,
  [], ◌∷◌, Bytes, length, get_elem?, ltb, leb, ◌==◌, if◌then◌else◌,
}
use socketley.Prelude.Int.{ℤ, pos, negsuc, ◌-ℤ◌, leb_ℤ, ltb_ℤ, scale}

pub data CircuitState : Type 0 where
  circuit_closed circuit_open circuit_half_open : CircuitState

pub record CircuitBreaker : Type 0 where
  pub current : CircuitState
  pub error_count : ℕ
  pub opened_at : ℤ

pub data Strategy : Type 0 where
  strategy_round_robin strategy_random strategy_lua : Strategy

-- The members that the choice reads or writes: a backend is a host and a port, its health a Boolean.
pub record Proxy : Type 0 where
  pub m_backends : List (Bytes × ℕ)
  pub m_backend_health : List Bool
  pub m_circuit_breakers : List CircuitBreaker
  pub m_rr_index : ℕ
  pub m_strategy : Strategy
  pub checks_health : Bool
  pub circuit_threshold : ℤ
  pub circuit_timeout : ℤ

abbrev pub is_open : CircuitBreaker → Bool
is_open cb = elim cb.current [
  | circuit_closed ↦ false
  | circuit_open ↦ true
  | circuit_half_open ↦ false
]

-- The time since the breaker opened has reached the time-out.
abbrev pub has_expired : ℤ → ℤ → CircuitBreaker → Bool
has_expired now timeout cb = leb_ℤ (scale 1_000_000_000 timeout) (now -ℤ cb.opened_at)

abbrev pub is_blocking : ℤ → ℤ → CircuitBreaker → Bool
is_blocking now timeout cb = is_open cb && not (has_expired now timeout cb)

abbrev pub healthy_at : ℕ → List Bool → Bool
healthy_at idx health = elim (get_elem? health idx) [ none ↦ true | some h ↦ h ]

abbrev pub passes_at : ℤ → ℤ → ℕ → List CircuitBreaker → Bool
passes_at now timeout idx cbs = elim (get_elem? cbs idx) [
  | none ↦ true
  | some cb ↦ not (is_blocking now timeout cb)
]

-- `now` is the function's own reading of the clock.
unfoldable pub is_backend_available : ℤ → ℕ → Proxy → Bool
is_backend_available now idx p =
    ltb idx (length p.m_backends)
    && healthy_at idx p.m_backend_health
    && passes_at now p.circuit_timeout idx p.m_circuit_breakers

unfoldable pub modify_at {ℓ} : {A : Type ℓ} → ℕ → (A → A) → List A → List A
modify_at idx f [] = []
modify_at zero f (x ∷ xs) = f x ∷ xs
modify_at (suc idx) f (x ∷ xs) = x ∷ modify_at idx f xs

abbrev pub max_int : ℕ
max_int = 2 ^ 31 - 1

unfoldable pub count_error : ℤ → ℤ → CircuitBreaker → CircuitBreaker
count_error now threshold cb = elim cb.current [
  | circuit_half_open ↦ record cb { current = circuit_open; opened_at = now }
  | circuit_open ↦ record cb { error_count = cb.error_count + 1 }
  | circuit_closed ↦
      let counted = record cb { error_count = cb.error_count + 1 } in
      if leb_ℤ threshold (pos (cb.error_count + 1))
      then record counted { current = circuit_open; opened_at = now }
      else counted
]

abbrev pub counts : CircuitBreaker → Bool
counts cb = elim cb.current [
  | circuit_closed ↦ true
  | circuit_open ↦ true
  | circuit_half_open ↦ false
]

unfoldable pub record_backend_error : ℤ → ℕ → Proxy → Option Proxy
record_backend_error now idx p = elim (get_elem? p.m_circuit_breakers idx) [
  | none ↦ some p
  | some cb ↦
      if counts cb && leb max_int cb.error_count
      then none
      else some (record p {
        m_circuit_breakers =
            modify_at idx (count_error now p.circuit_threshold) p.m_circuit_breakers;
      })
]

unfoldable pub close_circuit : CircuitBreaker → CircuitBreaker
close_circuit cb = elim cb.current [
  | circuit_half_open ↦ record cb { current = circuit_closed; error_count = 0 }
  | circuit_open ↦ cb
  | circuit_closed ↦ cb
]

unfoldable pub record_backend_success : ℕ → Proxy → Proxy
record_backend_success idx p = record p {
  m_circuit_breakers = modify_at idx close_circuit p.m_circuit_breakers;
}

-- The transition of a breaker whose time-out is over.
unfoldable pub half_opened : ℤ → ℤ → CircuitBreaker → CircuitBreaker
half_opened now timeout cb =
    if is_open cb && has_expired now timeout cb
    then record cb { current = circuit_half_open }
    else cb

-- The loop over the breakers, for the first `n` of them.
unfoldable pub half_open_first : ℕ → ℤ → ℤ → List CircuitBreaker → List CircuitBreaker
half_open_first n now timeout [] = []
half_open_first zero now timeout (cb ∷ cbs) = cb ∷ cbs
half_open_first (suc n) now timeout (cb ∷ cbs) =
    half_opened now timeout cb ∷ half_open_first n now timeout cbs

-- The available ones of the indices from `idx` on.
unfoldable pub available_from : (ℕ → ℤ) → Proxy → ℕ → ℕ → List ℕ
available_from clock p idx zero = []
available_from clock p idx (suc n) =
    let rest = available_from clock p (idx + 1) n in
    if is_backend_available (clock idx) idx p then idx ∷ rest else rest

abbrev pub max_backends : ℕ
max_backends = 256

-- The round-robin loop: the first available index from `m_rr_index` on, in a circle.
unfoldable pub next_available : (ℕ → ℤ) → Proxy → ℕ → ℕ → Option ℕ
next_available clock p attempts zero = none
next_available clock p attempts (suc n) =
    let later = next_available clock p (attempts + 1) n in
    let idx = ((p.m_rr_index + attempts) % 2 ^ 64) % length p.m_backends in
    if is_backend_available (clock attempts) idx p then some idx else later

abbrev pub mesh_enabled : Proxy → Bool
mesh_enabled p = p.checks_health || ltb_ℤ (pos 0) p.circuit_threshold

-- `route` is what the script's callback answers, if it is asked and answers with a number.
abbrev pub routed : Option ℤ → Proxy → Option ℕ
routed none p = none
routed (some (negsuc idx)) p = none
routed (some (pos idx)) p = elim p.m_strategy [
  | strategy_round_robin ↦ none
  | strategy_random ↦ none
  | strategy_lua ↦ if ltb idx (length p.m_backends) then some idx else none
]

-- The branch for a single backend.
unfoldable pub select_single : ℤ → Proxy → Option ℕ × Proxy
select_single now p = elim p.m_circuit_breakers [
  | [] ↦ (some 0, p)
  | cb ∷ cbs ↦
      if mesh_enabled p && is_open cb
      then (if has_expired now p.circuit_timeout cb
          then (
            some 0,
            record p { m_circuit_breakers = record cb { current = circuit_half_open } ∷ cbs },
          )
          else (none, p))
      else (some 0, p)
]

-- `dist n` is the number that the random distribution over `n` numbers gives.
unfoldable pub select_random : (ℕ → ℤ) → (ℕ → ℕ) → Proxy → Option (Option ℕ × Proxy)
select_random clock dist p =
    let avail = available_from clock p 0 (length p.m_backends) in
    if ltb max_backends (length avail) then none else elim avail [
      | [] ↦ some (none, p)
      | idx ∷ more ↦ some (get_elem? (idx ∷ more) (dist (length (idx ∷ more))), p)
    ]

unfoldable pub select_next : (ℕ → ℤ) → Proxy → Option ℕ × Proxy
select_next clock p = elim (next_available clock p 0 (length p.m_backends)) [
  | none ↦ (none, record p { m_rr_index = (p.m_rr_index + 1) % 2 ^ 64 })
  | some idx ↦ (some idx, record p { m_rr_index = (idx + 1) % 2 ^ 64 })
]

-- `now` is read for the transitions, and `clock` behind them.
unfoldable pub select_in_mesh : ℤ → (ℕ → ℤ) → (ℕ → ℕ) → Proxy → Option (Option ℕ × Proxy)
select_in_mesh now clock dist p =
    let q = record p {
      m_circuit_breakers =
          half_open_first (length p.m_backends) now p.circuit_timeout p.m_circuit_breakers;
    } in
    elim p.m_strategy [
      | strategy_round_robin ↦ some (select_next clock q)
      | strategy_random ↦ select_random clock dist q
      | strategy_lua ↦ some (select_next clock q)
    ]

unfoldable pub select_plain : (ℕ → ℕ) → Proxy → Option ℕ × Proxy
select_plain dist p =
    let next : Option ℕ × Proxy = (
      some (p.m_rr_index % length p.m_backends),
      record p { m_rr_index = (p.m_rr_index + 1) % 2 ^ 64 },
    ) in
    elim p.m_strategy [
      | strategy_round_robin ↦ next
      | strategy_random ↦ (some (dist (length p.m_backends)), p)
      | strategy_lua ↦ next
    ]

-- `select_and_resolve_backend`, with the index of the backend that is returned.
unfoldable pub select_backend : ℤ → (ℕ → ℤ) → Option ℤ → (ℕ → ℕ) → Proxy → Option (Option ℕ × Proxy)
select_backend now clock route dist p = elim p.m_backends [
  | [] ↦ some (none, p)
  | b ∷ [] ↦ some (select_single now p)
  | b ∷ c ∷ bs ↦ elim (routed route p) [
    | some idx ↦ some (some idx, p)
    | none ↦ if mesh_enabled p then select_in_mesh now clock dist p else some (select_plain dist p)
  ]
]
