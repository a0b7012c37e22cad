-- ===== src/Runtime/Manager/Shrinks.antt =====
-- What the cascade can do to the map: instances are stopped or removed, and none is started, created
-- or given another owner.
use socketley.Prelude.{
  ℕ, zero, suc, ◌≡◌, refl, inl, inr, arith, true, Option, none, some, List, [], ◌∷◌, Bytes, beq_iff,
  Option-cases, Bool-cases,
}
use socketley.Map.{find, assign}
use socketley.Map.Laws.{find-erase, find-assign}
use socketley.Runtime.Instance.{Instance, ChildPolicy, stop_child, remove_child, running, state_is}
use socketley.Runtime.Instance
use socketley.Runtime.Manager.{
  Manager, Task, stop_task, stop_children_task, remove_children_task, remove, children_task,
  drop_child, get_children, for_each, is_running, stop_if_running, settle_child, cascade_child,
  stop_body, stop_children_round, remove_children_round, perform, work_on,
}

abbrev pub Kept : Option Instance → Option Instance → Type 0
Kept o none = Unit {0}
Kept none (some i') = ⊥
Kept (some i) (some i') =
    (i'.m_owner ≡ i.m_owner)
    × (i'.m_child_policy ≡ i.m_child_policy)
    × (state_is i'.m_state running ≡ true → state_is i.m_state running ≡ true)

pub record Shrinks (m m' : Manager) : Type 0 where
  pub at : (c : Bytes) → Kept (find c m) (find c m')

Kept-refl : (o : Option Instance) → Kept o o
Kept-refl none = tt
Kept-refl (some i) = (refl, refl, λ h. h)

Kept-trans : (o p q : Option Instance) → Kept o p → Kept p q → Kept o q
Kept-trans o p none h k = tt
Kept-trans none none (some i) h k = k
Kept-trans none (some i) (some j) h k = absurd h
Kept-trans (some i) none (some j) h k = absurd k
Kept-trans (some i) (some j) (some l) h k = ground arith

pub Shrinks-refl : (m : Manager) → Shrinks m m
Shrinks-refl m = record { at = λ c. Kept-refl (find c m) }

pub Shrinks-of_eq : (m m' : Manager) → m ≡ m' → Shrinks m m'
Shrinks-of_eq m m' e = rw (← e) (Shrinks-refl m)

pub Shrinks-trans : (m m' m'' : Manager) → Shrinks m m' → Shrinks m' m'' → Shrinks m m''
Shrinks-trans m m' m'' h k = record {
  at = λ c. Kept-trans (find c m) (find c m') (find c m'') (h.at c) (k.at c);
}

pub Shrinks-remove : (name : Bytes) (m : Manager) → Shrinks m (remove name m).1
unfolding remove
Shrinks-remove name m = record {
  at = λ c. ground (arith, find-erase name c m, Kept-refl (find c m));
}

pub Shrinks-stop :
    (name : Bytes) (i : Instance) (m : Manager)
    → find name m ≡ some i
    → Shrinks m (assign name (Instance.stop i).1 m)
unfolding Instance.stop
Shrinks-stop name i m h = record {
  at = λ c.
      ground
        (arith, find-assign name c (Instance.stop i).1 m, beq_iff name c, Kept-refl (find c m));
}

pub drop_child-Shrinks :
    (policy : ChildPolicy) (child : Bytes) (m : Manager) → Shrinks m (drop_child policy child m)
unfolding drop_child
drop_child-Shrinks stop_child child m = Shrinks-refl m
drop_child-Shrinks remove_child child m = Shrinks-remove child m

-- A postcondition that holds of the empty loop, is carried on and joined, holds of a loop.
pub for_each-Shrinks :
    (body : Bytes → Manager → Option Manager)
    → ((name : Bytes) (m m' : Manager) → body name m ≡ some m' → Shrinks m m')
    → (names : List Bytes) (m m' : Manager) → for_each body names m ≡ some m'
    → Shrinks m m'
unfolding for_each
for_each-Shrinks body step [] m m' run = Shrinks-of_eq m m' (ground arith)
for_each-Shrinks body step (name ∷ names) m m' run = elim (Option-cases (body name m)) [
  | inl bad ↦ ground arith
  | inr (u, good) ↦
      Shrinks-trans m u m' (step name m u good)
        (for_each-Shrinks body step names u m' (ground arith))
]

module _ (work : Task → Manager → Option Manager)
    (works : (task : Task) (m m' : Manager) → work task m ≡ some m' → Shrinks m m') where
  pub stop_if_running-Shrinks :
      (name : Bytes) (m m' : Manager) → stop_if_running work name m ≡ some m' → Shrinks m m'
  stop_if_running-Shrinks name m m' run = elim (Bool-cases (is_running name m)) [
    | inl on ↦ works (stop_task name) m m' (ground arith)
    | inr off ↦ Shrinks-of_eq m m' (ground arith)
  ]

  pub settle_child-Shrinks :
      (child : Bytes) (m m' : Manager) → settle_child work child m ≡ some m' → Shrinks m m'
  unfolding settle_child
  settle_child-Shrinks child m m' run = elim (Option-cases (find child m)) [
    | inl gone ↦ ground arith
    | inr (i, there) ↦ elim (Option-cases (stop_if_running work child m)) [
      | inl bad ↦ ground arith
      | inr (u, good) ↦
          let last : drop_child i.m_child_policy child u ≡ m' = ground arith in
          Shrinks-trans m u m' (stop_if_running-Shrinks child m u good)
            (rw (← last) (drop_child-Shrinks i.m_child_policy child u))
    ]
  ]

  pub cascade_child-Shrinks :
      (child : Bytes) (m m' : Manager) → cascade_child work child m ≡ some m' → Shrinks m m'
  unfolding cascade_child
  cascade_child-Shrinks child m m' run = elim (Option-cases (find child m)) [
    | inl gone ↦ Shrinks-of_eq m m' (ground arith)
    | inr (i, there) ↦ elim (Option-cases (work (children_task i.m_child_policy child) m)) [
      | inl bad ↦ ground arith
      | inr (u, good) ↦
          Shrinks-trans m u m' (works (children_task i.m_child_policy child) m u good)
            (settle_child-Shrinks child u m' (ground arith))
    ]
  ]

  pub stop_body-Shrinks :
      (name : Bytes) (m m' : Manager) → stop_body work name m ≡ some m' → Shrinks m m'
  unfolding stop_body
  stop_body-Shrinks name m m' run = elim (Option-cases (find name m)) [
    | inl gone ↦ Shrinks-of_eq m m' (ground arith)
    | inr (i, there) ↦ elim (Bool-cases (Instance.stop i).0) [
      | inr refused ↦ Shrinks-of_eq m m' (ground arith)
      | inl done ↦
          let u = assign name (Instance.stop i).1 m in
          Shrinks-trans m u m' (Shrinks-stop name i m there) (
            for_each-Shrinks (cascade_child work) cascade_child-Shrinks (get_children name u) u m'
              (ground arith))
    ]
  ]

  pub stop_children_round-Shrinks :
      (child : Bytes) (m m' : Manager) → stop_children_round work child m ≡ some m' → Shrinks m m'
  unfolding stop_children_round
  stop_children_round-Shrinks child m m' run =
      elim (Option-cases (work (stop_children_task child) m)) [
        | inl bad ↦ ground arith
        | inr (u, good) ↦
            Shrinks-trans m u m' (works (stop_children_task child) m u good)
              (works (stop_task child) u m' (ground arith))
      ]

  pub remove_children_round-Shrinks :
      (child : Bytes) (m m' : Manager) → remove_children_round work child m ≡ some m' → Shrinks m m'
  unfolding remove_children_round
  remove_children_round-Shrinks child m m' run =
      elim (Option-cases (work (remove_children_task child) m)) [
        | inl bad ↦ ground arith
        | inr (u, good) ↦ elim (Option-cases (stop_if_running work child u)) [
          | inl bad ↦ ground arith
          | inr (v, stopped) ↦
              let last : (remove child v).1 ≡ m' = ground arith in
              Shrinks-trans m u m' (works (remove_children_task child) m u good) (
                Shrinks-trans u v m' (stop_if_running-Shrinks child u v stopped)
                  (rw (← last) (Shrinks-remove child v)))
        ]
      ]

  perform-Shrinks : (task : Task) (m m' : Manager) → perform work task m ≡ some m' → Shrinks m m'
  unfolding perform
  perform-Shrinks (stop_task name) m m' run = stop_body-Shrinks name m m' run
  perform-Shrinks (stop_children_task parent) m m' run =
      for_each-Shrinks (stop_children_round work) stop_children_round-Shrinks
        (get_children parent m) m m' run
  perform-Shrinks (remove_children_task parent) m m' run =
      for_each-Shrinks (remove_children_round work) remove_children_round-Shrinks
        (get_children parent m) m m' run

pub work_on-Shrinks :
    (fuel : ℕ) (task : Task) (m m' : Manager) → work_on fuel task m ≡ some m' → Shrinks m m'
unfolding work_on
work_on-Shrinks zero task m m' run = ground arith
work_on-Shrinks (suc fuel) task m m' run =
    perform-Shrinks (work_on fuel) (work_on-Shrinks fuel) task m m' run
