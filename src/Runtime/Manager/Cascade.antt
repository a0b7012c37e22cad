-- ===== src/Runtime/Manager/Cascade.antt =====
-- The cascade ends where ownership has no cycle, and follows no pointer to a removed instance.
use socketley.Prelude.{
  ℕ, zero, suc, ◌≤◌, ◌<◌, ◌≡◌, refl, inl, inr, arith, true, Option, some, List, [], ◌∷◌, Bytes,
  beq_iff, Option-cases, Bool-cases, is_some,
}
use socketley.Map.{find, erase, assign}
use socketley.Map.Laws.{find-erase, find-assign}
use socketley.Runtime.Instance.{Instance, ChildPolicy, stop_child, remove_child, running, state_is}
use socketley.Runtime.Instance
use socketley.Runtime.Manager.{
  Manager, Task, stop_task, stop_children_task, remove_children_task, remove, children_task,
  drop_child, get_children, for_each, is_running, stop_if_running, settle_child, cascade_child,
  stop_body, stop_children_round, remove_children_round, perform, work_on,
}

abbrev pub name_of : Task → Bytes
name_of (stop_task name) = name
name_of (stop_children_task name) = name
name_of (remove_children_task name) = name

owner-stop : (i : Instance) → (Instance.stop i).1.m_owner ≡ i.m_owner
unfolding Instance.stop
owner-stop i = ground arith

module _ (rank : Bytes → ℕ) where
  -- Every owner ranks above what it owns.
  abbrev pub Acyclic : Manager → Type 0
  Acyclic [] = Unit {0}
  Acyclic ((name, i) ∷ m) = (rank name < rank i.m_owner) × Acyclic m

  abbrev Below : ℕ → List Bytes → Type 0
  Below n [] = Unit {0}
  Below n (name ∷ names) = (rank name < n) × Below n names

  Below-get_children : (x : Bytes) (m : Manager) → Acyclic m → Below (rank x) (get_children x m)
  unfolding get_children
  Below-get_children x [] h = tt
  Below-get_children x ((name, i) ∷ m) h =
      ground (arith, Below-get_children x m h.1, beq_iff i.m_owner x)

  Acyclic-erase : (name : Bytes) (m : Manager) → Acyclic m → Acyclic (erase name m)
  unfolding erase
  Acyclic-erase name [] h = tt
  Acyclic-erase name ((k, i) ∷ m) h = ground (arith, Acyclic-erase name m h.1)

  Acyclic-assign :
      (name : Bytes) (i j : Instance) (m : Manager)
      → find name m ≡ some i
      → j.m_owner ≡ i.m_owner
      → Acyclic m
      → Acyclic (assign name j m)
  unfolding assign find
  Acyclic-assign name i j [] e o h = tt
  Acyclic-assign name i j ((k, l) ∷ m) e o h = ground (arith, Acyclic-assign name i j m)

  -- Names from a rank on stay in the map.
  abbrev Present : ℕ → Manager → Manager → Type 0
  Present n m m' = (y : Bytes) → n ≤ rank y → is_some (find y m) ≡ true → is_some (find y m') ≡ true

  -- The call ends, and takes no name from a rank on.
  abbrev Runs : ℕ → Option Manager → Manager → Type 0
  Runs n o m = (m' : Manager) × (o ≡ some m') × Acyclic m' × Present n m m'

  Acyclic-remove : (name : Bytes) (m : Manager) → Acyclic m → Acyclic (remove name m).1
  unfolding remove
  Acyclic-remove name m h = ground (arith, Acyclic-erase name m h)

  Present-remove :
      (name : Bytes) (n : ℕ) (m : Manager) → rank name < n → Present n m (remove name m).1
  unfolding remove
  Present-remove name n m h y high there = ground (arith, find-erase name y m, beq_iff name y)

  Present-stop : (name : Bytes) (j : Instance) (n : ℕ) (m : Manager) → Present n m (assign name j m)
  Present-stop name j n m y high there = ground (arith, find-assign name y j m)

  Runs-for_each :
      (body : Bytes → Manager → Option Manager) (n : ℕ)
      → ((name : Bytes) (m : Manager) → rank name < n → Acyclic m → Runs n (body name m) m)
      → (names : List Bytes) (m : Manager) → Below n names
      → Acyclic m
      → Runs n (for_each body names m) m
  unfolding for_each
  Runs-for_each body n step [] m low h = (m, refl, h, λ y high there. there)
  Runs-for_each body n step (name ∷ names) m low h =
      let (u, e, hu, keep) = step name m low.0 h in
      let (v, e', hv, keep') = Runs-for_each body n step names u low.1 hu in
      (v, ground arith, hv, λ y high there. keep' y high (keep y high there))

  module _ (work : Task → Manager → Option Manager) (n : ℕ)
      (works : (task : Task) (m : Manager)
        → rank (name_of task) < n
        → Acyclic m
        → Runs (rank (name_of task)) (work task m) m) where
    Runs-stop_if_running :
        (name : Bytes) (m : Manager)
        → rank name < n
        → Acyclic m
        → Runs (rank name) (stop_if_running work name m) m
    Runs-stop_if_running name m low h = elim (Bool-cases (is_running name m)) [
      | inl on ↦ rw on (works (stop_task name) m low h)
      | inr off ↦ rw off (m, refl, h, λ y high there. there)
    ]

    Runs-drop_child :
        (policy : ChildPolicy) (child : Bytes) (k : ℕ) (m : Manager)
        → rank child < k
        → Acyclic m
        → Runs k (some (drop_child policy child m)) m
    unfolding drop_child
    Runs-drop_child stop_child child k m low h = (m, refl, h, λ y high there. there)
    Runs-drop_child remove_child child k m low h =
        (_, refl, Acyclic-remove child m h, Present-remove child k m low)

    Runs-settle_child :
        (child : Bytes) (k : ℕ) (m : Manager)
        → rank child < n
        → rank child < k
        → Acyclic m
        → is_some (find child m) ≡ true
        → Runs k (settle_child work child m) m
    unfolding settle_child
    Runs-settle_child child k m low lower h there = elim (Option-cases (find child m)) [
      | inl gone ↦ absurd (ground arith)
      | inr (i, found) ↦
          let (u, e, hu, keep) = Runs-stop_if_running child m low h in
          let (v, e', hv, keep') = Runs-drop_child i.m_child_policy child k u lower hu in
          (v, ground arith, hv, λ y high there. keep' y high (keep y (omega arith) there))
    ]

    Runs-cascade_child :
        (child : Bytes) (k : ℕ) (m : Manager)
        → rank child < n
        → rank child < k
        → Acyclic m
        → Runs k (cascade_child work child m) m
    unfolding cascade_child children_task
    Runs-cascade_child child k m low lower h = elim (Option-cases (find child m)) [
      | inl gone ↦ (m, ground arith, h, λ y high there. there)
      | inr (i, found) ↦
          let task = children_task i.m_child_policy child in
          let same : name_of task ≡ child = ground arith in
          let (u, e, hu, keep) = works task m (rw same low) h in
          let kept : is_some (find child u) ≡ true = keep child (ground arith) (ground arith) in
          let (v, e', hv, keep') = Runs-settle_child child k u low lower hu kept in
          (v, ground arith, hv, λ y high there. keep' y high (keep y (ground arith) there))
    ]

    Runs-stop_children_round :
        (child : Bytes) (k : ℕ) (m : Manager)
        → rank child < n
        → rank child < k
        → Acyclic m
        → Runs k (stop_children_round work child m) m
    unfolding stop_children_round
    Runs-stop_children_round child k m low lower h =
        let (u, e, hu, keep) = works (stop_children_task child) m low h in
        let (v, e', hv, keep') = works (stop_task child) u low hu in
        (v, ground arith, hv, λ y high there. keep' y (omega arith) (keep y (omega arith) there))

    Runs-remove_children_round :
        (child : Bytes) (k : ℕ) (m : Manager)
        → rank child < n
        → rank child < k
        → Acyclic m
        → Runs k (remove_children_round work child m) m
    unfolding remove_children_round
    Runs-remove_children_round child k m low lower h =
        let (u, e, hu, keep) = works (remove_children_task child) m low h in
        let (v, e', hv, keep') = Runs-stop_if_running child u low hu in
        (
          (remove child v).1,
          ground arith,
          Acyclic-remove child v hv,
          λ y high there.
              Present-remove child k v lower y high
                (keep' y (omega arith) (keep y (omega arith) there)),
        )

    Runs-stop_body :
        (name : Bytes) (m : Manager)
        → rank name ≤ n
        → Acyclic m
        → Runs (rank name) (stop_body work name m) m
    unfolding stop_body
    Runs-stop_body name m low h = elim (Option-cases (find name m)) [
      | inl gone ↦ (m, ground arith, h, λ y high there. there)
      | inr (i, found) ↦ elim (Bool-cases (Instance.stop i).0) [
        | inr refused ↦ (m, ground arith, h, λ y high there. there)
        | inl done ↦
            let u = assign name (Instance.stop i).1 m in
            let hu = Acyclic-assign name i (Instance.stop i).1 m found (owner-stop i) h in
            let (v, e, hv, keep) =
              Runs-for_each (cascade_child work) (rank name)
                (λ c w lower hw. Runs-cascade_child c (rank name) w (omega arith) lower hw)
                (get_children name u) u (Below-get_children name u hu) hu in
            (
              v,
              ground arith,
              hv,
              λ y high there.
                  keep y high (Present-stop name (Instance.stop i).1 (rank name) m y high there),
            )
      ]
    ]

    Runs-perform :
        (task : Task) (m : Manager)
        → rank (name_of task) ≤ n
        → Acyclic m
        → Runs (rank (name_of task)) (perform work task m) m
    unfolding perform
    Runs-perform (stop_task name) m low h = Runs-stop_body name m low h
    Runs-perform (stop_children_task parent) m low h =
        Runs-for_each (stop_children_round work) (rank parent)
          (λ c w lower hw. Runs-stop_children_round c (rank parent) w (omega arith) lower hw)
          (get_children parent m) m (Below-get_children parent m h) h
    Runs-perform (remove_children_task parent) m low h =
        Runs-for_each (remove_children_round work) (rank parent)
          (λ c w lower hw. Runs-remove_children_round c (rank parent) w (omega arith) lower hw)
          (get_children parent m) m (Below-get_children parent m h) h

  work_on-Runs :
      (fuel : ℕ) (task : Task) (m : Manager)
      → rank (name_of task) < fuel
      → Acyclic m
      → Runs (rank (name_of task)) (work_on fuel task m) m
  unfolding work_on
  work_on-Runs zero task m low h = absurd (omega arith)
  work_on-Runs (suc fuel) task m low h =
      Runs-perform (work_on fuel) fuel (work_on-Runs fuel) task m (omega arith) h

  -- Where every owner ranks above what it owns, fuel above the rank of the name is enough: each of the
  -- three methods ends and follows no pointer to a removed instance.
  pub work_on_total :
      (fuel : ℕ) (task : Task) (m : Manager)
      → Acyclic m
      → rank (name_of task) < fuel
      → (m' : Manager) × (work_on fuel task m ≡ some m')
  work_on_total fuel task m h low = let (m', e, _, _) = work_on-Runs fuel task m low h in (m', e)
