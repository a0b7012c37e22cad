-- ===== src/Runtime/Manager/Stopped.antt =====
-- The three methods of the cascade do what they are for: what is owned by a stopped runtime stops.
use mathlib.Core.Path.{subst}
use socketley.Prelude.{
  ℕ, zero, suc, ◌≡◌, refl, inl, inr, arith, Bool, true, false, Option, some, Bytes, beq_iff,
  beq_refl, Option-cases, Bool-cases,
}
use socketley.Map.{find, assign}
use socketley.Map.Laws.{find-erase, find-assign}
use socketley.Runtime.Instance.{Instance, ChildPolicy, stop_child, remove_child, running, state_is}
use socketley.Runtime.Instance
use socketley.Runtime.Manager.{
  Manager, Task, stop_task, stop_children_task, remove_children_task, remove, children_task,
  drop_child, get_children, for_each, is_running, stop_if_running, settle_child, cascade_child,
  stop_body, stop_children_round, remove_children_round, perform, work_on,
}
use socketley.Runtime.Manager
use socketley.Runtime.Manager.Shrinks.{
  Shrinks, Shrinks-of_eq, Shrinks-trans, Shrinks-remove, drop_child-Shrinks,
  stop_if_running-Shrinks, work_on-Shrinks,
}
use socketley.Runtime.Manager.Quiet.{
  Quiet, Silent, Tidy, Settles, Achieves, Tidy-trans, Tidy-refl, Quiet-Shrinks, Silent-Shrinks,
  is_running-Shrinks, for_each-Settles, Quiet-of_children, Handled_of_child,
}

is_running-remove : (c : Bytes) (m : Manager) → is_running c (remove c m).1 ≡ false
unfolding remove
is_running-remove c m = ground (arith, find-erase c c m, beq_refl c)

Tidy-remove : (name : Bytes) (m : Manager) → Quiet m name → Tidy m (remove name m).1
unfolding remove
Tidy-remove name m q c here gone =
    let same : name ≡ c = ground (arith, find-erase name c m, beq_iff name c) in
    subst (λ z. Quiet (remove name m).1 z) same
      (Quiet-Shrinks m (remove name m).1 name (Shrinks-remove name m) q)

Tidy-assign : (name : Bytes) (i : Instance) (m : Manager) → Tidy m (assign name i m)
Tidy-assign name i m c here gone = absurd (ground (arith, find-assign name c i m))

Tidy-drop_child :
    (policy : ChildPolicy) (child : Bytes) (m : Manager)
    → Quiet m child
    → Tidy m (drop_child policy child m)
unfolding drop_child
Tidy-drop_child stop_child child m q = Tidy-refl m m refl
Tidy-drop_child remove_child child m q = Tidy-remove child m q

-- `stop` answers true exactly for a running instance, and none runs after it.
stop_answer :
    (i : Instance)
    → ((Instance.stop i).0 ≡ state_is i.m_state running)
      × (state_is (Instance.stop i).1.m_state running ≡ false)
unfolding Instance.stop
stop_answer i = ground arith

unchanged :
    (fuel : ℕ) (name : Bytes) (m u : Manager)
    → work_on fuel (stop_task name) m ≡ some u
    → is_running name m ≡ false
    → u ≡ m
unfolding work_on perform stop_body
unchanged zero name m u run off = absurd (ground arith)
unchanged (suc fuel) name m u run off = elim (Option-cases (find name m)) [
  | inl gone ↦ ground arith
  | inr (i, found) ↦ ground (arith, stop_answer i)
]

module _ (work : Task → Manager → Option Manager)
    (shrinks : (task : Task) (m m' : Manager) → work task m ≡ some m' → Shrinks m m')
    (achieves : (task : Task) (m m' : Manager)
      → work task m ≡ some m'
      → Tidy m m' × Achieves task m m') where
  stop_if_running-Achieves :
      (c : Bytes) (m m' : Manager)
      → stop_if_running work c m ≡ some m'
      → Tidy m m' × (is_running c m' ≡ false)
  stop_if_running-Achieves c m m' run = elim (Bool-cases (is_running c m)) [
    | inr off ↦ (Tidy-refl m m' (ground arith), ground arith)
    | inl on ↦ let (t, p) = achieves (stop_task c) m m' (ground arith) in (t, p.0)
  ]

  stop_children_round-Settles : Settles (stop_children_round work)
  unfolding stop_children_round
  stop_children_round-Settles c m m' handled run =
      elim (Option-cases (work (stop_children_task c) m)) [
        | inl bad ↦ absurd (ground arith)
        | inr (u, good) ↦
            let next : work (stop_task c) u ≡ some m' = ground arith in
            let h = shrinks (stop_children_task c) m u good in
            let h' = shrinks (stop_task c) u m' next in
            let (t, q) = achieves (stop_children_task c) m u good in
            let (t', p) = achieves (stop_task c) u m' next in
            (Shrinks-trans m u m' h h', Tidy-trans m u m' h' t t', (p.0, Quiet-Shrinks u m' c h' q))
      ]

  remove_children_round-Settles : Settles (remove_children_round work)
  unfolding remove_children_round
  remove_children_round-Settles c m m' handled run =
      elim (Option-cases (work (remove_children_task c) m)) [
        | inl bad ↦ absurd (ground arith)
        | inr (u, good) ↦ elim (Option-cases (stop_if_running work c u)) [
          | inl bad ↦ absurd (ground arith)
          | inr (v, stopped) ↦
              let h = shrinks (remove_children_task c) m u good in
              let h' = stop_if_running-Shrinks work shrinks c u v stopped in
              let h'' = Shrinks-remove c v in
              let (t, q) = achieves (remove_children_task c) m u good in
              let (t', off) = stop_if_running-Achieves c u v stopped in
              let qv = Quiet-Shrinks u v c h' q in
              let last : (remove c v).1 ≡ m' = ground arith in
              rw (← last) (
                Shrinks-trans m u _ h (Shrinks-trans u v _ h' h''),
                Tidy-trans m u _ (Shrinks-trans u v _ h' h'') t
                    (Tidy-trans u v _ h'' t' (Tidy-remove c v qv)),
                (is_running-remove c v, Quiet-Shrinks v _ c h'' qv),
              )
        ]
      ]

  settle_child-Settles :
      (c : Bytes) (m m' : Manager)
      → Quiet m c
      → settle_child work c m ≡ some m'
      → Shrinks m m' × Tidy m m' × Silent m' c
  unfolding settle_child
  settle_child-Settles c m m' q run = elim (Option-cases (find c m)) [
    | inl gone ↦ absurd (ground arith)
    | inr (i, there) ↦ elim (Option-cases (stop_if_running work c m)) [
      | inl bad ↦ absurd (ground arith)
      | inr (u, good) ↦
          let h = stop_if_running-Shrinks work shrinks c m u good in
          let (t, off) = stop_if_running-Achieves c m u good in
          let qu = Quiet-Shrinks m u c h q in
          let h' = drop_child-Shrinks i.m_child_policy c u in
          let last : drop_child i.m_child_policy c u ≡ m' = ground arith in
          rw (← last) (
            Shrinks-trans m u _ h h',
            Tidy-trans m u _ h' t (Tidy-drop_child i.m_child_policy c u qu),
            Silent-Shrinks u _ c h' (off, qu),
          )
    ]
  ]

  children_task-Achieves :
      (policy : ChildPolicy) (c : Bytes) (m u : Manager)
      → work (children_task policy c) m ≡ some u
      → Tidy m u × Quiet u c
  unfolding children_task
  children_task-Achieves stop_child c m u run = achieves (stop_children_task c) m u run
  children_task-Achieves remove_child c m u run = achieves (remove_children_task c) m u run

  cascade_child-Settles : Settles (cascade_child work)
  unfolding cascade_child
  cascade_child-Settles c m m' handled run = elim (Option-cases (find c m)) [
    | inl gone ↦ elim handled [
      | inl here ↦ absurd (ground arith)
      | inr q ↦
          let same : m ≡ m' = ground arith in
          (Shrinks-of_eq m m' same, Tidy-refl m m' same, rw (← same) (ground arith, q))
    ]
    | inr (i, there) ↦ elim (Option-cases (work (children_task i.m_child_policy c) m)) [
      | inl bad ↦ absurd (ground arith)
      | inr (u, good) ↦
          let h = shrinks (children_task i.m_child_policy c) m u good in
          let (t, q) = children_task-Achieves i.m_child_policy c m u good in
          let (h', t', s) = settle_child-Settles c u m' q (ground arith) in
          (Shrinks-trans m u m' h h', Tidy-trans m u m' h' t t', s)
    ]
  ]

  stop_body-Achieves :
      (x : Bytes) (m m' : Manager)
      → stop_body work x m ≡ some m'
      → Tidy m m' × Achieves (stop_task x) m m'
  unfolding stop_body
  stop_body-Achieves x m m' run = elim (Option-cases (find x m)) [
    | inl gone ↦ (Tidy-refl m m' (ground arith), (ground arith, λ on. absurd (ground arith)))
    | inr (i, found) ↦ elim (Bool-cases (Instance.stop i).0) [
      | inr refused ↦ (
        Tidy-refl m m' (ground arith),
        (ground (arith, stop_answer i), λ on. absurd (ground (arith, stop_answer i))),
      )
      | inl done ↦
          let u = assign x (Instance.stop i).1 m in
          let (h, t, all) =
            for_each-Settles (cascade_child work) cascade_child-Settles (get_children x u) u m'
              (λ c listed. inl (Handled_of_child x c u listed)) (ground arith) in
          let off : is_running x u ≡ false =
            ground (arith, find-assign x x (Instance.stop i).1 m, beq_refl x, stop_answer i) in
          (
            Tidy-trans m u m' h (Tidy-assign x (Instance.stop i).1 m) t,
            (is_running-Shrinks u m' x h off, λ on. Quiet-of_children x u m' h all),
          )
    ]
  ]

  perform-Achieves :
      (task : Task) (m m' : Manager)
      → perform work task m ≡ some m'
      → Tidy m m' × Achieves task m m'
  unfolding perform
  perform-Achieves (stop_task x) m m' run = stop_body-Achieves x m m' run
  perform-Achieves (stop_children_task x) m m' run =
      let (h, t, all) =
        for_each-Settles (stop_children_round work) stop_children_round-Settles (get_children x m) m
          m' (λ c listed. inl (Handled_of_child x c m listed)) run in
      (t, Quiet-of_children x m m' h all)
  perform-Achieves (remove_children_task x) m m' run =
      let (h, t, all) =
        for_each-Settles (remove_children_round work) remove_children_round-Settles
          (get_children x m) m m' (λ c listed. inl (Handled_of_child x c m listed)) run in
      (t, Quiet-of_children x m m' h all)

work_on-Achieves :
    (fuel : ℕ) (task : Task) (m m' : Manager)
    → work_on fuel task m ≡ some m'
    → Tidy m m' × Achieves task m m'
unfolding work_on
work_on-Achieves zero task m m' run = absurd (ground arith)
work_on-Achieves (suc fuel) task m m' run =
    perform-Achieves (work_on fuel) (work_on-Shrinks fuel) (work_on-Achieves fuel) task m m' run

-- Where `stop` answers true, the runtime does not run any more, and nothing that it owns, directly or
-- through others, runs; where it answers false, nothing has changed. Whatever it answers, no runtime
-- has been started, created or given another owner.
pub stop_lem :
    (fuel : ℕ) (name : Bytes) (ok : Bool) (m m' : Manager)
    → Manager.stop fuel name m ≡ some (ok, m')
    → (ok ≡ true → (is_running name m' ≡ false) × Quiet m' name)
      × (ok ≡ false → m' ≡ m)
      × Shrinks m m'
unfolding Manager.stop
stop_lem fuel name ok m m' run = elim (Option-cases (work_on fuel (stop_task name) m)) [
  | inl bad ↦ absurd (ground arith)
  | inr (u, good) ↦
      let (_, (off, quiet)) = work_on-Achieves fuel (stop_task name) m u good in
      let h = work_on-Shrinks fuel (stop_task name) m u good in
      let same : u ≡ m' = ground arith in
      rw (← same) (
        λ done. (off, quiet (ground arith)),
        λ refused. unchanged fuel name m u good (ground arith),
        h,
      )
]
