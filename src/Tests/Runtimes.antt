-- ===== src/Tests/Runtimes.antt =====
-- Runs of instances, of the manager, of the eviction order, of the saved configuration and of the
-- command line.
use socketley.Prelude.{
  ℕ, ◌<◌, ◌≡◌, ◌≢◌, refl, arith, Bool, true, false, none, some, [], ◌∷◌, Bytes, codes, beq, take,
  if◌then◌else◌,
}
use socketley.Prelude.Int.{pos}
use socketley.Map.{find, assign}
use socketley.Runtime.Instance.{
  Instance, RuntimeType, server, cache, new_instance, running, stopped, Event, setup, on_start,
  on_stop, teardown, start_internal, state_is,
}
use socketley.Runtime.Instance
use socketley.Runtime.Instance.Lifecycle.{
  start_call, stop_call, call, calls, replay, phase_of, TicksInRun, calls-Protocol,
}
use socketley.Runtime.Manager.{
  Manager, stop_task, is_running, get_children, for_each, cascade_child, children_task, drop_child,
  settle_child, stop_body, perform, work_on, rename, create, valid_name,
}
use socketley.Runtime.Manager
use socketley.Runtime.Manager.Cascade.{Acyclic, work_on_total}
use socketley.Runtime.Manager.Shrinks.{Shrinks}
use socketley.Runtime.Manager.Quiet.{Quiet}
use socketley.Runtime.Manager.Stopped.{stop_lem}
use socketley.Runtime.Manager.Names.{rename_orphans}
use socketley.Cache.Lru.{key_at}
use socketley.Cache.Lru.Helpers.{IsLinked}
use socketley.Cache.Lru.Commands.{run-IsLinked}
use socketley.Tests.Stores
use socketley.Tests.Stores.{first, empty, after, calls_ends}
use socketley.Cli.Args.{parse, words, max_args, parse-words}

abbrev parent : Bytes
parent = codes "p"

abbrev child : Bytes
child = codes "c"

abbrev fresh : Instance
fresh = new_instance server parent

-- A start and a stop.
calls_end :
    calls (start_call true (pos 0) ∷ stop_call ∷ []) fresh
    ≡ some (record fresh { m_state = stopped }, setup ∷ on_start ∷ on_stop ∷ teardown ∷ [])
unfolding calls call Instance.start start_internal Instance.stop new_instance
calls_end = refl

fresh_ticks : TicksInRun fresh
unfolding new_instance
fresh_ticks = ground arith

calls-Protocol_example :
    (replay (setup ∷ on_start ∷ on_stop ∷ teardown ∷ []) (phase_of fresh)
      ≡ some (phase_of (record fresh { m_state = stopped })))
    × TicksInRun (record fresh { m_state = stopped })
calls-Protocol_example =
    calls-Protocol (start_call true (pos 0) ∷ stop_call ∷ []) fresh
      (record fresh { m_state = stopped }) (setup ∷ on_start ∷ on_stop ∷ teardown ∷ []) fresh_ticks
      calls_end

-- A running runtime that owns a running one.
abbrev family : Manager
family =
    (parent, record fresh { m_state = running })
    ∷ (child, record fresh { m_name = child; m_state = running; m_owner = parent })
    ∷ []

abbrev family_stopped : Manager
family_stopped =
    (parent, record fresh { m_state = stopped })
    ∷ (child, record fresh { m_name = child; m_state = stopped; m_owner = parent })
    ∷ []

family_stops : Manager.stop 3 parent family ≡ some (true, family_stopped)
unfolding Manager.stop work_on perform stop_body find assign beq get_children for_each cascade_child
    children_task drop_child settle_child Instance.stop new_instance
family_stops = refl

stop_lem_example :
    (◌≡◌ {A = Bool} true true
      → (is_running parent family_stopped ≡ false) × Quiet family_stopped parent)
    × (◌≡◌ {A = Bool} true false → family_stopped ≡ family)
    × Shrinks family family_stopped
stop_lem_example = stop_lem 3 parent true family family_stopped family_stops

abbrev rank : Bytes → ℕ
rank [] = 2
rank (c ∷ name) = if beq (c ∷ name) parent then 1 else 0

family-Acyclic : Acyclic rank family
unfolding beq new_instance
family-Acyclic = ground arith

rank-parent : rank parent < 3
unfolding beq
rank-parent = omega arith

work_on_total_example : (m' : Manager) × (work_on 3 (stop_task parent) family ≡ some m')
work_on_total_example = work_on_total rank 3 (stop_task parent) family family-Acyclic rank-parent

rename_works : (rename parent (codes "q") family).0 ≡ true
unfolding rename find beq
rename_works = refl

child_there :
    find child family ≡ some (record fresh { m_name = child; m_state = running; m_owner = parent })
unfolding find beq
child_there = refl

child_is_not_parent : child ≢ parent
child_is_not_parent e = ground arith

rename_orphans_example :
    (find child (rename parent (codes "q") family).1
      ≡ some (record fresh { m_name = child; m_state = running; m_owner = parent }))
    × (find parent (rename parent (codes "q") family).1 ≡ none)
rename_orphans_example =
    rename_orphans parent (codes "q") child
      (record fresh { m_name = child; m_state = running; m_owner = parent }) family rename_works
      child_there refl child_is_not_parent

empty-IsLinked : IsLinked empty
unfolding find key_at
empty-IsLinked = record {
  links = record { live = λ k n e. ground arith; unique = tt; fresh = λ k n e. ground arith };
}

run-IsLinked_example : IsLinked after
run-IsLinked_example = run-IsLinked Stores.calls empty after empty-IsLinked calls_ends

abbrev line : Bytes
line = codes "  create server\tweb "

parse-words_example : parse line ≡ take max_args (words line)
parse-words_example = parse-words line
