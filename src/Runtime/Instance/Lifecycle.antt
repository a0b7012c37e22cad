-- ===== src/Runtime/Instance/Lifecycle.antt =====
-- The life cycle as runs of calls, and the protocol of the callbacks that a subclass sees.
use socketley.Prelude.{
  ℕ, ◌≡◌, refl, inl, inr, arith, Bool, true, false, Option, none, some, List, [], ◌∷◌, ◌++◌, map,
  Option-cases, is_some, if◌then◌else◌,
}
use socketley.Prelude.Int.{ℤ}
use socketley.Runtime.Instance.{
  RuntimeState, created, running, stopped, failed, Instance, Lua, Event, setup, on_start, on_stop,
  teardown, fork, reap, terminate, signal_stopped, start, stop, reload_lua_script, start_external,
  start_internal, start_tick_timer,
}

-- A call from outside, with the answers of the subclass, of the operating system and of the script.
pub data Call : Type 0 where
  start_call : Bool → ℤ → Call
  stop_call : Call
  reload_call : Option Lua → Call

unfoldable pub call : Call → Instance → Option (Instance × List Event)
call (start_call ready child) i = some ((start ready child i).1, (start ready child i).2)
call stop_call i = some ((stop i).1, (stop i).2)
call (reload_call script) i = elim (reload_lua_script script i) [
  | none ↦ none
  | some (ok, i') ↦ some (i', [])
]

-- A run and all events, in order.
unfoldable pub calls : List Call → Instance → Option (Instance × List Event)
calls [] i = some (i, [])
calls (c ∷ cs) i = elim (call c i) [
  | none ↦ none
  | some (i', events) ↦ elim (calls cs i') [
    | none ↦ none
    | some (i'', later) ↦ some (i'', events ++ later)
  ]
]

-- The protocol: a setup, the start callback, the stop callback, the teardown, and again.
pub data Phase : Type 0 where
  down set_up up stopping : Phase

abbrev pub advance : Event → Phase → Option Phase
advance setup down = some set_up
advance on_start set_up = some up
advance on_stop up = some stopping
advance teardown stopping = some down
advance (fork child) p = some p
advance (reap child) p = some p
advance (terminate child) p = some p
advance (signal_stopped fd) p = some p
advance _ _ = none

unfoldable pub replay : List Event → Phase → Option Phase
replay [] p = some p
replay (e ∷ events) p = elim (advance e p) [ none ↦ none | some q ↦ replay events q ]

abbrev pub phase_in : RuntimeState → Phase
phase_in created = down
phase_in running = up
phase_in stopped = down
phase_in failed = set_up

-- Where in the protocol an instance stands: one of another process never enters it.
abbrev pub phase_of : Instance → Phase
phase_of i = if i.m_external then down else phase_in i.m_state

replay-append :
    (xs ys : List Event) (p q : Phase) → replay xs p ≡ some q → replay (xs ++ ys) p ≡ replay ys q
unfolding replay
replay-append [] ys p q h = ground arith
replay-append (e ∷ xs) ys p q h = elim (Option-cases (advance e p)) [
  | inl bad ↦ ground arith
  | inr (p', good) ↦ ground (arith, replay-append xs ys p' q)
]

replay-signals : (fds : List ℕ) (p : Phase) → replay (map signal_stopped fds) p ≡ some p
unfolding replay
replay-signals [] p = refl
replay-signals (fd ∷ fds) p = replay-signals fds p

-- The timer of an instance of this process is armed only while the instance runs.
abbrev pub TicksInRun : Instance → Type 0
TicksInRun i = i.m_external ≡ false → is_some i.m_tick ≡ true → i.m_state ≡ running

call-Protocol :
    (c : Call) (i i' : Instance) (events : List Event)
    → call c i ≡ some (i', events)
    → (replay events (phase_of i) ≡ some (phase_of i')) × (i'.m_external ≡ i.m_external)
unfolding call start stop reload_lua_script start_external start_internal start_tick_timer replay
call-Protocol (start_call ready child) i i' events run = ground arith
call-Protocol stop_call i i' events run = ground (arith, replay-signals i.m_interactive_fds down)
call-Protocol (reload_call script) i i' events run = ground arith

call-TicksInRun :
    (c : Call) (i i' : Instance) (events : List Event)
    → TicksInRun i
    → call c i ≡ some (i', events)
    → TicksInRun i'
unfolding call start stop reload_lua_script start_external start_internal start_tick_timer
call-TicksInRun (start_call ready child) i i' events h run = ground arith
call-TicksInRun stop_call i i' events h run = ground arith
call-TicksInRun (reload_call script) i i' events h run = ground arith

-- Whatever the calls and the answers, the events of a run follow the protocol, from the phase in which
-- the instance stands to the one in which it ends; and the timer of an instance
-- of this process is never left armed outside a run.
pub calls-Protocol :
    (cs : List Call) (i i' : Instance) (events : List Event)
    → TicksInRun i
    → calls cs i ≡ some (i', events)
    → (replay events (phase_of i) ≡ some (phase_of i')) × TicksInRun i'
unfolding calls replay
calls-Protocol [] i i' events h run = ground arith
calls-Protocol (c ∷ cs) i i' events h run = elim (Option-cases (call c i)) [
  | inl bad ↦ ground arith
  | inr ((u, first), step) ↦ elim (Option-cases (calls cs u)) [
    | inl bad ↦ ground arith
    | inr ((v, later), rest) ↦
        let now = call-Protocol c i u first step in
        let ticks = call-TicksInRun c i u first h step in
        let ih = calls-Protocol cs u v later ticks rest in
        let joined = replay-append first later (phase_of i) (phase_of u) now.0 in ground arith
  ]
]

failed_call : (c : Call) (i : Instance) → i.m_state ≡ failed → call c i ≡ some (i, [])
unfolding call start stop reload_lua_script
failed_call (start_call ready child) i h = ground arith
failed_call stop_call i h = ground arith
failed_call (reload_call script) i h = ground arith

-- A failed instance answers to nothing: no call changes it or has an event.
pub calls_of_failed :
    (cs : List Call) (i : Instance) → i.m_state ≡ failed → calls cs i ≡ some (i, [])
unfolding calls
calls_of_failed [] i h = refl
calls_of_failed (c ∷ cs) i h = ground (arith, failed_call c i h, calls_of_failed cs i h)
