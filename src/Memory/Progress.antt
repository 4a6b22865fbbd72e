-- ===== src/Memory/Progress.antt =====
-- A run of the in-memory host ends: every turn of its execution brings it nearer to its end.
use wop.Prelude.{
  ℕ, zero, suc, ◌+◌, ◌*◌, ◌≤◌, ◌≡◌, refl, sym, ◌∙◌, Bool, true, false, List, [], ◌∷◌, length, arith,
  if◌then◌else◌,
}
use wop.Platform.{Platform}
use wop.Workflow.{Node, NodeOutcome, is_terminal}
use wop.Memory.Run.{Task, sleeping, slept, returned, finished, is_finished, Live, append_event}
use wop.Memory.Engine.{
  complete_node, cancel_node, sleep, dispatch, execute_node, finish_cancelled, finish_completed,
  finish_failed, run_nodes, after_node, resume_task, resume,
}
use wop.Memory.Invariant.{Inv}
use wop.Memory.Invariant.Schedules.{turn-Inv}
use wop.Memory.Turns.{
  fire_timer, request_cancel, connect, disconnect, Turn, timer, resumption, cancel, subscribe,
  hang_up, turn, run_schedule,
}

-- How many turns of its execution a task takes at most.
abbrev pub turns_left : Task → ℕ
turns_left (sleeping ms n r) = 3 + 3 * length r
turns_left (slept b n r) = 2 + 3 * length r
turns_left (returned o r) = 1 + 3 * length r
turns_left finished = 0

-- Whether this turn is one of the execution: its timer while it sleeps, else its continuation.
abbrev pub is_progress : Turn → Task → Bool
is_progress timer (sleeping ms n r) = true
is_progress resumption (slept b n r) = true
is_progress resumption (returned o r) = true
is_progress _ _ = false

module _ (p : Platform) where
  -- The number of such turns in a schedule.
  unfoldable pub progress : List Turn → Live → ℕ
  progress [] l = 0
  progress (t ∷ ts) l = (if is_progress t l.task then 1 else 0) + progress ts (turn p t l)

  execute_node_turns :
      (n : Node) (r : List Node) (l : Live)
      → turns_left (execute_node p n r l).task ≤ 3 + 3 * length r
  unfolding execute_node dispatch complete_node cancel_node sleep append_event
  execute_node_turns n r l = ground arith

  run_nodes_turns : (r : List Node) (l : Live) → turns_left (run_nodes p r l).task ≤ 3 * length r
  unfolding run_nodes finish_cancelled finish_completed
  run_nodes_turns [] l = ground arith
  run_nodes_turns (n ∷ r) l = ground (arith, execute_node_turns n r l)

  resume_task_turns :
      (t : Task) (l : Live)
      → l.task ≡ t
      → turns_left (resume_task p t l).task + (if is_progress resumption t then 1 else 0)
        ≤ turns_left t
  unfolding resume_task complete_node cancel_node after_node finish_failed finish_cancelled
  resume_task_turns (sleeping ms n r) l e = ground arith
  resume_task_turns (slept true n r) l e = omega arith
  resume_task_turns (slept false n r) l e = omega arith
  resume_task_turns (returned NodeOutcome.completed r) l e = omega (arith, run_nodes_turns r l)
  resume_task_turns (returned NodeOutcome.failed r) l e = omega arith
  resume_task_turns (returned NodeOutcome.cancelled r) l e = omega arith
  resume_task_turns finished l e = ground arith

  turn_turns :
      (t : Turn) (l : Live)
      → turns_left (turn p t l).task + (if is_progress t l.task then 1 else 0) ≤ turns_left l.task
  unfolding turn fire_timer request_cancel connect disconnect resume
  turn_turns timer l = ground arith
  turn_turns resumption l = resume_task_turns l.task l refl
  turn_turns cancel l = ground arith
  turn_turns (subscribe x) l = ground arith
  turn_turns (hang_up i) l = ground arith

  pub schedule_turns :
      (ts : List Turn) (l : Live)
      → turns_left (run_schedule p ts l).task + progress ts l ≤ turns_left l.task
  unfolding run_schedule progress
  schedule_turns [] l = omega arith
  schedule_turns (t ∷ ts) l = omega (arith, turn_turns t l, schedule_turns ts (turn p t l))

  pub finished_of_turns : (t : Task) → turns_left t ≤ 0 → is_finished t ≡ true
  finished_of_turns t h = ground arith

  abbrev next_turn : Task → Turn
  next_turn (sleeping ms n r) = timer
  next_turn _ = resumption

  -- The execution with nothing else in between.
  pub drive : ℕ → Live → Live
  drive zero l = l
  drive (suc k) l = drive k (turn p (next_turn l.task) l)

  drive_ends : (k : ℕ) (l : Live) → turns_left l.task ≤ k → is_finished (drive k l).task ≡ true
  unfolding drive
  drive_ends zero l h = finished_of_turns l.task h
  drive_ends (suc k) l h =
      drive_ends k (turn p (next_turn l.task) l) (ground (arith, turn_turns (next_turn l.task) l))

  drive-Inv : (k : ℕ) (l : Live) → Inv p l → Inv p (drive k l)
  unfolding drive
  drive-Inv zero l h = h
  drive-Inv (suc k) l h = drive-Inv k _ (turn-Inv p (next_turn l.task) l h)

  -- Left alone, a run that meets the invariant is terminal after as many turns as its task has left,
  -- which are at most three for each node left and three more.
  pub drive_terminal :
      (k : ℕ) (l : Live)
      → Inv p l
      → turns_left l.task ≤ k
      → is_terminal (drive k l).run.status ≡ true
  drive_terminal k l h enough = sym (drive-Inv k l h).done ∙ drive_ends k l enough
