-- ===== src/Memory/Fairness.antt =====
-- Fair schedules end a run (`runWorkflow` of examples/hosts/in-memory/src/server.ts).
use wop.Prelude.{
  ℕ, suc, ◌≤◌, ◌≡◌, refl, Bool, true, false, ◌||◌, List, [], ◌∷◌, ◌++◌, length, any, All, arith,
  Bool-cases, inl, inr,
}
use wop.Platform.{Platform}
use wop.Memory.Run.{Live, is_finished}
use wop.Memory.Engine.{resume, resume_task}
use wop.Memory.Turns.{
  fire_timer, request_cancel, connect, disconnect, Turn, timer, resumption, turn, run_schedule,
}
use wop.Memory.Invariant.{is_sleeping}
use wop.Memory.Progress.{turns_left, is_progress, progress, schedule_turns, finished_of_turns}

abbrev is_resumption : Turn → Bool
is_resumption resumption = true
is_resumption _ = false

-- The timer and, some time after it, a continuation.
abbrev pub is_fair : List Turn → Bool
is_fair [] = false
is_fair (timer ∷ ts) = any is_resumption ts || is_fair ts
is_fair (_ ∷ ts) = is_fair ts

-- The schedule made of these rounds.
abbrev pub rounds : List (List Turn) → List Turn
rounds [] = []
rounds (r ∷ rs) = r ++ rounds rs

module _ (p : Platform) where
  -- A turn that is not one of the execution does not end the run, and puts no task to sleep.
  idle_turn :
      (t : Turn) (l : Live)
      → is_progress t l.task ≡ false
      → is_finished l.task ≡ false
      → is_finished (turn p t l).task ≡ false
  unfolding turn fire_timer request_cancel connect disconnect resume resume_task
  idle_turn t l i u = ground arith

  idle_turn_awake :
      (t : Turn) (l : Live)
      → is_progress t l.task ≡ false
      → is_sleeping l.task ≡ false
      → is_sleeping (turn p t l).task ≡ false
  unfolding turn fire_timer request_cancel connect disconnect resume resume_task
  idle_turn_awake t l i u = ground arith

  resumption_progress :
      (ts : List Turn) (l : Live)
      → any is_resumption ts ≡ true
      → is_finished l.task ≡ false
      → is_sleeping l.task ≡ false
      → 1 ≤ progress p ts l
  unfolding progress
  resumption_progress [] l h u a = cc
  resumption_progress (t ∷ ts) l h u a = elim (Bool-cases (is_progress t l.task)) [
    | inl e ↦ rw e (omega arith)
    | inr e ↦
        let later : any is_resumption ts ≡ true = ground (arith, h, e, u, a) in
        rw e (
          omega (
            arith,
            resumption_progress ts (turn p t l) later (idle_turn t l e u) (idle_turn_awake t l e a),
          ))
  ]

  fair_progress :
      (ts : List Turn) (l : Live)
      → is_fair ts ≡ true
      → is_finished l.task ≡ false
      → 1 ≤ progress p ts l
  unfolding progress
  fair_progress [] l h u = cc
  fair_progress (t ∷ ts) l h u = elim (Bool-cases (is_progress t l.task)) [
    | inl e ↦ rw e (omega arith)
    | inr e ↦
        let still = idle_turn t l e u in
        rw e (elim (Bool-cases (is_fair ts)) [
          | inl f ↦ omega (arith, fair_progress ts (turn p t l) f still)
          | inr f ↦
              let later : any is_resumption ts ≡ true = ground (arith, h, f) in
              let awake : is_sleeping l.task ≡ false = ground (arith, h, f, e) in
              omega (
                arith,
                resumption_progress ts (turn p t l) later still (idle_turn_awake t l e awake),
              )
        ])
  ]

  schedule-append :
      (ts us : List Turn) (l : Live)
      → run_schedule p (ts ++ us) l ≡ run_schedule p us (run_schedule p ts l)
  unfolding run_schedule
  schedule-append [] us l = refl
  schedule-append (t ∷ ts) us l = schedule-append ts us (turn p t l)

  round_turns :
      (r : List Turn) (l : Live) (k : ℕ)
      → is_fair r ≡ true
      → turns_left l.task ≤ suc k
      → turns_left (run_schedule p r l).task ≤ k
  round_turns r l k f h = elim (Bool-cases (is_finished l.task)) [
    | inl e ↦
        let none_left : turns_left l.task ≡ 0 = ground (arith, e) in
        omega (arith, schedule_turns p r l)
    | inr e ↦ omega (arith, schedule_turns p r l, fair_progress r l f e)
  ]

  -- As many fair rounds as the task has turns left, whatever else happens in them, end the run: of
  -- a run that has just begun, three for each node that is left and three more.
  pub fair_ends :
      (rs : List (List Turn)) (l : Live)
      → All (λ (r : List Turn). is_fair r ≡ true) rs
      → turns_left l.task ≤ length rs
      → is_finished (run_schedule p (rounds rs) l).task ≡ true
  unfolding run_schedule
  fair_ends [] l fair h = finished_of_turns p l.task h
  fair_ends (r ∷ rs) l (f, fair) h =
      rw (schedule-append r (rounds rs) l)
        (fair_ends rs (run_schedule p r l) fair (round_turns r l (length rs) f h))
