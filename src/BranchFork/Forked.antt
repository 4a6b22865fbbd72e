-- ===== src/BranchFork/Forked.antt =====
-- The example client examples/branch-fork/branch-fork.mjs: which sessions end with a parent and a fork.
use wop.Prelude.{
  ℕ, ◌+◌, String, ◌≡◌, ◌≢◌, ◌↔◌, refl, ap, ◌∙◌, sym, subst, inl, inr, maybe_cases, ltb, Option,
  List, [], ◌∷◌, ◌==◌, if_cases, arith,
}
use wop.Json.{Json}
use wop.Platform.{Platform}
use wop.BranchFork.{
  Answer, Exit, timeout_ms, loop_head, broken, answered, skipped, failed, forked, Stage,
  discovering, creating, polling_parent, forking, polling_fork, exited, Clock, Sent, Config, step,
  run, begin, request, exchanges,
}
use wop.BranchFork.Session.{IsFork, WaitsForFork, Forks, WaitsForParent, Creates, Session}
use wop.BranchFork.Outcomes.{
  offered, creates, forks, parent_ends, parent_waits, fork_ends, fork_waits,
}
use wop.BranchFork.Steps.{
  Needs, Before, failed-Before, discovered, created, parent_polled, fork_answered, fork_polled,
}

module _ (p : Platform) (encode : Option Json → Option String) (c : Config)
    (parent fork : Option Json) where
  broken-Before :
      (stage : Stage) (clock : Clock) (es : List (Sent × Answer))
      → Before p encode c parent fork stage broken es (step p encode stage broken clock)
  unfolding step request
  broken-Before (exited e) clock es = λ n sent s. cc
  broken-Before discovering clock es = failed-Before p encode c parent fork discovering broken es
  broken-Before creating clock es = failed-Before p encode c parent fork creating broken es
  broken-Before (polling_parent id d) clock es =
      failed-Before p encode c parent fork (polling_parent id d) broken es
  broken-Before (forking id) clock es = failed-Before p encode c parent fork (forking id) broken es
  broken-Before (polling_fork id made d) clock es =
      failed-Before p encode c parent fork (polling_fork id made d) broken es

  step-Before :
      (stage : Stage) (a : Answer) (clock : Clock) (es : List (Sent × Answer))
      → Before p encode c parent fork stage a es (step p encode stage a clock)
  unfolding request
  step-Before stage broken clock es = broken-Before stage clock es
  step-Before (exited e) (answered status json) clock es = λ n sent s. cc
  step-Before discovering (answered status json) clock es =
      discovered p encode c parent fork status json clock es
  step-Before creating (answered status json) clock es =
      created p encode c parent fork status json clock es
  step-Before (polling_parent id d) (answered status json) clock es =
      parent_polled p encode c parent fork id d status json clock es
  step-Before (forking id) (answered status json) clock es =
      fork_answered p encode c parent fork id status json clock es
  step-Before (polling_fork id made d) (answered status json) clock es =
      fork_polled p encode c parent fork id made d status json clock es

  run-Needs :
      (answers : List (Answer × Clock)) (stage : Stage)
      → run p encode answers stage ≡ exited (forked parent fork)
      → Needs p encode c parent fork stage (exchanges p encode c answers stage)
  unfolding run exchanges request step
  run-Needs [] discovering e = cc
  run-Needs [] creating e = cc
  run-Needs [] (polling_parent id d) e = cc
  run-Needs [] (forking id) e = cc
  run-Needs [] (polling_fork id made d) e = cc
  run-Needs [] (exited x) e = (ground (arith, e), refl)
  run-Needs ((a, clock) ∷ rest) (exited x) e = ((run-Needs rest (exited x) e).0, refl)
  run-Needs ((a, clock) ∷ rest) discovering e =
      step-Before discovering a clock _ (run-Needs rest (step p encode discovering a clock) e) _
        refl
  run-Needs ((a, clock) ∷ rest) creating e =
      step-Before creating a clock _ (run-Needs rest (step p encode creating a clock) e) _ refl
  run-Needs ((a, clock) ∷ rest) (polling_parent id d) e =
      step-Before (polling_parent id d) a clock _
        (run-Needs rest (step p encode (polling_parent id d) a clock) e) _ refl
  run-Needs ((a, clock) ∷ rest) (forking id) e =
      step-Before (forking id) a clock _ (run-Needs rest (step p encode (forking id) a clock) e) _
        refl
  run-Needs ((a, clock) ∷ rest) (polling_fork id made d) e =
      step-Before (polling_fork id made d) a clock _
        (run-Needs rest (step p encode (polling_fork id made d) a clock) e) _ refl

  abbrev Ended : Stage → Type 0
  Ended s = s ≡ exited (forked parent fork)

  -- An end is left by no answer, and nothing is sent after it.
  run-exited :
      (answers : List (Answer × Clock)) (e : Exit) → run p encode answers (exited e) ≡ exited e
  unfolding run step
  run-exited [] e = refl
  run-exited ((a, clock) ∷ rest) e = run-exited rest e

  exchanges-exited :
      (answers : List (Answer × Clock)) (e : Exit) → exchanges p encode c answers (exited e) ≡ []
  unfolding exchanges request
  exchanges-exited [] e = refl
  exchanges-exited ((a, clock) ∷ rest) e = refl

  -- From a stage on, what is needed was sent, so the program ends with the two runs.
  abbrev Leads : List (Answer × Clock) → Stage → Type 0
  Leads answers stage =
      Needs p encode c parent fork stage (exchanges p encode c answers stage)
      → Ended (run p encode answers stage)

  -- The loop goes on, since something was sent after its head.
  loop_head-Leads :
      (answers : List (Answer × Clock)) (id : Option Json) (deadline now : ℕ) (waiting : Stage)
      → (Needs p encode c parent fork waiting [] → ⊥)
      → Leads answers waiting
      → Needs p encode c parent fork waiting
          (exchanges p encode c answers (loop_head p encode id deadline now waiting))
      → Ended (run p encode answers (loop_head p encode id deadline now waiting))
  loop_head-Leads answers id deadline now waiting some_sent leads =
      let Goes = λ (s : Stage).
        Needs p encode c parent fork waiting (exchanges p encode c answers s)
        → Ended (run p encode answers s) in
      let gives_up : Goes (exited failed) = λ n. absurd (
        some_sent
          (subst (Needs p encode c parent fork waiting) (exchanges-exited answers failed) n)) in
      maybe_cases Goes (encode id) _ _ (λ e. gives_up)
        (λ text e. if_cases Goes (ltb now deadline) _ _ (λ early. leads) (λ late. gives_up))

  run-Leads : (answers : List (Answer × Clock)) (stage : Stage) → Leads answers stage
  unfolding run exchanges request
  run-Leads [] discovering n = absurd n
  run-Leads [] creating n = absurd n
  run-Leads [] (polling_parent id d) (same, n) = absurd n
  run-Leads [] (forking id) (same, n) = absurd n
  run-Leads [] (polling_fork id made d) (old, new, n) = absurd n
  run-Leads answers (exited x) (e, n) = run-exited answers x ∙ ap (λ (y : Exit). exited y) e
  run-Leads ((a, clock) ∷ rest) discovering (at, offer, n) =
      subst
        (λ (s : Stage).
          Creates p encode c parent fork (exchanges p encode c rest s)
          → Ended (run p encode rest s))
        (sym (offered p encode a clock offer)) (run-Leads rest creating) n
  run-Leads ((a, clock) ∷ rest) creating (at, made, n) =
      let d = clock.at + timeout_ms in
      subst
        (λ (s : Stage).
          WaitsForParent p encode c parent fork (exchanges p encode c rest s)
          → Ended (run p encode rest s))
        (sym (creates p encode a clock parent made))
        (λ w.
          loop_head-Leads rest parent d clock.now (polling_parent parent d)
            (λ (same, none_sent). none_sent) (run-Leads rest (polling_parent parent d)) (refl, w))
        n
  run-Leads ((a, clock) ∷ rest) (polling_parent id d) (same, (at, inl (end, n))) =
      subst
        (λ (s : Stage).
          Forks p encode c parent fork (exchanges p encode c rest s) → Ended (run p encode rest s))
        (sym (parent_ends p encode a clock id d end)) (λ w. run-Leads rest (forking id) (same, w)) n
  run-Leads ((a, clock) ∷ rest) (polling_parent id d) (same, (at, inr (wait, n))) =
      subst
        (λ (s : Stage).
          WaitsForParent p encode c parent fork (exchanges p encode c rest s)
          → Ended (run p encode rest s))
        (sym (parent_waits p encode a clock id d wait))
        (λ w.
          loop_head-Leads rest id d clock.now (polling_parent id d) (λ (was, none_sent). none_sent)
            (run-Leads rest (polling_parent id d)) (same, w))
        n
  run-Leads ((a, clock) ∷ rest) (forking id) (same, (at, made, n)) =
      let d = clock.at + timeout_ms in
      subst
        (λ (s : Stage).
          WaitsForFork p encode c parent fork (exchanges p encode c rest s)
          → Ended (run p encode rest s))
        (sym (
          forks p encode a clock id fork
            (subst (λ (i : Option Json). IsFork p encode i fork a) (sym same) made)))
        (λ w.
          loop_head-Leads rest fork d clock.now (polling_fork id fork d)
            (λ (old, new, none_sent). none_sent) (run-Leads rest (polling_fork id fork d))
            (same, refl, w))
        n
  run-Leads ((a, clock) ∷ rest) (polling_fork id made d) (old, new, (at, inl (end, n))) =
      ap (run p encode rest) (fork_ends p encode a clock id made d end)
      ∙ run-exited rest (forked id made)
      ∙ rw (old, new) refl
  run-Leads ((a, clock) ∷ rest) (polling_fork id made d) (old, new, (at, inr (wait, n))) =
      subst
        (λ (s : Stage).
          WaitsForFork p encode c parent fork (exchanges p encode c rest s)
          → Ended (run p encode rest s))
        (sym (fork_waits p encode a clock id made d wait))
        (λ w.
          loop_head-Leads rest made d clock.now (polling_fork id made d)
            (λ (was, is, none_sent). none_sent) (run-Leads rest (polling_fork id made d))
            (old, new, w))
        n

  -- Whatever is answered and whatever the clock shows, the program ends with a parent and a fork exactly
  -- if what it sends and is answered is this, in this order: the discovery, whose answer offers the mode
  -- `branch`; the creation of a run, answered with the parent's id; requests for the snapshot of the
  -- parent, up to the first that shows it ended; the fork of the parent, answered with the fork's id,
  -- which is not the same value; requests for the snapshot of the fork, up to the first that shows it
  -- ended, and this shows it completed; and nothing more.
  pub forked-Session :
      (answers : List (Answer × Clock)) (base_url api_key : String)
      → (run p encode answers (begin base_url api_key) ≡ exited (forked parent fork))
        ↔ Session p encode c parent fork (exchanges p encode c answers (begin base_url api_key))
  unfolding begin
  forked-Session answers base_url api_key =
      let Verifies = λ (s : Stage).
        Ended (run p encode answers s)
        ↔ Session p encode c parent fork (exchanges p encode c answers s) in
      if_cases Verifies (base_url == "") _ _ (λ unset. never answers skipped (λ e. cc))
        (λ set.
          if_cases Verifies (api_key == "") _ _ (λ unset. never answers failed (λ e. cc))
            (λ both. (run-Needs answers discovering, run-Leads answers discovering)))
    where
      never :
          (answers : List (Answer × Clock)) (x : Exit)
          → x ≢ forked parent fork
          → Ended (run p encode answers (exited x))
            ↔ Session p encode c parent fork (exchanges p encode c answers (exited x))
      never answers x other = (
        λ e. absurd (other (run-Needs answers (exited x) e).0),
        λ n. absurd (subst (Session p encode c parent fork) (exchanges-exited answers x) n),
      )
