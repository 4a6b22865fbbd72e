-- ===== src/BranchFork/Outcomes.antt =====
-- Where the answers of a session lead the example client examples/branch-fork/branch-fork.mjs.
use wop.Prelude.{
  ℕ, ◌+◌, String, ◌≡◌, ◌≢◌, refl, ◌∙◌, sym, subst, Bool, true, false, Option, some, eqb, arith,
}
use wop.Json.{Json, null, bool, num, str, arr, obj}
use wop.Platform.{Platform}
use wop.Suite.Polling.{has_status}
use wop.BranchFork.{
  Answer, answered, forked, discovering, creating, polling_parent, forking, polling_fork, exited,
  Clock, loop_head, poll_parent, timeout_ms, is_over, step, check_profile, check_replay,
}
use wop.BranchFork.Session.{IsOffer, IsCreation, IsFork, IsSnapshot, IsEnd, IsWait}
use wop.BranchFork.Answers.{
  is_over-IsEnd, IsEnd-is_over, has_status-completed, checked, checked_replay,
}

not_true : (b : Bool) → (b ≡ true → ⊥) → b ≡ false
not_true true h = absurd (h refl)
not_true false h = refl

module _ (p : Platform) (encode : Option Json → Option String) where
  chosen_replay :
      (replay : Json)
      → replay ≢ null
      → checked_replay p encode (some replay) ≡ check_replay p encode replay
  chosen_replay null h = absurd (h refl)
  chosen_replay (bool b) h = refl
  chosen_replay (num n) h = refl
  chosen_replay (str s) h = refl
  chosen_replay (arr vs) h = refl
  chosen_replay (obj fs) h = refl

  pub offered :
      (a : Answer) (clock : Clock)
      → IsOffer p encode a
      → step p encode discovering a clock ≡ creating
  unfolding step
  offered a clock
        (status, caps, replay, modes, e, full, some_replay, ok, given, supported, listed, branch) =
      let goes : check_profile p encode caps ≡ creating =
        rw
          (
            checked p encode caps full,
            given,
            chosen_replay replay some_replay,
            supported,
            listed,
            branch,
          )
          refl in
      rw (e, ok) goes

  pub creates :
      (a : Answer) (clock : Clock) (id : Option Json)
      → IsCreation p encode id a
      → step p encode creating a clock ≡ poll_parent p encode clock id
  unfolding step
  creates a clock id (json, e, read) = rw (e, read) refl

  pub forks :
      (a : Answer) (clock : Clock) (parent id : Option Json)
      → IsFork p encode parent id a
      → step p encode (forking parent) a clock
        ≡ loop_head p encode id
            (clock.at + timeout_ms)
            clock.now
            (polling_fork parent id (clock.at + timeout_ms))
  unfolding step
  forks a clock parent id (differ, status, json, e, ok, read) =
      let routed : eqb status 501 ≡ false = ground (arith, ok) in
      rw (e, routed, ok, read, differ) refl

  pub parent_ends :
      (a : Answer) (clock : Clock) (id : Option Json) (d : ℕ)
      → IsEnd p encode a
      → step p encode (polling_parent id d) a clock ≡ forking id
  unfolding step
  parent_ends a clock id d (s, (v, e, truthy, text, final)) =
      let over = IsEnd-is_over p encode 200 (some v) (s, (v, refl, truthy, text, final)) in
      rw (e, over) refl

  going :
      (status : ℕ) (json : Option Json)
      → (IsEnd p encode (answered status json) → ⊥)
      → is_over p encode status json ≡ false
  going status json h =
      not_true (is_over p encode status json) (λ over. h (is_over-IsEnd p encode status json over))

  pub parent_waits :
      (a : Answer) (clock : Clock) (id : Option Json) (d : ℕ)
      → IsWait p encode a
      → step p encode (polling_parent id d) a clock
        ≡ loop_head p encode id d clock.now (polling_parent id d)
  unfolding step
  parent_waits a clock id d (status, json, e, unended) =
      let still : is_over p encode status json ≡ false =
        going status json (λ (k : IsEnd p encode (answered status json)).
          unended (subst (IsEnd p encode) (sym e) k)) in
      rw (e, still) refl

  pub fork_ends :
      (a : Answer) (clock : Clock) (id made : Option Json) (d : ℕ)
      → IsSnapshot p encode "completed" a
      → step p encode (polling_fork id made d) a clock ≡ exited (forked id made)
  unfolding step
  fork_ends a clock id made d (v, e, truthy, text, final) =
      let over =
        IsEnd-is_over p encode 200 (some v) ("completed", (v, refl, truthy, text, final)) in
      let done : has_status p "completed" (some v) ≡ true =
        has_status-completed p encode v truthy ∙ rw text refl in
      rw (e, over, done) refl

  pub fork_waits :
      (a : Answer) (clock : Clock) (id made : Option Json) (d : ℕ)
      → IsWait p encode a
      → step p encode (polling_fork id made d) a clock
        ≡ loop_head p encode made d clock.now (polling_fork id made d)
  unfolding step
  fork_waits a clock id made d (status, json, e, unended) =
      let still : is_over p encode status json ≡ false =
        going status json (λ (k : IsEnd p encode (answered status json)).
          unended (subst (IsEnd p encode) (sym e) k)) in
      rw (e, still) refl
