-- ===== src/BranchFork/Steps.antt =====
-- What each answer does to the session that the example client examples/branch-fork/branch-fork.mjs has.
use wop.Prelude.{
  ℕ, String, ◌≡◌, refl, ◌∙◌, sym, ap, subst, Bool, true, false, ◌||◌, ◌&&◌, Option, none, some,
  List, ◌∷◌, inl, inr, eqb, ltb, leb, if_cases, maybe_cases, arith,
}
use wop.Json.{Json}
use wop.Platform.{Platform}
use wop.Suite.Polling.{has_status}
use wop.BranchFork.{
  Answer, answered, Exit, skipped, failed, forked, Stage, discovering, creating, polling_parent,
  forking, polling_fork, exited, Clock, Sent, Config, strictly_equal, or_null, run_id_of, run_path,
  get, loop_head, is_over, step, request, check_profile,
}
use wop.BranchFork.Session.{
  IsOffer, IsWait, Ends, WaitsForFork, Forks, WaitsForParent, fork_sent, Creates, Session,
}
use wop.BranchFork.Answers.{
  is_over-IsEnd, IsEnd-is_over, completed-IsSnapshot, check_profile-IsOffer,
}

abbrev parent_of : Exit → Option Json
parent_of (forked one other) = one
parent_of _ = none

abbrev fork_of : Exit → Option Json
fork_of (forked one other) = other
fork_of _ = none

module _ (p : Platform) (encode : Option Json → Option String) (c : Config)
    (parent fork : Option Json) where
  -- What is sent from a stage on.
  abbrev pub Needs : Stage → List (Sent × Answer) → Type 0
  Needs discovering es = Session p encode c parent fork es
  Needs creating es = Creates p encode c parent fork es
  Needs (polling_parent id deadline) es = (id ≡ parent) × WaitsForParent p encode c parent fork es
  Needs (forking id) es = (id ≡ parent) × Forks p encode c parent fork es
  Needs (polling_fork id made deadline) es =
      (id ≡ parent) × (made ≡ fork) × WaitsForFork p encode c parent fork es
  Needs (exited e) es = (e ≡ forked parent fork) × Ends p encode c parent fork es

  -- What holds of the rest after an answer gives what holds before it, where something is sent.
  abbrev pub Before : Stage → Answer → List (Sent × Answer) → Stage → Type 0
  Before stage a es next =
      Needs next es
      → (sent : Sent) → request p encode c stage ≡ some sent
      → Needs stage ((sent, a) ∷ es)

  pub failed-Before :
      (stage : Stage) (a : Answer) (es : List (Sent × Answer)) → Before stage a es (exited failed)
  failed-Before stage a es (e, end) sent s = cc

  skipped-Before :
      (stage : Stage) (a : Answer) (es : List (Sent × Answer)) → Before stage a es (exited skipped)
  skipped-Before stage a es (e, end) sent s = cc

  -- The head of the loop leads to the next request or to a failure.
  loop_head-Needs :
      (id : Option Json) (deadline now : ℕ) (waiting : Stage) (es : List (Sent × Answer))
      → Needs (loop_head p encode id deadline now waiting) es
      → Needs waiting es
  loop_head-Needs id deadline now waiting es =
      maybe_cases (λ (s : Stage). Needs s es → Needs waiting es) (encode id) _ _ (λ e (n, end). cc)
        (λ text e.
          if_cases (λ (s : Stage). Needs s es → Needs waiting es) (ltb now deadline) _ _
            (λ early n. n) (λ late (n, end). cc))

  -- An answer after which the loop goes on.
  going-IsWait :
      (status : ℕ) (json : Option Json)
      → is_over p encode status json ≡ false
      → IsWait p encode (answered status json)
  going-IsWait status json h =
      (status, json, refl, λ e. let over = IsEnd-is_over p encode status json e in cc)

  sent_as : (a b : Sent) → some a ≡ some b → b ≡ a
  sent_as a b e = ground (arith, e)

  -- The stages that the answer to the discovery leads to.
  abbrev is_first : Stage → Bool
  is_first creating = true
  is_first (exited skipped) = true
  is_first (exited failed) = true
  is_first _ = false

  is_first-check_profile : (caps : Json) → is_first (check_profile p encode caps) ≡ true
  is_first-check_profile caps = ground arith

  first-Creates :
      (stage : Stage) (es : List (Sent × Answer))
      → is_first stage ≡ true
      → Needs stage es
      → (stage ≡ creating) × Creates p encode c parent fork es
  first-Creates creating es h n = (refl, n)
  first-Creates (exited skipped) es h (e, end) = cc
  first-Creates (exited failed) es h (e, end) = cc
  first-Creates _ es h n = cc

  pub discovered :
      (status : ℕ) (json : Option Json) (clock : Clock) (es : List (Sent × Answer))
      → Before discovering
          (answered status json)
          es
          (step p encode discovering (answered status json) clock)
  unfolding step request
  discovered status json clock es =
      let B = Before discovering (answered status json) es in
      let fails = failed-Before discovering (answered status json) es in
      if_cases B (leb 200 status && ltb status 300) _ _
        (λ ok.
          maybe_cases B json _ _ (λ e. fails)
            (λ caps e n sent s.
              let (next, creates) =
                first-Creates (check_profile p encode caps) es (is_first-check_profile caps) n in
              let offer = check_profile-IsOffer p encode status caps ok next in
              (
                sent_as (get p encode "/.well-known/wop") sent s,
                subst (λ (j : Option Json). IsOffer p encode (answered status j)) (sym e) offer,
                creates,
              )))
        (λ refused. fails)

  pub created :
      (status : ℕ) (json : Option Json) (clock : Clock) (es : List (Sent × Answer))
      → Before creating
          (answered status json)
          es
          (step p encode creating (answered status json) clock)
  unfolding step request
  created status json clock es =
      let B = Before creating (answered status json) es in
      let fails = failed-Before creating (answered status json) es in
      if_cases B (eqb status 404) _ _ (λ unknown. skipped-Before creating (answered status json) es)
        (λ known.
          if_cases B (eqb status 201) _ _
            (λ made.
              maybe_cases B (run_id_of p encode (or_null json)) _ _ (λ e. fails)
                (λ id e n sent s.
                  let (same, waits) = loop_head-Needs id _ clock.now (polling_parent id _) es n in
                  let is_201 : status ≡ 201 = ground (arith, made) in
                  let body = ap (λ (k : ℕ). answered k json) is_201 in
                  (
                    sent_as _ sent s,
                    (json, body, e ∙ ap (λ (i : Option Json). some i) same),
                    waits,
                  )))
            (λ refused. fails))

  pub parent_polled :
      (id : Option Json) (deadline status : ℕ) (json : Option Json) (clock : Clock)
      (es : List (Sent × Answer))
      → Before
          (polling_parent id deadline)
          (answered status json)
          es
          (step p encode (polling_parent id deadline) (answered status json) clock)
  unfolding step request
  parent_polled id deadline status json clock es =
      let B = Before (polling_parent id deadline) (answered status json) es in
      let path = λ (i : Option Json). get p encode (run_path p encode i) in
      if_cases B (is_over p encode status json) _ _
        (λ over (same, forks) sent s.
          let at = sent_as (path id) sent s ∙ ap path same in
          (same, (at, inl (is_over-IsEnd p encode status json over, forks))))
        (λ going n sent s.
          let (same, waits) =
            loop_head-Needs id deadline clock.now (polling_parent id deadline) es n in
          let at = sent_as (path id) sent s ∙ ap path same in
          (same, (at, inr (going-IsWait status json going, waits))))

  pub fork_answered :
      (id : Option Json) (status : ℕ) (json : Option Json) (clock : Clock)
      (es : List (Sent × Answer))
      → Before
          (forking id)
          (answered status json)
          es
          (step p encode (forking id) (answered status json) clock)
  unfolding step request
  fork_answered id status json clock es =
      let B = Before (forking id) (answered status json) es in
      let fails = failed-Before (forking id) (answered status json) es in
      if_cases B (eqb status 501) _ _
        (λ stubbed. skipped-Before (forking id) (answered status json) es)
        (λ routed.
          if_cases B (eqb status 200 || eqb status 201) _ _
            (λ ok.
              maybe_cases B (run_id_of p encode (or_null json)) _ _ (λ e. fails)
                (λ made e.
                  if_cases B (strictly_equal made id) _ _ (λ equal. fails)
                    (λ differ n sent s.
                      let (old, new, waits) =
                        loop_head-Needs made _ clock.now (polling_fork id made _) es n in
                      (
                        old,
                        (
                          sent_as (fork_sent p encode c id) sent s ∙ ap (fork_sent p encode c) old,
                          (
                            rw (sym new, sym old) differ,
                            status,
                            json,
                            refl,
                            ok,
                            e ∙ ap (λ (i : Option Json). some i) new,
                          ),
                          waits,
                        ),
                      ))))
            (λ refused. fails))

  pub fork_polled :
      (id made : Option Json) (deadline status : ℕ) (json : Option Json) (clock : Clock)
      (es : List (Sent × Answer))
      → Before
          (polling_fork id made deadline)
          (answered status json)
          es
          (step p encode (polling_fork id made deadline) (answered status json) clock)
  unfolding step request
  fork_polled id made deadline status json clock es =
      let stage = polling_fork id made deadline in
      let B = Before (polling_fork id made deadline) (answered status json) es in
      let path = λ (i : Option Json). get p encode (run_path p encode i) in
      if_cases B (is_over p encode status json) _ _
        (λ over.
          if_cases B (has_status p "completed" (some (or_null json))) _ _
            (λ completed (e, end) sent s.
              let new : made ≡ fork = ap fork_of e in
              (
                ap parent_of e,
                new,
                (
                  sent_as (path made) sent s ∙ ap path new,
                  inl (completed-IsSnapshot p encode status json over completed, end),
                ),
              ))
            (λ otherwise. failed-Before stage (answered status json) es))
        (λ going n sent s.
          let (old, new, waits) =
            loop_head-Needs made deadline clock.now (polling_fork id made deadline) es n in
          (
            old,
            new,
            (sent_as (path made) sent s ∙ ap path new, inr (going-IsWait status json going, waits)),
          ))
