-- ===== src/Sqlite/Orphans.antt =====
-- What a process does at its start: `resumeOrphans` of examples/hosts/sqlite/src/server.ts.
use wop.Prelude.{
  ℕ, ◌≤◌, String, ◌≡◌, refl, ◌∙◌, true, false, Option, none, some, lookup, arith, if◌then◌else◌,
  maybe, NoDup, keys, keys_where, update_each, changed, lookup-update_each, member-lookup,
  NoDup-keys_where, Bool-cases, inl, inr,
}
use wop.Platform.{Platform}
use wop.Sqlite.Rows.{is_orphan, try_claim}
use wop.Sqlite.Engine.{Process, Execution, run_workflow}
use wop.Sqlite.Host.{Host, Clock, claim_and_run}

module _ (p : Platform) (me : Process) where
  -- `resumeOrphans`: the scan at a time, then the loop over what it found, with the clocks that the
  -- calls of `tryClaim` read.
  unfoldable pub resume_orphans : ℕ → (String → Clock) → Host → Host
  unfolding claim_and_run
  resume_orphans now clocks h = record h {
    runs =
        update_each (λ id. claim_and_run p me (clocks id) h.claim_ttl_ms h.workflows)
          (keys_where (λ x. is_orphan now x.row) h.runs) h.runs;
  }

  module _ (h : Host) (now : ℕ) (clocks : String → Clock) where
    -- What becomes of an entry: the execution of its run by this process, from the row that it has
    -- claimed, or nothing.
    abbrev pub resumed : String → Execution → Execution
    resumed id x =
        if is_orphan now x.row
        then run_workflow p me h.workflows
            (try_claim me.id h.claim_ttl_ms (clocks id).at (clocks id).now x.row).0
        else x

    -- What the scan finds can be claimed from then on.
    orphan-claimed :
        (clock : Clock) (x : Execution)
        → now ≤ clock.now
        → is_orphan now x.row ≡ true
        → (try_claim me.id h.claim_ttl_ms clock.at clock.now x.row).1 ≡ true
    unfolding is_orphan try_claim
    orphan-claimed clock x later o = ground (arith, later, o)

    claim_and_run-orphan :
        (clock : Clock) (x : Execution)
        → now ≤ clock.now
        → is_orphan now x.row ≡ true
        → claim_and_run p me clock h.claim_ttl_ms h.workflows x
          ≡ run_workflow p me h.workflows
              (try_claim me.id h.claim_ttl_ms clock.at clock.now x.row).0
    unfolding claim_and_run
    claim_and_run-orphan clock x later o = rw (orphan-claimed clock x later o) refl

    -- Where no two rows have one id and the clock does not go back between the scan and the
    -- claims, a start of a process resumes exactly the orphans: each run that the scan finds is
    -- executed by this process from its row as claimed, once, and every other entry stays as it
    -- was.
    pub resume_orphans_lem :
        ((id : String) → now ≤ (clocks id).now)
        → NoDup (keys h.runs)
        → (id : String)
        → lookup id (resume_orphans now clocks h).runs ≡ changed (resumed id) (lookup id h.runs)
    unfolding resume_orphans
    resume_orphans_lem later unique id =
        lookup-update_each (λ i. claim_and_run p me (clocks i) h.claim_ttl_ms h.workflows)
          (keys_where (λ x. is_orphan now x.row) h.runs) id h.runs
          (NoDup-keys_where (λ x. is_orphan now x.row) h.runs unique)
        ∙ rw (member-lookup (λ x. is_orphan now x.row) id h.runs unique) (go (lookup id h.runs))
      where
        go :
            (o : Option Execution)
            → (if maybe o false (λ x. is_orphan now x.row)
                then changed (claim_and_run p me (clocks id) h.claim_ttl_ms h.workflows) o
                else o)
              ≡ changed (resumed id) o
        go none = refl
        go (some x) = elim (Bool-cases (is_orphan now x.row)) [
          | inl o ↦ rw (o, claim_and_run-orphan (clocks id) x (later id) o) refl
          | inr o ↦ rw o refl
        ]
