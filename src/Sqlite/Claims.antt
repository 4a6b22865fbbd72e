-- ===== src/Sqlite/Claims.antt =====
-- Claims exclude the other processes while they are fresh (`tryClaim`, the heartbeat, the releases and
-- the orphan scan of examples/hosts/sqlite/src/server.ts).
use wop.Prelude.{
  ℕ, ◌+◌, ◌≤◌, String, ◌≡◌, ◌≢◌, true, false, Option, none, some, List, [], ◌∷◌, eq_iff, All, arith,
}
use wop.Json.{Json}
use wop.Platform.{Platform}
use wop.Workflow.{RunStatus, EventType}
use wop.Memory.Run.{RunError}
use wop.Sqlite.Rows.{
  RunRow, is_resumable, try_claim, renew_claim, release_claim, release_on_shutdown,
  set_cancel_requested, update_run_status, is_orphan, append_event, set_run_terminal,
}

-- A statement that some process runs on a row, with the process and the time where it has them.
pub data Statement : Type 0 where
  claim : (who : String) (at now : ℕ) → Statement
  heartbeat : (who : String) (now : ℕ) → Statement
  finish : (who : String) → RunStatus → Option RunError → Statement
  shut_down : (who : String) → Statement
  cancel : Statement
  start_run : Statement
  append : EventType → Option String → Option Json → Statement

module _ (p : Platform) (claim_ttl_ms : ℕ) where
  unfoldable pub run_statement : Statement → RunRow → RunRow
  run_statement (claim who at now) row = (try_claim who claim_ttl_ms at now row).0
  run_statement (heartbeat who now) row = renew_claim who claim_ttl_ms now row
  run_statement (finish who status error) row = set_run_terminal p who status error row
  run_statement (shut_down who) row = release_on_shutdown who row
  run_statement cancel row = set_cancel_requested row
  run_statement start_run row = update_run_status RunStatus.running none none row
  run_statement (append type node_id payload) row = append_event p type node_id payload row

  unfoldable pub run_statements : List Statement → RunRow → RunRow
  run_statements [] row = row
  run_statements (s ∷ ss) row = run_statements ss (run_statement s row)

  -- A statement that is not one of this process, and is run before this time or has none.
  abbrev pub IsForeign : String → ℕ → Statement → Type 0
  IsForeign me until (claim who at now) = (who ≢ me) × (now ≤ until)
  IsForeign me until (heartbeat who now) = who ≢ me
  IsForeign me until (finish who status error) = who ≢ me
  IsForeign me until (shut_down who) = who ≢ me
  IsForeign me until _ = Unit

  pub record IsClaimed (me : String) (until : ℕ) (row : RunRow) : Type 0 where
    pub holder : row.claim_holder_id ≡ some me
    pub expires : row.claim_expires_at ≡ some until

  foreign-IsClaimed :
      (me : String) (until : ℕ) (s : Statement) (row : RunRow)
      → IsForeign me until s
      → IsClaimed me until row
      → IsClaimed me until (run_statement s row)
  unfolding run_statement try_claim renew_claim set_run_terminal release_claim release_on_shutdown
      set_cancel_requested update_run_status append_event
  foreign-IsClaimed me until (claim who at now) row f c = record {
    holder = ground (arith, f, c.holder, c.expires);
    expires = ground (arith, f, c.holder, c.expires);
  }
  foreign-IsClaimed me until (heartbeat who now) row f c = record {
    holder = ground (arith, c.holder, eq_iff me who);
    expires = ground (arith, f, c.holder, c.expires, eq_iff me who);
  }
  foreign-IsClaimed me until (finish who status error) row f c = record {
    holder = ground (arith, f, c.holder, eq_iff me who);
    expires = ground (arith, f, c.holder, c.expires, eq_iff me who);
  }
  foreign-IsClaimed me until (shut_down who) row f c = record {
    holder = ground (arith, f, c.holder, eq_iff me who);
    expires = ground (arith, f, c.holder, c.expires, eq_iff me who);
  }
  foreign-IsClaimed me until cancel row f c = record { holder = c.holder; expires = c.expires }
  foreign-IsClaimed me until start_run row f c = record { holder = c.holder; expires = c.expires }
  foreign-IsClaimed me until (append type node_id payload) row f c = record {
    holder = c.holder;
    expires = c.expires;
  }

  -- A claim holds out: whatever the other processes do to the row until it expires, in any order,
  -- they neither take the claim nor extend nor release it.
  pub claim-IsClaimed :
      (me : String) (until : ℕ) (ss : List Statement) (row : RunRow)
      → All (IsForeign me until) ss
      → IsClaimed me until row
      → IsClaimed me until (run_statements ss row)
  unfolding run_statements
  claim-IsClaimed me until [] row f c = c
  claim-IsClaimed me until (s ∷ ss) row (f, fs) c =
      claim-IsClaimed me until ss (run_statement s row) fs (foreign-IsClaimed me until s row f c)

  -- A process that has claimed a run keeps the claim until it expires, whatever the other processes
  -- do until then, and no process gets it once more by then.
  pub try_claim_excludes :
      (me other : String) (at now at' later : ℕ) (ss : List Statement) (row : RunRow)
      → (try_claim me claim_ttl_ms at now row).1 ≡ true
      → All (IsForeign me (at + claim_ttl_ms)) ss
      → later ≤ at + claim_ttl_ms
      → let row' = run_statements ss (try_claim me claim_ttl_ms at now row).0 in
        IsClaimed me (at + claim_ttl_ms) row'
        × ((try_claim other claim_ttl_ms at' later row').1 ≡ false)
  unfolding try_claim
  try_claim_excludes me other at now at' later ss row won foreign early =
      let row₁ = (try_claim me claim_ttl_ms at now row).0 in
      let mine : IsClaimed me (at + claim_ttl_ms) row₁ = record {
        holder = ground (arith, won);
        expires = ground (arith, won);
      } in
      let still = claim-IsClaimed me (at + claim_ttl_ms) ss row₁ foreign mine in
      (still, ground (arith, still.holder, still.expires, early))

  -- The orphan scan finds exactly the rows, of a status that it resumes, whose claim `tryClaim` then
  -- gets at that time.
  pub is_orphan-try_claim :
      (me : String) (at now : ℕ) (row : RunRow)
      → is_resumable row.status ≡ true
      → is_orphan now row ≡ (try_claim me claim_ttl_ms at now row).1
  unfolding is_orphan try_claim
  is_orphan-try_claim me at now row r = ground (arith, r)
