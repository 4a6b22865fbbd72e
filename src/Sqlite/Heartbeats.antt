-- ===== src/Sqlite/Heartbeats.antt =====
-- A process that renews its claim in time keeps it: `startHeartbeat`, `renewClaimStmt` and `tryClaim`
-- of examples/hosts/sqlite/src/server.ts.
use wop.Prelude.{ℕ, ◌+◌, ◌≤◌, String, ◌≡◌, true, false, List, [], ◌∷◌, All, arith, eq_iff}
use wop.Platform.{Platform}
use wop.Sqlite.Rows.{RunRow, try_claim, renew_claim}
use wop.Sqlite.Claims.{Statement, IsForeign, IsClaimed, run_statements, claim-IsClaimed}

module _ (p : Platform) (claim_ttl_ms : ℕ) (me : String) where
  -- What the other processes do to the row before a heartbeat of this one, and when that comes.
  abbrev pub Beat : Type 0
  Beat = List Statement × ℕ

  unfoldable pub run_beats : List Beat → RunRow → RunRow
  run_beats [] row = row
  run_beats ((ss, now) ∷ beats) row =
      run_beats beats (renew_claim me claim_ttl_ms now (run_statements p claim_ttl_ms ss row))

  -- The others' statements are theirs, and each comes before the claim expires as it then stands.
  abbrev pub IsTimely : ℕ → List Beat → Type 0
  IsTimely until [] = Unit
  IsTimely until ((ss, now) ∷ beats) =
      All (IsForeign p claim_ttl_ms me until) ss × IsTimely (now + claim_ttl_ms) beats

  -- When the claim expires after the last heartbeat.
  abbrev pub last_expiry : ℕ → List Beat → ℕ
  last_expiry until [] = until
  last_expiry until ((ss, now) ∷ beats) = last_expiry (now + claim_ttl_ms) beats

  renew_claim-IsClaimed :
      (now until : ℕ) (row : RunRow)
      → IsClaimed p claim_ttl_ms me until row
      → IsClaimed p claim_ttl_ms me (now + claim_ttl_ms) (renew_claim me claim_ttl_ms now row)
  unfolding renew_claim
  renew_claim-IsClaimed now until row c = record {
    holder = ground (arith, c.holder, eq_iff me me);
    expires = ground (arith, c.holder, eq_iff me me);
  }

  run_beats-IsClaimed :
      (beats : List Beat) (until : ℕ) (row : RunRow)
      → IsTimely until beats
      → IsClaimed p claim_ttl_ms me until row
      → IsClaimed p claim_ttl_ms me (last_expiry until beats) (run_beats beats row)
  unfolding run_beats
  run_beats-IsClaimed [] until row t c = c
  run_beats-IsClaimed ((ss, now) ∷ beats) until row (foreign, later) c =
      let still = claim-IsClaimed p claim_ttl_ms me until ss row foreign c in
      run_beats-IsClaimed beats (now + claim_ttl_ms) _ later
        (renew_claim-IsClaimed now until (run_statements p claim_ttl_ms ss row) still)

  -- A process that has claimed a run and renews the claim by heartbeats, while whatever the others do
  -- between two of them is done before the claim expires, holds the claim after all of them, and no
  -- process gets it until the last renewal expires.
  pub heartbeats_keep :
      (other : String) (at now at' later : ℕ) (beats : List Beat) (row : RunRow)
      → (try_claim me claim_ttl_ms at now row).1 ≡ true
      → IsTimely (at + claim_ttl_ms) beats
      → later ≤ last_expiry (at + claim_ttl_ms) beats
      → let row' = run_beats beats (try_claim me claim_ttl_ms at now row).0 in
        IsClaimed p claim_ttl_ms me (last_expiry (at + claim_ttl_ms) beats) row'
        × ((try_claim other claim_ttl_ms at' later row').1 ≡ false)
  unfolding try_claim
  heartbeats_keep other at now at' later beats row won timely early =
      let row₁ = (try_claim me claim_ttl_ms at now row).0 in
      let mine : IsClaimed p claim_ttl_ms me (at + claim_ttl_ms) row₁ = record {
        holder = ground (arith, won);
        expires = ground (arith, won);
      } in
      let still = run_beats-IsClaimed beats (at + claim_ttl_ms) row₁ timely mine in
      (still, ground (arith, still.holder, still.expires, early))
