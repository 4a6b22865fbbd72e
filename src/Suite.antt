-- ===== src/Suite.antt =====
-- The conformance suite's own machinery: its command line (conformance/src/cli.ts), its environment,
-- its driver and its polling loops (conformance/src/lib/env.ts, driver.ts and polling.ts).
pub mod Args
pub mod Parsing
pub mod Main
pub mod Env
pub mod Options
pub mod Launch
pub mod Driver
pub mod Polling
pub mod Waiting
pub mod Verdicts
