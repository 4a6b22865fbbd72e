-- ===== src/Fixtures.antt =====
-- How both hosts find their workflows at the start: `loadFixtures` of
-- examples/hosts/in-memory/src/server.ts and examples/hosts/sqlite/src/server.ts, which are alike.
pub mod Search
use Prim.Native.String
use wop.Prelude.{
  ℕ, zero, suc, String, Bool, true, false, ends_with, Option, none, some, List, [], ◌∷◌, insert,
  maybe, if◌then◌else◌,
}
use wop.Workflow.{Node, FixtureWorkflow}

-- What they take from Node: `node:fs` and `node:path`, and `JSON.parse`, whose value the source takes
-- for a workflow; `none` where a call throws.
pub record Files : Type 0 where
  pub readdir : String → Option (List String)
  pub read_file : String → Option String
  pub join : String → String → String
  pub dirname : String → String
  pub parse : String → Option FixtureWorkflow

abbrev pub Workflows : Type 0
Workflows = List (String × FixtureWorkflow)

abbrev pub synthetic_noop : FixtureWorkflow
synthetic_noop = record {
  id = "conformance-noop";
  name = "Synthetic Noop";
  version = "1.0.0";
  nodes = record { id = "noop"; type_id = "core.noop"; name = "Noop"; inputs = [] } ∷ [];
}

-- An entry of a directory: passed over, a workflow, or not to be read.
pub data Entry : Type 0 where
  other unreadable : Entry
  workflow : FixtureWorkflow → Entry

-- `workflows.set(parsed.id, parsed)`, where there is one; `none` where reading it throws
unfoldable pub store : Entry → Workflows → Option Workflows
store other workflows = some workflows
store unreadable workflows = none
store (workflow w) workflows = some (insert w.id w workflows)

module _ (fs : Files) where
  abbrev pub candidate : String → String
  candidate probe = fs.join (fs.join probe "conformance") "fixtures"

  abbrev pub parsed : Option String → Entry
  parsed none = unreadable
  parsed (some raw) = maybe (fs.parse raw) unreadable workflow

  abbrev pub entry : String → String → Entry
  entry directory file =
      if ends_with ".json" file then parsed (fs.read_file (fs.join directory file)) else other

  -- The loop over the files, and whether it came to its end.
  unfoldable pub load_files : String → List String → Workflows → Workflows × Bool
  load_files directory [] workflows = (workflows, true)
  load_files directory (file ∷ files) workflows =
      maybe (store (entry directory file) workflows) (workflows, false) (load_files directory files)

  -- The body of the `try`: `readdirSync` may throw too.
  abbrev pub load_directory : String → Workflows → Workflows × Bool
  load_directory directory workflows =
      maybe (fs.readdir directory) (workflows, false)
        (λ files. load_files directory files workflows)

  -- The search in this many directories upwards.
  unfoldable pub search_up : ℕ → String → Workflows → Workflows
  search_up zero probe workflows = insert "conformance-noop" synthetic_noop workflows
  search_up (suc n) probe workflows =
      let (loaded, whole) = load_directory (candidate probe) workflows in
      let above = search_up n (fs.dirname probe) loaded in if whole then loaded else above

  unfoldable pub load_fixtures : String → Workflows → Workflows
  load_fixtures here workflows = search_up 10 here workflows
