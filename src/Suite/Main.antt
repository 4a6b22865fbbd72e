-- ===== src/Suite/Main.antt =====
-- `main` of conformance/src/cli.ts.
use wop.Prelude.{
  ℕ, String, Bool, true, not, ◌&&◌, ◌||◌, Option, none, some, List, [], ◌∷◌, ◌++◌, ◌==◌, lookup,
  insert, if◌then◌else◌, maybe,
}
use wop.Suite.Args.{ParsedArgs, parse_args}

-- `process.env`
abbrev pub Variables : Type 0
Variables = List (String × String)

-- What `main` does: it writes a text and exits, or it starts the test runner.
pub data Action : Type 0 where
  exit : (status : ℕ) → Action
  spawn : (args : List String) (env : Variables) → Action

-- `if (value) env[name] = value`
abbrev pub override : String → Option String → Variables → Variables
override name none env = env
override name (some v) env = if v == "" then env else insert name v env

-- `!env[name]`
abbrev pub lacks : String → Variables → Bool
lacks name env = maybe (lookup name env) true (λ v. v == "")

-- The environment of the test runner.
unfoldable pub child_env : ParsedArgs → Variables → Variables
child_env args env = override "WOP_IMPLEMENTATION_VERSION" args.impl_version (
    override "WOP_IMPLEMENTATION_NAME" args.impl
      (override "WOP_API_KEY" args.api_key (override "WOP_BASE_URL" args.base_url env)))

-- `if (args.filter) vitestArgs.push(…)`
abbrev pattern_args : Option String → List String
pattern_args none = []
pattern_args (some f) = if f == "" then [] else "--testNamePattern" ∷ f ∷ []

-- `vitestArgs`, behind the name of the runner, with the path of its configuration
unfoldable pub vitest_args : String → ParsedArgs → List String
vitest_args config args =
    "vitest"
    ∷ "run"
    ∷ "--config"
    ∷ config
    ∷ ((if args.offline
          then "src/scenarios/fixtures-valid.test.ts" ∷ "src/scenarios/spec-corpus-validity.test.ts"
            ∷ []
          else [])
        ++ pattern_args args.filter)

-- `main`, up to the start of the test runner
unfoldable pub main : String → List String → Variables → Action
unfolding child_env vitest_args
main config argv process_env =
    let args = parse_args argv in
    let env = child_env args process_env in
    if args.help
    then exit 0
    else if not args.offline && (lacks "WOP_BASE_URL" env || lacks "WOP_API_KEY" env)
    then exit 2
    else spawn (vitest_args config args) env

-- `spawnSync`: it failed to start, or ended with a status, or by a signal.
pub data SpawnResult : Type 0 where
  not_started : SpawnResult
  ended : Option ℕ → SpawnResult

-- `process.exit(result.status ?? 1)`
unfoldable pub exit_status : SpawnResult → ℕ
exit_status not_started = 2
exit_status (ended none) = 1
exit_status (ended (some status)) = status
