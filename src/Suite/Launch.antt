-- ===== src/Suite/Launch.antt =====
-- From the command line to the environment that the suite reads: `main` of conformance/src/cli.ts with
-- `loadEnv` of conformance/src/lib/env.ts in the test runner that it starts.
use wop.Prelude.{
  All, String, ◌≡◌, ◌≢◌, Bool, false, not, ◌&&◌, ◌||◌, none, some, List, arith, if_cases,
}
use wop.Platform.{Platform}
use wop.Client.{strip_last_slash}
use wop.Suite.Args.{ParsedArgs, Flag, no_args, parse_args}
use wop.Suite.Options.{Given, IsReadable, values_of, last_value}
use wop.Suite.Main.{Variables, Action, exit, spawn, lacks, child_env, main}
use wop.Suite.Env.{Loaded, loaded, missing}

module _ (p : Platform) (config : String) (gs : List Given) (env : Variables) (base key : String)
    (readable : All IsReadable gs) (given_base : last_value Flag.base_url gs none ≡ some base)
    (given_key : last_value Flag.api_key gs none ≡ some key) (trim_empty : p.trim "" ≡ "")
    (full_base : p.trim base ≢ "") (full_key : p.trim key ≢ "") where
  -- The values that the command line gives.
  abbrev pub args : ParsedArgs
  args = values_of gs no_args

  -- What the suite then knows.
  abbrev pub Ready : Loaded → Type 0
  Ready (loaded e) = (e.base_url ≡ strip_last_slash (p.trim base)) × (e.api_key ≡ p.trim key)
  Ready (missing message) = ⊥

-- If the test runner is started, then with a base URL and a key that are not empty.
abbrev pub IsRunnable : Action → Type 0
IsRunnable (exit status) = Unit
IsRunnable (spawn xs child) =
    (lacks "WOP_BASE_URL" child ≡ false) × (lacks "WOP_API_KEY" child ≡ false)

neither : (o l m : Bool) → o ≡ false → (not o && (l || m)) ≡ false → (l ≡ false) × (m ≡ false)
neither o l m e h = (ground (arith, e, h), ground (arith, e, h))

-- Whatever the environment and the command line, unless it has `--offline`: the test runner is started
-- only with a base URL and a key in its environment that are not empty.
pub main-IsRunnable :
    (config : String) (argv : List String) (env : Variables)
    → (parse_args argv).offline ≡ false
    → IsRunnable (main config argv env)
unfolding main
main-IsRunnable config argv env online =
    let child = child_env (parse_args argv) env in
    let without_url = lacks "WOP_BASE_URL" child in
    let without_key = lacks "WOP_API_KEY" child in
    if_cases IsRunnable (parse_args argv).help _ _ (λ help. tt)
      (λ no_help.
        if_cases IsRunnable (not (parse_args argv).offline && (without_url || without_key)) _ _
          (λ refused. tt)
          (λ enough. neither (parse_args argv).offline without_url without_key online enough))
