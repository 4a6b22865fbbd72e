-- ===== src/Tests/Suite.antt =====
-- Runs of the theorems on the conformance suite's own code.
use wop.Prelude.{
  ℕ, ◌+◌, ◌*◌, ◌≡◌, true, false, none, some, List, [], ◌∷◌, arith, eqb, if◌then◌else◌, ltb,
}
use wop.Json.{str, object}
use wop.Suite.Args.{ParsedArgs, parse_args}
use wop.Suite.Parsing.{print_args, parse_args-print_args}
use wop.Suite.Main.{Variables}
use wop.Suite.Options.{Given, api_key_name, base_url_name, implementation_name_name}
use wop.Suite.Polling.{Answer, broken, answered, is_ended, poll_until}
use wop.Suite.Waiting.{Explains, poll_until_ends}
use wop.Tests.{platform}

abbrev args : ParsedArgs
args = record {
  base_url = some "http://h/";
  api_key = some "-k=1";
  offline = false;
  filter = some "discovery|errors";
  help = false;
  impl = none;
  impl_version = some "";
}

parse_args-print_args_example : parse_args (print_args args) ≡ args
parse_args-print_args_example = parse_args-print_args args

abbrev env : Variables
env = ("WOP_API_KEY", "old") ∷ ("PATH", "/bin") ∷ []

-- The key by two arguments before the base URL, which is given twice.
abbrev options : List Given
options =
    record { name = api_key_name; value = "k=1"; is_apart = true }
    ∷ record { name = base_url_name; value = "http://old"; is_apart = true }
    ∷ record { name = implementation_name_name; value = "-x"; is_apart = false }
    ∷ record { name = base_url_name; value = "http://h/"; is_apart = false }
    ∷ []

-- The third attempt finds the run ended.
abbrev answers : ℕ → Answer
answers k =
    if eqb k 0
    then broken
    else answered (record {
      status = 200;
      text = "{}";
      json = some (object (("status", str (if ltb k 2 then "running" else "completed")) ∷ []));
    })

abbrev clock : ℕ → ℕ
clock k = 1000 + k * 300

poll_until_ends_example :
    Explains clock answers
      (is_ended platform)
      11000
      0
      (poll_until clock answers (is_ended platform) 1000 10000 41)
poll_until_ends_example =
    poll_until_ends clock answers (is_ended platform) 1000 10000 40 (λ i. omega arith) (omega arith)
      (omega arith)
