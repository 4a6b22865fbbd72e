-- ===== src/Tests/Fixtures.antt =====
-- The search for fixtures two directories above the program, beside a file of another kind.
use Prim.Native.String
use wop.Prelude.{◌≡◌, refl, none, some, [], ◌∷◌, ◌==◌, if◌then◌else◌, lookup, arith}
use wop.Fixtures.{Files, load_fixtures, search_up, load_files, store}
use wop.Fixtures.Search.{load_fixtures-found}
use wop.Tests.{flow, workflows}

abbrev files : Files
files = record {
  readdir = λ d. if d == "/a/conformance/fixtures" then some ("x.txt" ∷ "wf.json" ∷ []) else none;
  read_file = λ f. if f == "/a/conformance/fixtures/wf.json" then some "wf" else none;
  join = λ d f. String.◌++◌ d (String.◌++◌ "/" f);
  dirname = λ d. if d == "/a/b/c" then "/a/b" else if d == "/a/b" then "/a" else "";
  parse = λ t. if t == "wf" then some flow else none;
}

finds : load_fixtures files "/a/b/c" [] ≡ workflows
unfolding load_fixtures search_up load_files store
finds = refl

load_fixtures-found_example : lookup "wf" (load_fixtures files "/a/b/c" []) ≡ some flow
load_fixtures-found_example =
    load_fixtures-found files "wf" "/a/b/c" 2 ("x.txt" ∷ "wf.json" ∷ []) [] (omega arith)
      (refl, (refl, tt)) refl (cc, (cc, tt))
