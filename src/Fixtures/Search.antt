-- ===== src/Fixtures/Search.antt =====
-- What `loadFixtures` of both hosts makes of the directories above the program.
use wop.Prelude.{
  ℕ, zero, suc, ◌<◌, String, ◌≡◌, ◌≢◌, refl, Bool, true, false, Option, none, some, List, [], ◌∷◌,
  lookup, lookup-insert, insert, maybe, ◌==◌, if◌then◌else◌, arith,
}
use wop.Workflow.{FixtureWorkflow}
use wop.Fixtures.{
  Files, Entry, other, workflow, unreadable, Workflows, synthetic_noop, candidate, entry, store,
  load_files, search_up, load_fixtures,
}

-- The last workflow of these with an id, or else the one that was there.
abbrev pub last_named : String → List Entry → Option FixtureWorkflow → Option FixtureWorkflow
last_named id [] before = before
last_named id (other ∷ es) before = last_named id es before
last_named id (unreadable ∷ es) before = last_named id es before
last_named id (workflow w ∷ es) before = last_named id es (if w.id == id then some w else before)

module _ (fs : Files) where
  abbrev pub entries : String → List String → List Entry
  entries directory [] = []
  entries directory (file ∷ files) = entry fs directory file ∷ entries directory files

  abbrev pub ancestor : ℕ → String → String
  ancestor zero probe = probe
  ancestor (suc n) probe = ancestor n (fs.dirname probe)

  -- None of the entries throws when it is read.
  abbrev pub AllReadable : List Entry → Type 0
  AllReadable [] = Unit
  AllReadable (e ∷ es) = (e ≢ unreadable) × AllReadable es

  -- None of this many directories upwards has fixtures.
  abbrev pub NoneAbove : ℕ → String → Type 0
  NoneAbove zero probe = Unit
  NoneAbove (suc n) probe =
      (fs.readdir (candidate fs probe) ≡ none) × NoneAbove n (fs.dirname probe)

  -- The loop came to its end, with the last of the workflows of an id under it.
  abbrev pub Loaded : String → Workflows × Bool → List Entry → Option FixtureWorkflow → Type 0
  Loaded id (ws, whole) es before = (whole ≡ true) × (lookup id ws ≡ last_named id es before)

  Loaded-entry :
      (id : String) (k : Workflows → Workflows × Bool) (es : List Entry) (ws : Workflows)
      (e : Entry)
      → e ≢ unreadable
      → ((ws' : Workflows) → Loaded id (k ws') es (lookup id ws'))
      → Loaded id (maybe (store e ws) (ws, false) k) (e ∷ es) (lookup id ws)
  unfolding store
  Loaded-entry id k es ws other h rest = rest ws
  Loaded-entry id k es ws unreadable h rest = elim (h refl) [ ]
  Loaded-entry id k es ws (workflow w) h rest =
      let (whole, found) = rest (insert w.id w ws) in
      (whole, rw (lookup-insert w.id id w ws) at found)

  Loaded-load_files :
      (id directory : String) (files : List String) (ws : Workflows)
      → AllReadable (entries directory files)
      → Loaded id (load_files fs directory files ws) (entries directory files) (lookup id ws)
  unfolding load_files
  Loaded-load_files id directory [] ws h = (refl, refl)
  Loaded-load_files id directory (file ∷ files) ws (h, hs) =
      Loaded-entry id (load_files fs directory files) (entries directory files) ws
        (entry fs directory file) h (λ ws'. Loaded-load_files id directory files ws' hs)

  search_up-found :
      (id here : String) (n k : ℕ) (files : List String) (ws : Workflows)
      → n < k
      → NoneAbove n here
      → fs.readdir (candidate fs (ancestor n here)) ≡ some files
      → AllReadable (entries (candidate fs (ancestor n here)) files)
      → lookup id (search_up fs k here ws)
        ≡ last_named id (entries (candidate fs (ancestor n here)) files) (lookup id ws)
  unfolding search_up
  search_up-found id here n zero files ws near gone found readable = ground arith
  search_up-found id here zero (suc k) files ws near gone found readable =
      let at : fs.readdir (candidate fs here) ≡ some files = found in
      let (whole, last) = Loaded-load_files id (candidate fs here) files ws readable in
      rw (at, whole) last
  search_up-found id here (suc n) (suc k) files ws near (absent, gone) found readable =
      rw absent
        (search_up-found id (fs.dirname here) n k files ws (omega arith) gone found readable)

  search_up-none :
      (id here : String) (n : ℕ) (ws : Workflows)
      → NoneAbove n here
      → lookup id (search_up fs n here ws)
        ≡ (if "conformance-noop" == id then some synthetic_noop else lookup id ws)
  unfolding search_up
  search_up-none id here zero ws gone = lookup-insert "conformance-noop" id synthetic_noop ws
  search_up-none id here (suc n) ws (absent, gone) =
      rw absent (search_up-none id (fs.dirname here) n ws gone)

  -- Where the first of the ten directories from the program's upwards that has fixtures holds workflows
  -- alone, `loadFixtures` registers under an id the last of them with it, and no other workflow.
  pub load_fixtures-found :
      (id here : String) (n : ℕ) (files : List String) (ws : Workflows)
      → n < 10
      → NoneAbove n here
      → fs.readdir (candidate fs (ancestor n here)) ≡ some files
      → AllReadable (entries (candidate fs (ancestor n here)) files)
      → lookup id (load_fixtures fs here ws)
        ≡ last_named id (entries (candidate fs (ancestor n here)) files) (lookup id ws)
  unfolding load_fixtures
  load_fixtures-found id here n files ws near gone found readable =
      search_up-found id here n 10 files ws near gone found readable

  -- Where none of the ten has, it registers the synthetic workflow alone.
  pub load_fixtures-none :
      (id here : String) (ws : Workflows)
      → NoneAbove 10 here
      → lookup id (load_fixtures fs here ws)
        ≡ (if "conformance-noop" == id then some synthetic_noop else lookup id ws)
  unfolding load_fixtures
  load_fixtures-none id here ws gone = search_up-none id here 10 ws gone
