-- ===== src/Memory/Idempotency.antt =====
-- Layer-1 idempotency of `handleCreateRun` of examples/hosts/in-memory/src/server.ts: what a second
-- request with the same key gets.
use wop.Prelude.{
  ℕ, ◌-◌, String, ◌≡◌, refl, sym, ap, subst, ◌∙◌, false, none, some, List, ltb, lookup, insert,
  lookup-filter-insert, ◌==◌, eq_iff, arith, if_cases,
}
use wop.Json.{Fields, obj, str, find_field}
use wop.Platform.{Platform}
use wop.Http.{Request, Response, check_auth}
use wop.Workflow.{FixtureWorkflow}
use wop.Memory.Host.{
  IdempotencyEntry, Host, Tick, Reply, respond, idempotency_ttl_ms, prune_idempotency_cache, pruned,
  create_key, created, replayed, hash_body, create_run, answer_from_cache, use_idempotency_key,
  inputs_of, handle_create_run,
}

module _ (p : Platform) where
  -- A request that passes every test in front of the cache.
  pub record Accepted (h : Host) (req : Request) (id : String) : Type 0 where
    pub fields : Fields
    pub flow : FixtureWorkflow
    pub authorized : check_auth p h.api_key req ≡ none
    pub parsed : p.json_parse req.body ≡ some (obj fields)
    pub named : find_field "workflowId" fields ≡ some (str id)
    pub known : lookup id h.workflows ≡ some flow

  -- The rest of the handler for such a request.
  handle-Accepted :
      (tick : Tick) (req : Request) (h : Host) (id : String) (a : Accepted h req id)
      → let r =
          use_idempotency_key p tick req.idempotency_key
            (hash_body p req.body)
            id
            (inputs_of p (obj a.fields))
            h in
        handle_create_run p tick req h ≡ (r.0, respond r.1)
  unfolding handle_create_run
  handle-Accepted tick req h id a = rw (a.authorized, a.parsed, a.named, a.known)

  -- The entry that the creation leaves is the one that a later request finds while it is kept.
  kept_entry :
      (now : ℕ) (key : String) (e : IdempotencyEntry) (cache : List (String × IdempotencyEntry))
      → ltb e.stored_at (now - idempotency_ttl_ms) ≡ false
      → lookup (create_key p key) (prune_idempotency_cache now (insert (create_key p key) e cache))
        ≡ some e
  unfolding prune_idempotency_cache
  kept_entry now key e cache young = lookup-filter-insert _ (create_key p key) e cache (rw young)

  answer-same :
      (e : IdempotencyEntry) (hash : String) (h : Host)
      → hash ≡ e.body_hash
      → answer_from_cache p e hash h ≡ (h, replayed p e)
  answer-same e hash h same =
      if_cases (λ (x : Host × Response). x ≡ (h, replayed p e)) (e.body_hash == hash) _ _
        (λ _. refl) (λ other. absurd (ground (arith, eq_iff e.body_hash hash)))

  abbrev created_entry : Tick → String → String → IdempotencyEntry
  created_entry tick hash text = record {
    status = 201;
    body = text;
    content_type = "application/json";
    body_hash = hash;
    stored_at = tick.stored_at;
  }

  module _ (h : Host) (tick : Tick) (req : Request) (id key : String) (a : Accepted h req id)
      (keyed : req.idempotency_key ≡ some key)
      (unused : lookup (create_key p key) (pruned tick.now h).idempotency_cache ≡ none) where
    abbrev pub first : Host × Response
    first =
        create_run p tick (some key) (hash_body p req.body) id (inputs_of p (obj a.fields))
          (pruned tick.now h)

    pub handle_first : handle_create_run p tick req h ≡ (first.0, respond first.1)
    unfolding use_idempotency_key
    handle_first = handle-Accepted tick req h id a ∙ rw (keyed, unused)

    -- A later request reaches the cache as the first did.
    Accepted_later :
        (req' : Request) (id' : String) → Accepted h req' id' → Accepted first.0 req' id'
    unfolding create_run
    Accepted_later req' id' b = record {
      fields = b.fields;
      flow = b.flow;
      authorized = b.authorized;
      parsed = b.parsed;
      named = b.named;
      known = b.known;
    }

    abbrev later_entry : IdempotencyEntry
    later_entry = created_entry tick (hash_body p req.body) first.1.payload

    module _ (later : Tick) (req' : Request) (id' : String) (b : Accepted h req' id')
        (keyed' : req'.idempotency_key ≡ some key)
        (young : ltb tick.stored_at (later.now - idempotency_ttl_ms) ≡ false) where
      handle_later :
          let r =
            answer_from_cache p
              (created_entry tick (hash_body p req.body) first.1.payload)
              (hash_body p req'.body)
              (pruned later.now first.0) in
          handle_create_run p later req' first.0 ≡ (r.0, respond r.1)
      unfolding use_idempotency_key create_run
      handle_later =
          handle-Accepted later req' first.0 id' (Accepted_later req' id' b)
          ∙ rw (
            keyed',
            kept_entry later.now key (created_entry tick (hash_body p req.body) first.1.payload)
                (prune_idempotency_cache tick.now h.idempotency_cache) young,
          )

      -- A first request with a key creates a run, and a later one with that key, while its entry is
      -- younger than the TTL, creates none: with a body of the same hash it gets the same text again,
      -- marked as a replay.
      pub retry_replays :
          p.sha256 req'.body ≡ p.sha256 req.body
          → let (h₁, r₁) = handle_create_run p tick req h in
            let (h₂, r₂) = handle_create_run p later req' h₁ in
            (text : String) × (r₁ ≡ respond (created p (some key) text))
            × (r₂ ≡ respond (replayed p (created_entry tick (p.sha256 req.body) text)))
            × (h₂.runs ≡ h₁.runs)
      unfolding create_run hash_body
      retry_replays same =
          subst
            (λ (x : Host × Reply).
              let (h₂, r₂) = handle_create_run p later req' x.0 in
              (text : String) × (x.1 ≡ respond (created p (some key) text))
              × (r₂ ≡ respond (replayed p (created_entry tick (p.sha256 req.body) text)))
              × (h₂.runs ≡ x.0.runs))
            (sym handle_first)
            (
              first.1.payload,
              refl,
              ap (λ (x : Host × Reply). x.1) handle_later
                  ∙ ap (λ (x : Host × Response). respond x.1) (answer-same later_entry _ _ same),
              ap (λ (x : Host × Reply). x.0.runs) handle_later
                  ∙ ap (λ (x : Host × Response). x.0.runs) (answer-same later_entry _ _ same),
            )
