-- ===== src/Client/Host.antt =====
-- The SDK client in front of the in-memory host: which handler of
-- examples/hosts/in-memory/src/server.ts a method of sdk/typescript/src/client.ts reaches. The network
-- and Node's HTTP server between them are a parameter, with what they are relied on for.
use Prim.Native.String
use Prim.Native.String.{String}
use wop.Prelude.{ℕ, ◌≡◌, ◌≢◌, Bool, true, none, some, List, all, leb, eqb, ◌&&◌, ◌||◌, lookup}
use wop.Platform.{Platform}
use wop.Http.{Request, Response}
use wop.Sse.Parser.{codes}
use wop.Memory.Host.{Host, Tick, Reply, respond}
use wop.Memory.Router.{route}
use wop.Memory.Access.{run_path}
use wop.Client.{Web, WopClient, Outgoing}
use wop.Client.Outcome.{Incoming, Fetched, response}

-- A letter, a digit, `_` or `-`: `encodeURIComponent` keeps it and it means nothing in a URL.
abbrev pub is_plain_char : ℕ → Bool
is_plain_char n =
    (leb b'a' n && leb n b'z' || leb b'A' n && leb n b'Z')
    || (leb b'0' n && leb n b'9' || (eqb n b'_' || eqb n b'-'))

abbrev pub IsPlainId : String → Type 0
IsPlainId id = (id ≢ "") × (all is_plain_char (codes id) ≡ true)

-- What follows the id in a path is made of these and slashes.
abbrev pub IsSuffix : String → Type 0
IsSuffix s = all (λ (n : ℕ). is_plain_char n || eqb n b'/') (codes s) ≡ true

-- A header value that arrives as it was sent: printable, without a blank at either end.
abbrev pub IsHeaderText : Platform → String → Type 0
IsHeaderText p v = (all (λ (n : ℕ). leb 32 n && leb n 126) (codes v) ≡ true) × (p.trim v ≡ v)

-- What Node's server makes of the request that `fetch` sends, and what `fetch` makes of the reply.
pub record Transport : Type 0 where
  pub deliver : Outgoing → Request
  pub incoming : Response → Incoming
  pub arrive : Reply → Fetched

-- What the two sides rely on, for a client of this base URL.
pub record Faithful (w : Web) (p : Platform) (t : Transport) (base : String) : Type 0 where
  pub encodes : (id : String) → IsPlainId id → w.encode_uri_component id ≡ id
  pub method : (o : Outgoing) → (t.deliver o).method ≡ some o.method
  pub body : (o : Outgoing) (s : String) → o.body ≡ some s → (t.deliver o).body ≡ s
  pub authorization :
      (o : Outgoing) (v : String)
      → lookup "Authorization" o.headers ≡ some v
      → IsHeaderText p v
      → (t.deliver o).authorization ≡ some v
  pub idempotency_key :
      (o : Outgoing) (v : String)
      → lookup "Idempotency-Key" o.headers ≡ some v
      → IsHeaderText p v
      → (t.deliver o).idempotency_key ≡ some v
  pub last_event_id :
      (o : Outgoing) (v : String)
      → lookup "Last-Event-ID" o.headers ≡ some v
      → IsHeaderText p v
      → (t.deliver o).last_event_id ≡ some v
  pub create_path :
      (o : Outgoing) → o.url ≡ String.◌++◌ base "/v1/runs" → (t.deliver o).path ≡ "/v1/runs"
  pub path :
      (o : Outgoing) (id suffix : String)
      → IsPlainId id
      → IsSuffix suffix
      → o.url ≡ String.◌++◌ base (run_path id suffix)
      → ((t.deliver o).path ≡ run_path id suffix) × ((t.deliver o).since ≡ none)
  pub query :
      (o : Outgoing) (id suffix : String) (ps : List (String × String))
      → IsPlainId id
      → IsSuffix suffix
      → lookup "since" ps ≡ none
      → o.url
        ≡ String.◌++◌ base (run_path id (String.◌++◌ suffix (String.◌++◌ "?" (w.query_text ps))))
      → ((t.deliver o).path ≡ run_path id suffix) × ((t.deliver o).since ≡ none)
  pub arrives : (r : Response) → t.arrive (respond r) ≡ response (t.incoming r)
  pub status : (r : Response) → (t.incoming r).status ≡ r.status
  pub text : (r : Response) → (t.incoming r).text ≡ r.payload

-- `fetch`, with the host behind it
unfoldable pub host_fetch : Platform → Transport → Tick → Outgoing → Host → Host × Fetched
host_fetch p t tick o h = let (h', reply) = route p tick (t.deliver o) h in (h', t.arrive reply)

-- A client of the host: it has the host's key, which is a text that a header can carry.
pub record Connected (w : Web) (p : Platform) (t : Transport) (c : WopClient) (h : Host)
    : Type 0 where
  pub faithful : Faithful w p t c.base_url
  pub same_key : c.api_key ≡ h.api_key
  pub trimmed : p.trim c.api_key ≡ c.api_key
  pub carried : IsHeaderText p (String.◌++◌ "Bearer " c.api_key)
