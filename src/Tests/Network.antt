-- ===== src/Tests/Network.antt =====
-- A network of simple functions between the SDK client and the in-memory host.
use Prim.Native.Char.{code}
use Prim.Native.String
use Prim.Native.String.{String}
use text.Mathlib.TextLemmas.{nil-append, cons-append, append-nil}
use wop.Prelude.{
  ℕ, ◌≡◌, Bool-cases, inl, inr, refl, true, false, ◌||◌, none, some, List, [], ◌∷◌, lookup, eqb,
  all, if◌then◌else◌, maybe, arith, strip, strip-append,
}
use wop.Sse.Parser.{codes}
use wop.Platform.{Platform}
use wop.Http.{Response}
use wop.Memory.Host.{Reply, respond, stream, throw}
use wop.Memory.Access.{run_path}
use wop.Client.{Web}
use wop.Client.Outcome.{Incoming, Fetched, response, network_error}
use wop.Client.Host.{is_plain_char, IsPlainId, IsSuffix, Transport, Faithful}

-- The part of a URL in front of its question mark.
abbrev before_query : String → String
before_query String.[] = ""
before_query (String.◌∷◌ c s) =
    let rest = before_query s in if eqb (code c) b'?' then "" else String.◌∷◌ c rest

abbrev IsPath : String → Type 0
IsPath s = all (λ (n : ℕ). is_plain_char n || eqb n b'/') (codes s) ≡ true

before_query-append :
    (s rest : String)
    → IsPath s
    → before_query (String.◌++◌ s rest) ≡ String.◌++◌ s (before_query rest)
before_query-append String.[] rest h = rw (nil-append, nil-append) refl
before_query-append (String.◌∷◌ c s) rest h =
    let here : eqb (code c) b'?' ≡ false = ground (arith, h) in
    let later : IsPath s = ground (arith, h) in
    rw (cons-append, cons-append, here, before_query-append s rest later) refl

all_weaker :
    (ns : List ℕ)
    → all is_plain_char ns ≡ true
    → all (λ (n : ℕ). is_plain_char n || eqb n b'/') ns ≡ true
all_weaker [] h = refl
all_weaker (n ∷ ns) h =
    let later : all is_plain_char ns ≡ true = ground (arith, h) in
    let here : is_plain_char n ≡ true = elim (Bool-cases (is_plain_char n)) [
      | inl good ↦ good
      | inr bad ↦ absurd (ground (arith, h, bad))
    ] in
    rw (here, all_weaker ns later) refl

before_query-run_path :
    (id suffix rest : String)
    → IsPlainId id
    → IsSuffix suffix
    → before_query rest ≡ ""
    → before_query (run_path id (String.◌++◌ suffix rest)) ≡ run_path id suffix
before_query-run_path id suffix rest (nonempty, plain) clean blank =
    rw
      (
        before_query-append "/v1/runs/" (String.◌++◌ id (String.◌++◌ suffix rest)) refl,
        before_query-append id (String.◌++◌ suffix rest) (all_weaker (codes id) plain),
        before_query-append suffix rest clean,
        blank,
        append-nil suffix,
      )
      refl

-- The entries of a query, each behind its name.
abbrev query_of : List (String × String) → String
query_of [] = ""
query_of ((k, v) ∷ []) = String.◌++◌ k (String.◌++◌ "=" v)
query_of ((k, v) ∷ e ∷ es) =
    String.◌++◌ k (String.◌++◌ "=" (String.◌++◌ v (String.◌++◌ "&" (query_of (e ∷ es)))))

abbrev pub web : Web
web = record {
  encode_uri_component = λ s. s;
  query_text = query_of;
  number_text = λ n. "1";
  text_of = λ v. "{}";
}

abbrev incoming_of : Response → Incoming
incoming_of r = record { status = r.status; header = λ n. lookup n r.headers; text = r.payload }

abbrev arrive_of : Reply → Fetched
arrive_of (respond r) = response (incoming_of r)
arrive_of (stream hs) = network_error "stream"
arrive_of (throw m) = network_error m

abbrev pub base : String
base = "http://h"

abbrev pub transport : Transport
transport = record {
  deliver = λ o. record {
    method = some o.method;
    path = maybe (strip base o.url) "" before_query;
    since = none;
    authorization = lookup "Authorization" o.headers;
    idempotency_key = lookup "Idempotency-Key" o.headers;
    last_event_id = lookup "Last-Event-ID" o.headers;
    body = maybe o.body "" (λ s. s);
  };
  incoming = incoming_of;
  arrive = arrive_of;
}

path_of :
    (url id suffix rest : String)
    → IsPlainId id
    → IsSuffix suffix
    → before_query rest ≡ ""
    → url ≡ String.◌++◌ base (run_path id (String.◌++◌ suffix rest))
    → maybe (strip base url) "" before_query ≡ run_path id suffix
path_of url id suffix rest plain clean blank e =
    rw (e, strip-append base (run_path id (String.◌++◌ suffix rest)))
      (before_query-run_path id suffix rest plain clean blank)

before_query-question : (q : String) → before_query (String.◌++◌ "?" q) ≡ ""
before_query-question q = rw cons-append refl

pub transport-Faithful : (p : Platform) → Faithful web p transport base
transport-Faithful p = record {
  encodes = λ id plain. refl;
  method = λ o. refl;
  body = λ o s e. rw e refl;
  authorization = λ o v e ok. e;
  idempotency_key = λ o v e ok. e;
  last_event_id = λ o v e ok. e;
  create_path = λ o e. rw (e, strip-append base "/v1/runs") refl;
  path = λ o id suffix plain clean e.
      (path_of o.url id suffix "" plain clean refl (rw (append-nil suffix) e), refl);
  query = λ o id suffix ps plain clean absent e. (
    path_of o.url id suffix (String.◌++◌ "?" (query_of ps)) plain clean
        (before_query-question (query_of ps)) e,
    refl,
  );
  arrives = λ r. refl;
  status = λ r. refl;
  text = λ r. refl;
}
