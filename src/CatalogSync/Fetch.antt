-- ===== src/CatalogSync/Fetch.antt =====
-- sync.py: fetch_models, _fetch_page, _response_payload, _safe_source_url and _require_same_origin.
pub mod Pages
pub mod Loop
use k8s_stack_tooling.Prelude.{
  ℕ, zero, suc, ◌+◌, String, Bool, true, false, Option, none, some, List, [], ◌∷◌, ◌++◌, ◌==◌, leb,
  ltb, length, any, not, ◌&&◌, ◌||◌, if◌then◌else◌, str_eq, Result, ok, err, ◌>>=◌, is_some,
}
use k8s_stack_tooling.Value.{
  Value, null, bool, num, str, arr, tup, obj, Items, nil, cons, Fields, end, field, get_field,
  text_in,
}
use k8s_stack_tooling.CatalogSync.Objects.{
  SyncError, add_ids, add_page_records, changes_origin, cycle, duplicate_id, duplicate_key,
  duplicate_model, invalid_decimal, invalid_field, invalid_name, invalid_threshold, max_raw_records,
  missing_field, not_json, not_object, not_readable, object_of, page_fields, present, redirected,
  required_string, text_of, too_large, too_many_models, too_many_pages, too_many_records,
  total_changed, unknown_field, unknown_model, unordered_tiers, unreachable, unsafe_url,
  wrong_total,
}

abbrev pub max_pages : ℕ
max_pages = 20

abbrev max_response_bytes : ℕ
max_response_bytes = 10000000

-- What urlsplit reads of a URL.
pub record SplitUrl : Type 0 where
  pub scheme : String
  pub hostname : Option String
  pub username : Option String
  pub password : Option String
  pub port : Option ℕ

abbrev pub Origin : Type 0
Origin = String × String × ℕ

-- A response: its status, whether `raise_for_status` is silent, and its chunks; `none` is a chunk
-- that raises.
pub record Response : Type 0 where
  pub status_code : ℕ
  pub status_ok : Bool
  pub chunks : List (Option (List ℕ))

-- The network and what the source takes from the libraries: a request, where `none` raises; urlsplit,
-- where `none` is a ValueError; urljoin; `lower`; `rstrip(".").lower()`; json.loads.
pub record Network : Type 0 where
  pub get : String → Option Response
  pub urlsplit : String → Option SplitUrl
  pub urljoin : String → String → String
  pub lower : String → String
  pub canonical_host : String → String
  pub loads : List ℕ → Option Value

-- The loop over the chunks in _response_payload.
unfoldable pub read_body : List (Option (List ℕ)) → List ℕ → Result SyncError (List ℕ)
read_body [] body = ok body
read_body (none ∷ chunks) body = err unreachable
read_body (some chunk ∷ chunks) body =
    let rest = read_body chunks (body ++ chunk) in
    if ltb max_response_bytes (length (body ++ chunk)) then err too_large else rest

abbrev port_or : Option ℕ → ℕ
port_or none = 443
port_or (some zero) = 443
port_or (some (suc n)) = suc n

abbrev pub is_home : Origin → Bool
is_home (scheme, host, port) = str_eq scheme "https" && str_eq host "openrouter.ai" && port == 443

abbrev same_origin : Origin → Origin → Bool
same_origin (s, h, p) (s', h', p') = str_eq s s' && str_eq h h' && p == p'

abbrev pub compared : Origin → Result SyncError Origin → Result SyncError (Unit {0})
compared origin (err e) = err changes_origin
compared origin (ok candidate) = if same_origin candidate origin then ok tt else err changes_origin

-- The locals of fetch_models at the test of its loop. `visited` has the last URL first.
pub record Fetching : Type 0 where
  pub url : String
  pub visited : List String
  pub models : List Value
  pub ids : List String
  pub expected : Option ℕ

abbrev pub expected_of : Option ℕ → ℕ → Result SyncError ℕ
expected_of none total = ok total
expected_of (some n) total = if total == n then ok n else err total_changed

-- How a round ends: with all models, or with the locals of the next round.
pub data Round : Type 0 where
  all_fetched : List Value → Round
  next_page : Fetching → Round

-- The URLs that were requested, the last first, and how the function ended.
pub record Fetched : Type 0 where
  pub requested : List String
  pub result : Result SyncError (List Value)

abbrev pub fetched : List String → Result SyncError (List Value) → Option Fetched
fetched urls r = some (record { requested = urls; result = r })

abbrev pub after_round :
    List String → Result SyncError Round → (Fetching → Option Fetched) → Option Fetched
after_round urls (err e) rest = fetched urls (err e)
after_round urls (ok (all_fetched models)) rest = fetched urls (ok models)
after_round urls (ok (next_page s)) rest = rest s

module _ (net : Network) where
  abbrev parsed : List ℕ → Result SyncError Value
  parsed body = elim (net.loads body) [ none ↦ err not_json | some v ↦ ok v ]

  -- _response_payload
  unfoldable pub response_payload : Response → Result SyncError Value
  response_payload r =
      if leb 300 r.status_code && ltb r.status_code 400
      then err redirected
      else if not r.status_ok
      then err unreachable
      else read_body r.chunks [] >>= parsed

  abbrev received : Option Response → Result SyncError Value
  received none = err unreachable
  received (some r) = response_payload r

  -- _fetch_page
  unfoldable pub fetch_page : String → Result SyncError Fields
  fetch_page url = received (net.get url) >>= object_of

  abbrev origin_of : SplitUrl → Option String → Result SyncError Origin
  origin_of u none = err unsafe_url
  origin_of u (some host) =
      if not (str_eq (net.lower u.scheme) "https") || str_eq host ""
      then err unsafe_url
      else if is_some u.username || is_some u.password
      then err unsafe_url
      else let origin : Origin = (net.lower u.scheme, net.canonical_host host, port_or u.port) in
        if is_home origin then ok origin else err unsafe_url

  abbrev split_origin : Option SplitUrl → Result SyncError Origin
  split_origin none = err unsafe_url
  split_origin (some u) = origin_of u u.hostname

  -- _safe_source_url
  unfoldable pub safe_source_url : String → Result SyncError Origin
  safe_source_url url = split_origin (net.urlsplit url)

  -- _require_same_origin
  unfoldable pub require_same_origin : String → Origin → Result SyncError (Unit {0})
  require_same_origin url origin = compared origin (safe_source_url url)

  abbrev pub finish_round :
      Origin → Fetching → ℕ → List Value × List String → Option String → Result SyncError Round
  finish_round origin s expected (models, ids) none =
      if length ids == expected then ok (all_fetched models) else err wrong_total
  finish_round origin s expected (models, ids) (some following) =
      require_same_origin (net.urljoin s.url following) origin >>= λ _. ok (
        next_page (record {
          url = net.urljoin s.url following;
          visited = s.visited;
          models = models;
          ids = ids;
          expected = some expected;
        }))

  -- The body of the loop from the request on; the URL is already among `visited`.
  unfoldable pub fetch_round : Origin → Fetching → Result SyncError Round
  fetch_round origin s = fetch_page s.url >>= λ page.
      page_fields page >>= λ (records, total, following).
      expected_of s.expected total >>= λ expected.
      add_page_records records s.models s.ids expected >>= λ added.
      finish_round origin s expected added following

  -- The `while` loop; `none` means that the fuel ran out.
  unfoldable pub fetch_loop : ℕ → Origin → Fetching → Option Fetched
  fetch_loop zero origin s = none
  fetch_loop (suc fuel) origin s =
      let visiting : Fetching = record s { visited = s.url ∷ s.visited } in
      let after =
        after_round visiting.visited (fetch_round origin visiting) (fetch_loop fuel origin) in
      if leb max_pages (length s.visited)
      then fetched s.visited (err too_many_pages)
      else if text_in s.url s.visited
      then fetched s.visited (err cycle)
      else after

  abbrev pub fetch_from : String → Result SyncError Origin → Option Fetched
  fetch_from url (err e) = fetched [] (err e)
  fetch_from url (ok origin) =
      fetch_loop (suc max_pages) origin
        (record { url = url; visited = []; models = []; ids = []; expected = none })

  -- fetch_models; the test of the pages ends it by its round 21.
  unfoldable pub fetch_models : String → Option Fetched
  fetch_models url = fetch_from url (safe_source_url url)
