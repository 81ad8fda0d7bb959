-- ===== src/CatalogSync/Fetch/Loop.antt =====
-- fetch_models ends, and what it returns.
use k8s_stack_tooling.Prelude.{
  ℕ, zero, suc, ◌+◌, ◌≤◌, ◌<◌, String, true, Option, none, some, List, [], ◌∷◌, ◌==◌, ◌≡◌, refl,
  sym, ap, subst, arith, leb, length, All, Result, ok, err, >>=-eq_ok, Bool-cases, inl, inr,
}
use k8s_stack_tooling.Value.{Value, text_in}
use k8s_stack_tooling.CatalogSync.Objects.{SyncError, page_fields, add_page_records}
use k8s_stack_tooling.CatalogSync.Fetch.{
  max_pages, Network, Origin, SplitUrl, fetch_page, safe_source_url, split_origin, origin_of,
  compared, require_same_origin, is_home, Fetching, expected_of, Round, all_fetched, next_page,
  finish_round, fetch_round, Fetched, fetched, after_round, fetch_loop, fetch_from, fetch_models,
}
use k8s_stack_tooling.CatalogSync.Fetch.Pages.{AreDistinct, AreRecords, add_page_records-AreRecords}

module _ (net : Network) where
  -- The URL is a safe one, of the origin https://openrouter.ai with port 443.
  abbrev IsHome : String → Type 0
  IsHome url = (o : Origin) × (safe_source_url net url ≡ ok o) × (is_home o ≡ true)

  safe_source_url_lem :
      (u : Option SplitUrl) (o : Origin) → split_origin net u ≡ ok o → is_home o ≡ true
  safe_source_url_lem none o h = cc
  safe_source_url_lem (some u) o h = of_host u.hostname h
    where
      of_host : (host : Option String) → origin_of net u host ≡ ok o → is_home o ≡ true
      of_host none e = cc
      of_host (some name) e = ground arith

  compared_ok :
      (url : String) (origin : Origin) (r : Result SyncError Origin)
      → safe_source_url net url ≡ r
      → compared origin r ≡ ok tt
      → (o : Origin) × (safe_source_url net url ≡ ok o)
  compared_ok url origin (err e) s h = cc
  compared_ok url origin (ok o) s h = (o, s)

  safe-IsHome : (url : String) (o : Origin) → safe_source_url net url ≡ ok o → IsHome url
  unfolding safe_source_url
  safe-IsHome url o h = (o, h, safe_source_url_lem (net.urlsplit url) o h)

  require_same_origin-IsHome :
      (url : String) (origin : Origin) → require_same_origin net url origin ≡ ok tt → IsHome url
  unfolding require_same_origin
  require_same_origin-IsHome url origin h =
      let (o, e) = compared_ok url origin (safe_source_url net url) refl h in safe-IsHome url o e

  -- What a round that went through has added.
  abbrev RoundIsSound : Fetching → Round → Type 0
  RoundIsSound s (all_fetched models) = (ids : List String) × AreRecords models ids
  RoundIsSound s (next_page s') =
      AreRecords s'.models s'.ids × IsHome s'.url × (s'.visited ≡ s.visited)

  finish_round-IsSound :
      (origin : Origin) (s : Fetching) (expected : ℕ) (models : List Value) (ids : List String)
      (following : Option String) (r : Round)
      → AreRecords models ids
      → finish_round net origin s expected (models, ids) following ≡ ok r
      → RoundIsSound s r
  finish_round-IsSound origin s expected models ids none r a h =
      elim (Bool-cases (length ids == expected)) [
        | inl whole ↦
            let e : all_fetched models ≡ r = cc (rw whole at h) in subst (RoundIsSound s) e (ids, a)
        | inr part ↦ cc (rw part at h)
      ]
  finish_round-IsSound origin s expected models ids (some following) r a h =
      let (u, same, h1) =
        >>=-eq_ok (require_same_origin net (net.urljoin s.url following) origin) _ h in
      let e : next_page (record {
        url = net.urljoin s.url following;
        visited = s.visited;
        models = models;
        ids = ids;
        expected = some expected;
      })
          ≡ r =
        cc in
      subst (RoundIsSound s) e
        (a, require_same_origin-IsHome (net.urljoin s.url following) origin same, refl)

  fetch_round-IsSound :
      (origin : Origin) (s : Fetching) (r : Round)
      → AreRecords s.models s.ids
      → fetch_round net origin s ≡ ok r
      → RoundIsSound s r
  unfolding fetch_round
  fetch_round-IsSound origin s r a h =
      let (page, _, h1) = >>=-eq_ok (fetch_page net s.url) _ h in
      let (parts, _, h2) = >>=-eq_ok (page_fields page) _ h1 in
      let (expected, _, h3) = >>=-eq_ok (expected_of s.expected parts.1) _ h2 in
      let (added, adds, h4) = >>=-eq_ok (add_page_records parts.0 s.models s.ids expected) _ h3 in
      finish_round-IsSound origin s expected added.0 added.1 parts.2 r
        (add_page_records-AreRecords parts.0 s.models s.ids expected added.0 added.1 a adds).0 h4

  -- Each URL that was requested is safe and was requested once, there are at most twenty, and what
  -- is returned are records with different ids.
  pub record IsFetched (f : Fetched) : Type 0 where
    pub home : All IsHome f.requested
    pub once : AreDistinct f.requested
    pub few : length f.requested ≤ max_pages
    pub records :
        (models : List Value) → f.result ≡ ok models → (ids : List String) × AreRecords models ids

  abbrev IsDone : Option Fetched → Type 0
  IsDone o = (f : Fetched) × (o ≡ some f) × IsFetched f

  stopped :
      (urls : List String) (e : SyncError)
      → All IsHome urls
      → AreDistinct urls
      → length urls ≤ max_pages
      → IsDone (fetched urls (err e))
  stopped urls e home once few = (
    record { requested = urls; result = err e },
    refl,
    record { home = home; once = once; few = few; records = λ m h. cc },
  )

  after_round-IsDone :
      (s : Fetching) (r : Result SyncError Round) (rest : Fetching → Option Fetched)
      → All IsHome s.visited
      → AreDistinct s.visited
      → length s.visited ≤ max_pages
      → ((x : Round) → r ≡ ok x → RoundIsSound s x)
      → ((s' : Fetching) → RoundIsSound s (next_page s') → IsDone (rest s'))
      → IsDone (after_round s.visited r rest)
  after_round-IsDone s (err e) rest home once few sound later = stopped s.visited e home once few
  after_round-IsDone s (ok (all_fetched models)) rest home once few sound later =
      let (ids, a) = sound (all_fetched models) refl in
      (
        record { requested = s.visited; result = ok models },
        refl,
        record {
          home = home;
          once = once;
          few = few;
          records = λ m h. (ids, subst (λ (l : List Value). AreRecords l ids) (cc) a);
        },
      )
  after_round-IsDone s (ok (next_page s')) rest home once few sound later =
      later s' (sound (next_page s') refl)

  fetch_loop-IsDone :
      (fuel : ℕ) (origin : Origin) (s : Fetching)
      → max_pages < fuel + length s.visited
      → length s.visited ≤ max_pages
      → AreRecords s.models s.ids
      → IsHome s.url
      → All IsHome s.visited
      → AreDistinct s.visited
      → IsDone (fetch_loop net fuel origin s)
  unfolding fetch_loop
  fetch_loop-IsDone zero origin s enough few a here home once = absurd (omega arith)
  fetch_loop-IsDone (suc fuel) origin s enough few a here home once =
      elim (Bool-cases (leb max_pages (length s.visited))) [
        | inl full ↦ rw full (stopped s.visited _ home once few)
        | inr room ↦ elim (Bool-cases (text_in s.url s.visited)) [
          | inl seen ↦ rw (room, seen) (stopped s.visited _ home once few)
          | inr new ↦
              let visiting : Fetching = record s { visited = s.url ∷ s.visited } in
              rw (room, new)
                (after_round-IsDone visiting (fetch_round net origin visiting)
                  (fetch_loop net fuel origin) (here, home) (new, once) (ground arith)
                  (λ x h. fetch_round-IsSound origin visiting x a h)
                  (λ s' sound.
                    let longer : length s'.visited ≡ suc (length s.visited) = ap length sound.2 in
                    fetch_loop-IsDone fuel origin s' (omega (arith, longer))
                      (ground (arith, longer)) sound.0 sound.1
                      (subst (All IsHome) (sym sound.2) (here, home))
                      (subst AreDistinct (sym sound.2) (new, once))))
        ]
      ]

  fetch_from-IsDone :
      (url : String) (r : Result SyncError Origin)
      → safe_source_url net url ≡ r
      → IsDone (fetch_from net url r)
  fetch_from-IsDone url (err e) h = stopped [] e tt tt (omega arith)
  fetch_from-IsDone url (ok origin) h =
      fetch_loop-IsDone (suc max_pages) origin _ (omega arith) (omega arith)
        (record { in_order = []; are = tt; backwards = refl; distinct = tt; bounded = omega arith })
        (safe-IsHome url origin h) tt tt

  -- fetch_models ends, whatever the network answers. It has requested at most twenty URLs, each once
  -- and each at https://openrouter.ai with port 443. What it returns are at most 5,000 objects, each
  -- with an id that is not empty, and these are all different.
  pub fetch_models-IsFetched :
      (url : String) → (f : Fetched) × (fetch_models net url ≡ some f) × IsFetched f
  unfolding fetch_models
  fetch_models-IsFetched url = fetch_from-IsDone url (safe_source_url net url) refl
