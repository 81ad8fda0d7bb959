-- ===== src/CatalogSync/Samples.antt =====
-- sync.py: a catalogue of one page with one model, for the runs.
use k8s_stack_tooling.Prelude.{true, none, some, []}
use k8s_stack_tooling.Value.{Value, null, num, str, arr, obj, nil, cons, Fields, end, field}
use k8s_stack_tooling.CatalogSync.Fetch.{Network}

abbrev pub model : Fields
model = field "id" (str "a/b") end

abbrev pub page : Value
page = obj (
    field "data" (arr (cons (obj model) nil))
      (field "total_count" (num 1) (field "links" (obj (field "next" null end)) end)))

abbrev pub network : Network
network = record {
  get = λ url. some (record { status_code = 200; status_ok = true; chunks = [] });
  urlsplit = λ url. some (record {
    scheme = "https";
    hostname = some "openrouter.ai";
    username = none;
    password = none;
    port = none;
  });
  urljoin = λ url next. next;
  lower = λ s. s;
  canonical_host = λ s. s;
  loads = λ body. some page;
}
