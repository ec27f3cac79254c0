-- ===== src/Tests/Network.antt =====
-- An instance of the HTTP types: header maps as lists of names with texts, and a URI as its parts.
use argon.Prelude.{
  ◌≡◌, refl, Option, none, some, List, [], ◌∷◌, ◌++◌, arith, if◌then◌else◌, unwrap_or, ◌==◌, eq_iff,
  nat_eq, list_eq,
}
use argon.Text.{Text, codes, is_empty, to_ascii_lowercase}
use argon.Rewrites.{HeaderName}
use argon.Http.{Http, Parts}

abbrev Headers : Type 0
Headers = List (HeaderName × Text)

abbrev values : Headers → HeaderName → List Text
values [] k = []
values ((n, v) ∷ m) k = if n == k then v ∷ values m k else values m k

abbrev without : Headers → HeaderName → Headers
without [] k = []
without ((n, v) ∷ m) k = if n == k then without m k else (n, v) ∷ without m k

values-without :
    (m : Headers) (n k : HeaderName) → values (without m n) k ≡ (if n == k then [] else values m k)
values-without [] n k = ground arith
values-without ((i, v) ∷ m) n k =
    ground (arith, values-without m n k, eq_iff i n, eq_iff i k, eq_iff n k)

pub values-insert :
    (m : Headers) (n k : HeaderName) (v : Text)
    → values ((n, v) ∷ without m n) k ≡ (if n == k then v ∷ [] else values m k)
values-insert m n k v = ground (arith, values-without m n k)

pub values-append :
    (m : Headers) (n k : HeaderName) (v : Text)
    → values (m ++ (n, v) ∷ []) k ≡ (if n == k then values m k ++ v ∷ [] else values m k)
values-append [] n k v = ground arith
values-append ((i, w) ∷ m) n k v = ground (arith, values-append m n k v)

pub values-remove :
    (m : Headers) (n k : HeaderName) → values (without m n) k ≡ (if n == k then [] else values m k)
values-remove m n k = values-without m n k

abbrev parse_name : Text → Option HeaderName
parse_name s = if is_empty s then none else some (to_ascii_lowercase s)

abbrev parse_address : Text → Option (Parts Text Text)
parse_address s =
    if is_empty s
    then none
    else some (record {
      scheme = some (codes "http");
      authority = some s;
      path_and_query = some (codes "/");
    })

abbrev pub http : Http
http = record {
  HeaderMap = Headers;
  HeaderValue = Text;
  get_all = values;
  empty_map = [];
  insert = λ m n v. (n, v) ∷ without m n;
  append = λ m n v. m ++ (n, v) ∷ [];
  remove = without;
  header_name = parse_name;
  value_from_str = some;
  value_from_static = λ s. s;
  to_str = some;
  get_all-empty_map = λ k. refl;
  get_all-insert = values-insert;
  get_all-append = values-append;
  get_all-remove = values-remove;
  Uri = Parts Text Text;
  Authority = Text;
  PathAndQuery = Text;
  parse_uri = parse_address;
  uri_path = λ u. unwrap_or u.path_and_query [];
  uri_host = λ u. u.authority;
  uri_path_and_query = λ u. u.path_and_query;
  into_parts = λ u. u;
  from_parts = some;
  parse_authority = some;
  authority_host = λ a. a;
  path_from_static = λ s. s;
  Body = Text;
  Plain = Text;
  empty_new = [];
  full_new = λ s. s;
  boxed = λ s. s;
  is_end_stream = is_empty;
  debug_uri = λ u. unwrap_or u.authority [];
  debug_str = λ s. s;
  display_status = λ n. n ∷ [];
}
