-- ===== src/Http.antt =====
-- What the data plane uses of the crates http, hyper and hyper-util, as an interface. `Http` has the
-- types and operations, with the documented behaviour of `HeaderMap`; the records below it are the
-- requests and responses that the code passes around.
use argon.Prelude.{
  ℕ, ◌≡◌, refl, ◌⊎◌, inl, inr, Bool, Option, none, some, List, [], ◌∷◌, ◌++◌, if◌then◌else◌,
  is_some, ◌==◌, list_eq,
}
use argon.Text.{Text}
use argon.Rewrites.{HeaderName}

pub data Version : Type 0 where
  http_09 http_10 http_11 http_2 http_3 : Version

-- `uri::Parts`
pub record Parts (Authority PathAndQuery : Type 0) : Type 0 where
  pub scheme : Option Text
  pub authority : Option Authority
  pub path_and_query : Option PathAndQuery

pub record Http : Type 1 where
  -- header::HeaderMap and header::HeaderValue
  pub HeaderMap : Type 0
  pub HeaderValue : Type 0
  pub get_all : HeaderMap → HeaderName → List HeaderValue
  pub empty_map : HeaderMap
  pub insert : HeaderMap → HeaderName → HeaderValue → HeaderMap
  pub append : HeaderMap → HeaderName → HeaderValue → HeaderMap
  pub remove : HeaderMap → HeaderName → HeaderMap
  pub header_name : Text → Option HeaderName
  pub value_from_str : Text → Option HeaderValue
  pub value_from_static : Text → HeaderValue
  pub to_str : HeaderValue → Option Text
  pub get_all-empty_map : (k : HeaderName) → get_all empty_map k ≡ []
  pub get_all-insert :
      (m : HeaderMap) (n k : HeaderName) (v : HeaderValue)
      → get_all (insert m n v) k ≡ (if n == k then v ∷ [] else get_all m k)
  pub get_all-append :
      (m : HeaderMap) (n k : HeaderName) (v : HeaderValue)
      → get_all (append m n v) k ≡ (if n == k then get_all m k ++ v ∷ [] else get_all m k)
  pub get_all-remove :
      (m : HeaderMap) (n k : HeaderName)
      → get_all (remove m n) k ≡ (if n == k then [] else get_all m k)
  -- uri::Uri, uri::Authority and uri::PathAndQuery
  pub Uri : Type 0
  pub Authority : Type 0
  pub PathAndQuery : Type 0
  pub parse_uri : Text → Option Uri
  pub uri_path : Uri → Text
  pub uri_host : Uri → Option Text
  pub uri_path_and_query : Uri → Option Text
  pub into_parts : Uri → Parts Authority PathAndQuery
  pub from_parts : Parts Authority PathAndQuery → Option Uri
  pub parse_authority : Text → Option Authority
  pub authority_host : Authority → Text
  pub path_from_static : Text → PathAndQuery
  -- `BoxBody`, the bodies `Empty` and `Full`, which cannot fail, with the box around them (`map_err`
  -- and `boxed`), and whether a body is known to be at its end.
  pub Body : Type 0
  pub Plain : Type 0
  pub empty_new : Plain
  pub full_new : Text → Plain
  pub boxed : Plain → Body
  pub is_end_stream : Body → Bool
  -- The forms that error messages quote: `{:?}` of an address and of a text, `{}` of a status.
  pub debug_uri : Uri → Text
  pub debug_str : Text → Text
  pub display_status : ℕ → Text

module _ (http : Http) where
  -- The extension is the `FrontendTls` that the listener put there.
  pub record Request : Type 0 where
    pub method : Text
    pub uri : http.Uri
    pub version : Version
    pub headers : http.HeaderMap
    pub body : http.Body
    pub frontend_tls : Option Bool

  pub record Response : Type 0 where
    pub status : ℕ
    pub headers : http.HeaderMap
    pub body : http.Body

  -- `HeaderMap::get`: the first value.
  abbrev pub first_value : List http.HeaderValue → Option http.HeaderValue
  first_value [] = none
  first_value (v ∷ vs) = some v

  unfoldable pub get : http.HeaderMap → HeaderName → Option http.HeaderValue
  get m k = first_value (http.get_all m k)

  unfoldable pub contains_key : http.HeaderMap → HeaderName → Bool
  unfolding get
  contains_key m k = is_some (get m k)

  -- `if let Ok(v) = HeaderValue::from_str(s) { headers.insert(name, v) }`
  unfoldable pub insert_text : http.HeaderMap → HeaderName → Text → http.HeaderMap
  insert_text m k s = elim (http.value_from_str s) [ none ↦ m | some v ↦ http.insert m k v ]

-- The outcome of a client's call under a timeout.
pub data Attempt (A : Type 0) : Type 0 where
  answered : A → Attempt A
  failed : Text → Attempt A
  elapsed : Text → Attempt A

pub data Result (A E : Type 0) : Type 0 where
  ok : A → Result A E
  err : E → Result A E

pub Result-cases :
    {A E : Type 0} (r : Result A E) → ((a : A) × (r ≡ ok a)) ⊎ ((e : E) × (r ≡ err e))
Result-cases (ok a) = inl (a, refl)
Result-cases (err e) = inr (e, refl)

infixl 5 ◌>>=◌
abbrev pub ◌>>=◌ : {A B E : Type 0} → Result A E → (A → Result B E) → Result B E
ok a >>= f = f a
err e >>= f = err e
