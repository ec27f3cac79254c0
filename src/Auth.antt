-- ===== src/Auth.antt =====
-- images/dataplane/src/snapshot.rs: the settings of the authorization subrequest (`AuthConfigDex`,
-- `build_auth_runtime`).
pub mod Lists
use argon.Prelude.{
  Bool, true, false, not, ◌||◌, Option, none, some, List, [], ◌∷◌, ◌++◌, if◌then◌else◌, any,
}
use argon.Text.{Text, is_empty, trim, eq_ignore_ascii_case}
use argon.Config.{AuthConfig}

pub record AuthConfigDex : Type 0 where
  pub url : Option Text
  pub signin : Option Text
  pub response_headers : List Text
  pub skip_paths : List Text
  pub cookie_name : Option Text

unfoldable pub is_blank : Text → Bool
is_blank s = is_empty (trim s)

-- `if s.trim().is_empty() { None } else { Some(s.clone()) }`
unfoldable pub non_blank : Text → Option Text
unfolding is_blank
non_blank s = if is_blank s then none else some s

-- One round of `normalize_list`: a blank or an item that is there already is passed over.
add_item : List Text → Text → List Text
add_item out s =
    let v = trim s in
    if is_empty v
    then out
    else if any (λ x. eq_ignore_ascii_case x v) out
    then out
    else out ++ v ∷ []

normalize_from : List Text → List Text → List Text
normalize_from out [] = out
normalize_from out (s ∷ items) = normalize_from (add_item out s) items

unfoldable pub normalize_list : List Text → List Text
unfolding normalize_from add_item
normalize_list items = normalize_from [] items

unfoldable pub from_pb : AuthConfig → AuthConfigDex
from_pb pb = record {
  url = non_blank pb.url;
  signin = non_blank pb.signin;
  response_headers = normalize_list pb.response_headers;
  skip_paths = normalize_list pb.skip_paths;
  cookie_name = non_blank pb.cookie_name;
}

abbrev pub is_nil {ℓ} : {A : Type ℓ} → List A → Bool
is_nil [] = true
is_nil (x ∷ xs) = false

unfoldable pub has_any : AuthConfig → Bool
has_any pb =
    not (is_blank pb.url)
    || not (is_blank pb.signin)
    || not (is_nil pb.response_headers)
    || not (is_nil pb.skip_paths)
    || not (is_blank pb.cookie_name)

unfoldable pub build_auth_runtime : Option AuthConfig → Option AuthConfigDex
unfolding has_any from_pb
build_auth_runtime none = none
build_auth_runtime (some pb) = if has_any pb then some (from_pb pb) else none
