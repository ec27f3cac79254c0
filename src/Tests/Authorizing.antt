-- ===== src/Tests/Authorizing.antt =====
-- Authorization of the sample request.
use argon.Prelude.{
  list_beq, ◌≡◌, refl, ◌⊎◌, true, false, none, some, [], ◌∷◌, if◌then◌else◌, nat_eq, list_eq,
}
use argon.Text.{Text, codes, trim, is_whitespace}
use argon.Config.{AuthConfig}
use argon.Auth.{AuthConfigDex, from_pb, build_auth_runtime, normalize_list}
use argon.Http.{Response, err}
use argon.Proxy.Subrequest.{
  copy_response_headers, build_auth_request, is_skipped, perform_auth_if_needed,
}
use argon.Proxy.Subrequest.Copied.{is_named, answered_or, copy_response_headers-get_all}
use argon.Proxy.Subrequest.Asked.{asked_values, build_auth_request-get_all}
use argon.Proxy.Subrequest.Unaddressed.{perform_auth_if_needed-unaddressed}
use argon.Tests.Network.{http}
use argon.Tests.Requests.{sample_request, clients}

abbrev user : Text
user = codes "x-user"

abbrev answer : http.HeaderMap
answer = (user, codes "alice") ∷ []

copy_response_headers-get_all_example :
    http.get_all
      (copy_response_headers http answer (codes "X-User" ∷ []) ((user, codes "root") ∷ []))
      user
    ≡ (if is_named http user (codes "X-User" ∷ [])
        then answered_or http answer user (codes "root" ∷ [])
        else codes "root" ∷ [])
unfolding list_beq
copy_response_headers-get_all_example =
    copy_response_headers-get_all http answer (codes "X-User" ∷ []) ((user, codes "root") ∷ []) user

abbrev auth_uri : http.Uri
auth_uri = record { scheme = none; authority = some (codes "auth.test"); path_and_query = none }

build_auth_request-get_all_example :
    http.get_all
      (build_auth_request http sample_request auth_uri (codes "shop.test") true).headers
      (codes "x-forwarded-host")
    ≡ asked_values http sample_request auth_uri (codes "shop.test") true (codes "x-forwarded-host")
build_auth_request-get_all_example =
    build_auth_request-get_all http sample_request auth_uri (codes "shop.test") true
      (codes "x-forwarded-host")

-- Only a list is given, and all that it holds is a blank.
abbrev blank_config : AuthConfig
blank_config = record {
  url = [];
  signin = [];
  response_headers = [];
  skip_paths = codes " " ∷ [];
  cookie_name = [];
}

perform_auth_if_needed-unaddressed_example :
    (resp : Response http) × (perform_auth_if_needed http clients sample_request
        (from_pb blank_config)
        (codes "shop.test")
        true
        false
      ≡ ([], err resp))
    × ((resp.status ≡ 302) ⊎ (resp.status ≡ 502))
unfolding build_auth_runtime is_skipped normalize_list trim is_whitespace from_pb
    argon.Auth.is_blank
perform_auth_if_needed-unaddressed_example =
    perform_auth_if_needed-unaddressed http clients sample_request (codes "shop.test") true false
      blank_config (from_pb blank_config) refl refl refl
