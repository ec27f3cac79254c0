-- ===== src/Proxy/Reply.antt =====
-- images/dataplane/src/proxy.rs: the responses that the proxy makes itself (`text`, `redirect`).
use argon.Prelude.{ℕ, list_eq}
use argon.Text.{Text, codes}
use argon.Http.{Http, Response, insert_text}

module _ (http : Http) where
  unfoldable pub text : ℕ → Text → Response http
  text status s = record {
    status = status;
    headers =
        http.insert http.empty_map (codes "content-type")
          (http.value_from_static (codes "text/plain; charset=utf-8"));
    body = http.boxed (http.full_new s);
  }

  unfoldable pub redirect : ℕ → Text → Response http
  unfolding insert_text
  redirect status location = record {
    status = status;
    headers = insert_text http http.empty_map (codes "location") location;
    body = http.boxed (http.full_new (codes "redirect"));
  }
