-- ===== src/Utils.antt =====
-- images/dataplane/src/utils.rs: the bodies that the admin port answers with.
use argon.Text.{Text}
use argon.Http.{Http}

module _ (http : Http) where
  unfoldable pub empty : http.Body
  empty = http.boxed http.empty_new

  unfoldable pub full : Text → http.Body
  full chunk = http.boxed (http.full_new chunk)
