-- ===== src/Rewrites.antt =====
-- images/dataplane/src/snapshot.rs: the header rewrites of a cluster (`HeaderRewriteMode`,
-- `HeaderRewriteRule`, `build_header_rewrites`). A `HeaderName` is its lower-case text, and
-- `HeaderName::from_bytes` of the http crate is the parameter `header_name`.
use argon.Prelude.{Option, none, some, List, [], ◌∷◌, ◌++◌, if◌then◌else◌, ◌==◌, list_eq}
use argon.Text.{Text, codes, is_empty, trim, to_ascii_lowercase}
use argon.Config.{HeaderRewrite}

abbrev pub HeaderName : Type 0
HeaderName = Text

pub data HeaderRewriteMode : Type 0 where
  set append remove : HeaderRewriteMode

unfoldable pub parse_mode : Text → Option HeaderRewriteMode
parse_mode mode =
    let m = to_ascii_lowercase mode in
    if m == codes "set"
    then some set
    else if m == codes "append"
    then some append
    else if m == codes "remove"
    then some remove
    else none

pub record HeaderRewriteRule : Type 0 where
  pub name : HeaderName
  pub value : Option Text
  pub mode : HeaderRewriteMode

-- A removal carries no value.
abbrev pub rewrite_value : HeaderRewriteMode → Text → Option Text
rewrite_value remove v = none
rewrite_value _ v = some v

module _ (header_name : Text → Option HeaderName) where
  -- One round of the loop: the rule that the item gives, or none where the loop continues.
  unfoldable pub rewrite_rule : HeaderRewrite → Option HeaderRewriteRule
  rewrite_rule item = if is_empty (trim item.name) then none else elim (parse_mode item.mode) [
    | none ↦ none
    | some mode ↦ elim (header_name (trim item.name)) [
      | none ↦ none
      | some name ↦
          some (record { name = name; value = rewrite_value mode item.value; mode = mode })
    ]
  ]

  collect : List HeaderRewriteRule → List HeaderRewrite → List HeaderRewriteRule
  collect rewrites [] = rewrites
  collect rewrites (item ∷ items) =
      collect (elim (rewrite_rule item) [ none ↦ rewrites | some r ↦ rewrites ++ r ∷ [] ]) items

  unfoldable pub build_header_rewrites : List HeaderRewrite → List HeaderRewriteRule
  unfolding collect rewrite_rule
  build_header_rewrites items = collect [] items
