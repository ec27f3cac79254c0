-- ===== src/Table/Lookup.antt =====
-- The lookup of a cluster in the table, against the snapshot's own clusters.
use argon.Prelude.{
  ◌≡◌, refl, ◌∙◌, subst, ◌⊎◌, inl, inr, Bool, true, false, ◌&&◌, Option, none, some, List, [], ◌∷◌,
  arith, if◌then◌else◌, Bool-cases, Option-cases, or_else, is_some, ◌==◌, nat_eq, list_eq,
}
use argon.Text.{Text, to_ascii_lowercase}
use argon.HashMap.{HashMap, get, get-insert}
use argon.Atomics.{Heap}
use argon.Config
use argon.Config.{Snapshot}
use argon.Rewrites.{HeaderName}
use argon.Cluster.{Counters, ClusterRule, parse_policy}
use argon.Table.{build_cluster, push_cluster, fill_clusters, new_table, get_cluster_rules}
use argon.Table.Built.{Describes, Describes-weaken, build_cluster-Describes, push_cluster-Extends}

-- The cluster is usable under the name: its policy is known, and its name in lower case is this one.
unfoldable pub is_named : Text → Config.Cluster → Bool
is_named name c = is_some (parse_policy c.lb_policy) && to_ascii_lowercase c.name == name

-- The last usable cluster of the name.
unfoldable pub last_cluster : Text → List Config.Cluster → Option Config.Cluster
last_cluster name [] = none
last_cluster name (c ∷ cs) =
    or_else (last_cluster name cs) (if is_named name c then some c else none)

module _ (counters : Counters) (header_name : Text → Option HeaderName) where
  abbrev Filled : Type 0
  Filled = Heap × HashMap Text (ClusterRule counters)

  push_cluster-other :
      (s : Filled) (c : Config.Cluster) (name : Text)
      → is_named name c ≡ false
      → get (push_cluster counters header_name s c).1 name ≡ get s.1 name
  unfolding push_cluster is_named
  push_cluster-other (h, clusters) c name other = elim (Option-cases (parse_policy c.lb_policy)) [
    | inl e ↦ rw (e, push_cluster)
    | inr (lb, e) ↦
        rw (e, push_cluster)
          (ground (
            arith,
            get-insert clusters (to_ascii_lowercase c.name) name
                (build_cluster counters header_name h lb c).1,
          ))
  ]

  push_cluster-named :
      (s : Filled) (c : Config.Cluster) (name : Text)
      → is_named name c ≡ true
      → (rule : ClusterRule counters) × (get (push_cluster counters header_name s c).1 name
          ≡ some rule)
        × Describes counters header_name s.0.next c rule
  unfolding push_cluster is_named
  push_cluster-named (h, clusters) c name this = elim (Option-cases (parse_policy c.lb_policy)) [
    | inl e ↦ absurd (ground arith)
    | inr (lb, e) ↦ (
      (build_cluster counters header_name h lb c).1,
      rw (e, push_cluster)
          (ground (
            arith,
            get-insert clusters (to_ascii_lowercase c.name) name
                (build_cluster counters header_name h lb c).1,
          )),
      build_cluster-Describes counters header_name h lb c e,
    )
  ]

  fill_clusters-none :
      (s : Filled) (cs : List Config.Cluster) (name : Text)
      → last_cluster name cs ≡ none
      → get (fill_clusters counters header_name s cs).1 name ≡ get s.1 name
  unfolding fill_clusters last_cluster
  fill_clusters-none s [] name e = refl
  fill_clusters-none s (c ∷ cs) name e =
      fill_clusters-none (push_cluster counters header_name s c) cs name (ground arith)
      ∙ push_cluster-other s c name (ground arith)

  fill_clusters-some :
      (s : Filled) (cs : List Config.Cluster) (name : Text) (c : Config.Cluster)
      → last_cluster name cs ≡ some c
      → (rule : ClusterRule counters) × (get (fill_clusters counters header_name s cs).1 name
          ≡ some rule)
        × Describes counters header_name s.0.next c rule
  unfolding fill_clusters last_cluster
  fill_clusters-some s [] name c e = absurd (ground arith)
  fill_clusters-some s (x ∷ cs) name c e =
      let s' = push_cluster counters header_name s x in
      elim (Option-cases (last_cluster name cs)) [
        | inl gone ↦ elim (Bool-cases (is_named name x)) [
          | inl this ↦
              let (rule, got, d) = push_cluster-named s x name this in
              let same : x ≡ c = ground arith in
              (
                rule,
                fill_clusters-none s' cs name gone ∙ got,
                subst (λ y. Describes counters header_name s.0.next y rule) same d,
              )
          | inr other ↦ absurd (ground arith)
        ]
        | inr (y, later) ↦
            let (rule, got, d) = fill_clusters-some s' cs name c (ground arith) in
            (
              rule,
              got,
              Describes-weaken counters header_name s.0.next s'.0.next c rule
                  (push_cluster-Extends counters header_name s x).0 d,
            )
      ]

  -- In a table built from a snapshot, a name finds the last cluster of the snapshot with a known
  -- policy whose name in lower case is that name, with all its settings and with a counter for each
  -- endpoint and a cursor in new cells; it finds nothing if there is no such cluster.
  pub get_cluster_rules-new_table :
      (h : Heap) (snapshot : Snapshot) (name : Text)
      → ((last_cluster name snapshot.clusters ≡ none)
          × (get_cluster_rules counters (new_table counters header_name h snapshot).1 name ≡ none))
        ⊎ ((c : Config.Cluster) × (rule : ClusterRule counters) × (last_cluster name
                snapshot.clusters
              ≡ some c)
            × (get_cluster_rules counters (new_table counters header_name h snapshot).1 name
                ≡ some rule)
            × Describes counters header_name h.next c rule)
  unfolding get_cluster_rules new_table
  get_cluster_rules-new_table h snapshot name =
      elim (Option-cases (last_cluster name snapshot.clusters)) [
        | inl gone ↦
            inl
              (gone, fill_clusters-none (h, []) snapshot.clusters name gone ∙ (unfold get in refl))
        | inr (c, e) ↦
            let (rule, got, d) = fill_clusters-some (h, []) snapshot.clusters name c e in
            inr (c, rule, e, got, d)
      ]
