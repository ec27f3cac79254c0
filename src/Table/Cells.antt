-- ===== src/Table/Cells.antt =====
-- The cells of the tables that `RouteTable::new` of images/dataplane/src/snapshot.rs builds.
use mathlib.Core.Option.{some-injective}
use argon.Prelude.{
  ◌+◌, ◌≤◌, ◌<◌, ◌≡◌, refl, ◌∙◌, subst, inl, inr, Bool, true, false, Option, some, List, [], ◌∷◌,
  arith, ltb, if◌then◌else◌, Bool-cases, Option-cases, ◌==◌, nat_eq, list_eq, length,
}
use argon.Text.{Text, to_ascii_lowercase}
use argon.HashMap.{HashMap, get, insert, get-insert}
use argon.Atomics.{Heap, Address, alloc}
use argon.Config
use argon.Config.{Snapshot}
use argon.Rewrites.{HeaderName}
use argon.Cluster.{LbPolicy, Counters, ClusterRule, parse_policy}
use argon.Cluster.Wiring.{IsWired, build_map-IsWired, build_map-heap}
use argon.Table.{build_cluster, push_cluster, fill_clusters, new_table}

module _ (counters : Counters) where
  -- The counters of the rule are cells that are there and no cursors, and its cursor is one.
  pub record IsApart (is_cursor : Address → Bool) (next : Address) (rule : ClusterRule counters)
      : Type 0 where
    pub base : Address
    pub wired : IsWired counters base rule.endpoints rule.least_conn_cursor
    pub there : base + length rule.endpoints ≤ next
    pub plain : (a : Address) → base ≤ a → a < base + length rule.endpoints → is_cursor a ≡ false
    pub cursor_there : rule.rr_cursor < next
    pub cursor : is_cursor rule.rr_cursor ≡ true

  abbrev Clusters : Type 0
  Clusters = HashMap Text (ClusterRule counters)

  abbrev pub AllApart : (Address → Bool) → Address → Clusters → Type 0
  AllApart is_cursor next clusters =
      (name : Text) (rule : ClusterRule counters)
      → get clusters name ≡ some rule
      → IsApart is_cursor next rule

  -- More cells, where the old ones keep their kind.
  abbrev pub Agree : (Address → Bool) → (Address → Bool) → Address → Type 0
  Agree c c' next = (a : Address) → a < next → c' a ≡ c a

  pub IsApart-more :
      (c c' : Address → Bool) (next next' : Address) (rule : ClusterRule counters)
      → next ≤ next'
      → Agree c c' next
      → IsApart c next rule
      → IsApart c' next' rule
  IsApart-more c c' next next' rule le agree r = record {
    base = r.base;
    wired = r.wired;
    there = omega (arith, r.there);
    plain = λ a from to. agree a (omega (arith, r.there)) ∙ r.plain a from to;
    cursor_there = omega (arith, r.cursor_there);
    cursor = agree rule.rr_cursor r.cursor_there ∙ r.cursor;
  }

  module _ (header_name : Text → Option HeaderName) where
    -- The kinds of the cells once a cluster is built: its last cell is the cursor.
    abbrev kinds : (Address → Bool) → Heap → Config.Cluster → Address → Bool
    kinds c h cluster a = if ltb a h.next then c a else a == h.next + length cluster.endpoints

    build_cluster-next :
        (h : Heap) (lb : LbPolicy) (cluster : Config.Cluster)
        → (build_cluster counters header_name h lb cluster).0.next
          ≡ h.next + length cluster.endpoints + 1
    unfolding build_cluster alloc
    build_cluster-next h lb cluster = omega (arith, (build_map-heap counters h cluster.endpoints).0)

    build_cluster-IsApart :
        (c : Address → Bool) (h : Heap) (lb : LbPolicy) (cluster : Config.Cluster)
        → IsApart
            (kinds c h cluster)
            (build_cluster counters header_name h lb cluster).0.next
            (build_cluster counters header_name h lb cluster).1
    unfolding build_cluster alloc
    build_cluster-IsApart c h lb cluster =
        let (next, cells) = build_map-heap counters h cluster.endpoints in
        record {
          base = h.next;
          wired = build_map-IsWired counters h cluster.endpoints;
          there = omega (arith, next);
          plain = λ a from to. ground arith;
          cursor_there = omega (arith, next);
          cursor = ground (arith, next);
        }

    abbrev Filled : Type 0
    Filled = Heap × Clusters

    -- The cells of the clusters so far have their kinds, which agree with those from before.
    abbrev HasKinds : (Address → Bool) → Address → Filled → Type 0
    HasKinds c next s =
        (c' : Address → Bool) × (next ≤ s.0.next) × Agree c c' next × AllApart c' s.0.next s.1

    insert-AllApart :
        (c c' : Address → Bool) (next next' : Address) (clusters : Clusters) (name : Text)
        (rule : ClusterRule counters)
        → next ≤ next'
        → Agree c c' next
        → AllApart c next clusters
        → IsApart c' next' rule
        → AllApart c' next' (insert clusters name rule)
    insert-AllApart c c' next next' clusters name rule le agree all apart k r e =
        elim (Bool-cases (name == k)) [
          | inl new ↦
              subst (IsApart c' next')
                (some-injective rule r (ground (arith, get-insert clusters name k rule, e))) apart
          | inr old ↦
              IsApart-more c c' next next' r le agree
                (all k r (ground (arith, get-insert clusters name k rule, e)))
        ]

    push_cluster-HasKinds :
        (c : Address → Bool) (s : Filled) (cluster : Config.Cluster)
        → AllApart c s.0.next s.1
        → HasKinds c s.0.next (push_cluster counters header_name s cluster)
    unfolding push_cluster get
    push_cluster-HasKinds c (h, clusters) cluster all =
        elim (Option-cases (parse_policy cluster.lb_policy)) [
          | inl e ↦ rw (e, push_cluster) (c, omega arith, λ a lt. refl, all)
          | inr (lb, e) ↦
              rw (e, push_cluster)
                (
                  kinds c h cluster,
                  omega (arith, build_cluster-next h lb cluster),
                  λ a lt. ground arith,
                  insert-AllApart c (kinds c h cluster) h.next
                      (build_cluster counters header_name h lb cluster).0.next clusters
                      (to_ascii_lowercase cluster.name)
                      (build_cluster counters header_name h lb cluster).1
                      (omega (arith, build_cluster-next h lb cluster)) (λ a lt. ground arith) all
                      (build_cluster-IsApart c h lb cluster),
                )
        ]

    fill_clusters-HasKinds :
        (c : Address → Bool) (s : Filled) (clusters : List Config.Cluster)
        → AllApart c s.0.next s.1
        → HasKinds c s.0.next (fill_clusters counters header_name s clusters)
    unfolding fill_clusters
    fill_clusters-HasKinds c s [] all = (c, omega arith, λ a lt. refl, all)
    fill_clusters-HasKinds c s (x ∷ xs) all =
        let (c', le, agree, all') = push_cluster-HasKinds c s x all in
        let (c'', le', agree', all'') =
          fill_clusters-HasKinds c' (push_cluster counters header_name s x) xs all' in
        (c'', omega (arith, le, le'), λ a lt. agree' a (omega (arith, le, lt)) ∙ agree a lt, all'')

    -- A new table has its own cells, and every other cell keeps its kind.
    pub new_table-AllApart :
        (c : Address → Bool) (h : Heap) (snap : Snapshot)
        → (c' : Address → Bool) × Agree c c' h.next
          × AllApart c'
              (new_table counters header_name h snap).0.next
              (new_table counters header_name h snap).1.clusters
    unfolding new_table
    new_table-AllApart c h snap =
        let (c', le, agree, all) =
          fill_clusters-HasKinds c (h, []) snap.clusters
            (λ name rule e. unfold get in absurd (ground arith)) in
        (c', agree, all)
