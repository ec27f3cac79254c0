-- ===== src/InFlight/Steps.antt =====
-- A step of requests and new tables of images/dataplane/src, and the counters of the endpoints.
use argon.Prelude.{
  ℕ, ◌+◌, ◌≡◌, refl, sym, ap, subst, inl, inr, Bool, Option, none, some, ◌∷◌, ◌++◌, arith, nat_eq,
  list_eq, lt-length_of_get_elem?, All, All-map, All-drop,
}
use argon.Atomics.{Heap, Address, fetch_add}
use argon.Cluster.{Counters, SelectedEndpoint}
use argon.Cluster.Policy.{pick_endpoint-own_counter}
use argon.Table.{new_table, get_cluster_rules}
use argon.Table.Cells.{AllApart, new_table-AllApart}
use argon.Table.Built.{new_table-Extends}
use argon.Http.{Http, Request, Response, Result, ok}
use argon.Proxy.Guard.{ActiveConnGuard, open_guard, drop_guard}
use argon.Proxy.Guard.Counts
use argon.Proxy.Guard.Counts.{
  World, IsCounter, IsCounted, in_flight, Step-IsCounted, IsCounter-kept,
}
use argon.Proxy.Handler.{Selection, select_upstream}
use argon.Proxy.Handler.Selected.{select_upstream-IsSelected}
use argon.InFlight.{System, Step, refuse, select, enter, leave, publish}
use argon.InFlight.Picks.{select-Picks}

module _ (http : Http) (counters : Counters) where
  abbrev State : Type 0
  State = System http counters

  abbrev Outcome : Type 0
  Outcome = Heap × Result (Selection http counters) (Response http)

  abbrev pub world : (Address → Bool) → State → World
  world c s = record { heap = s.heap; guards = s.guards; is_cursor = c }

  -- With some cells as cursors: the counters are exact, those that were selected are counters, and
  -- the cells of the table's clusters have their kinds.
  abbrev pub Good : (Address → Bool) → State → Type 0
  Good c s =
      IsCounted (world c s)
      × All (IsCounter (world c s)) s.selected
      × AllApart counters c s.heap.next s.table.clusters

  selected-IsCounter :
      (c : Address → Bool) (s : State) (seen : Address → ℕ) (req : Request http) (h : Heap)
      (sel : Selection http counters)
      → AllApart counters c s.heap.next s.table.clusters
      → select_upstream http counters seen s.heap s.table req ≡ (h, ok sel)
      → IsCounter (world c s) sel.selected.counter
  unfolding get_cluster_rules
  selected-IsCounter c s seen req h sel all e =
      let is = select_upstream-IsSelected http counters seen s.heap s.table req h sel e in
      let apart = all is.rule.cluster sel.cluster is.found in
      let (i, at, counted) =
        pick_endpoint-own_counter counters seen s.heap sel.cluster apart.base sel.selected
          apart.wired (ap (λ (r : Heap × Option SelectedEndpoint). r.1) is.picked) in
      let short = lt-length_of_get_elem? sel.cluster.endpoints i sel.selected.endpoint at in
      subst (IsCounter (world c s)) (sym counted) (
        omega (arith, apart.there, short),
        apart.plain (apart.base + i) (omega arith) (omega (arith, short)),
      )

  -- A heap that has the cells of the old one and exact counters.
  abbrev IsMoved : (Address → Bool) → State → Heap → Type 0
  IsMoved c s h = (h.next ≡ s.heap.next) × IsCounted (world c (record s { heap = h }))

  select-IsMoved :
      (c : Address → Bool) (s : State) (seen : Address → ℕ) (req : Request http)
      → Good c s
      → IsMoved c s (select_upstream http counters seen s.heap s.table req).0
  unfolding get_cluster_rules
  select-IsMoved c s seen req (exact, some_selected, all) =
      elim (select-Picks http counters seen s.heap s.table req) [
        | inl still ↦ subst (IsMoved c s) (sym still) (refl, exact)
        | inr picks ↦ elim picks.turned [
          | inl still ↦ subst (IsMoved c s) (sym still) (refl, exact)
          | inr turned ↦
              let apart = all picks.name picks.cluster picks.found in
              subst (IsMoved c s) (sym turned) (
                unfold fetch_add in refl,
                Step-IsCounted (Counts.rotate picks.cluster.rr_cursor apart.cursor refl) exact,
              )
        ]
      ]

  -- What is kept by a heap with the same cells.
  Good-moved :
      (c : Address → Bool) (s : State) (h : Heap)
      → IsMoved c s h
      → Good c s
      → Good c (record s { heap = h })
  Good-moved c s h (same_cells, exact') (exact, some_selected, all) = (
    exact',
    All-map (IsCounter (world c s)) (IsCounter (world c (record s { heap = h }))) s.selected
        (λ a.
          IsCounter-kept (world c s) (world c (record s { heap = h })) a (omega arith)
            (λ b lt. refl))
        some_selected,
    subst (λ n. AllApart counters c n s.table.clusters) (sym same_cells) all,
  )

  IsMoved-by :
      (c : Address → Bool) (s : State) (seen : Address → ℕ) (req : Request http) (h : Heap)
      (r : Result (Selection http counters) (Response http))
      → Good c s
      → select_upstream http counters seen s.heap s.table req ≡ (h, r)
      → IsMoved c s h
  IsMoved-by c s seen req h r g e =
      subst (IsMoved c s) (ap (λ (t : Outcome). t.0) e) (select-IsMoved c s seen req g)

  next-open_guard : (h : Heap) (a : Option Address) → (open_guard h a).0.next ≡ h.next
  unfolding open_guard
  next-open_guard h none = refl
  next-open_guard h (some a) = refl

  next-drop_guard : (h : Heap) (g : ActiveConnGuard) → (drop_guard h g).next ≡ h.next
  next-drop_guard h g = by_counter g.counter
    where
      by_counter : (a : Option Address) → (drop_guard h (record { counter = a })).next ≡ h.next
      by_counter none = unfold drop_guard in refl
      by_counter (some a) = unfold drop_guard in refl

  pub Step-Good :
      (c : Address → Bool) (s s' : State)
      → Good c s
      → Step http counters s s'
      → (c' : Address → Bool) × Good c' s'
  Step-Good c s s' g (refuse seen req h resp e same) =
      (c, subst (Good c) (sym same) (Good-moved c s h (IsMoved-by c s seen req h _ g e) g))
  Step-Good c s s' g (select seen req h sel e same) =
      let (exact, some_selected, all) = Good-moved c s h (IsMoved-by c s seen req h _ g e) g in
      (
        c,
        subst (Good c) (sym same) (
          exact,
          (
            IsCounter-kept (world c s) (world c (record s { heap = h })) sel.selected.counter
                (omega (arith, (IsMoved-by c s seen req h (ok sel) g e).0)) (λ b lt. refl)
                (selected-IsCounter c s seen req h sel g.2 e),
            some_selected,
          ),
          all,
        ),
      )
  Step-Good c s s' (exact, some_selected, all) (enter before counter after at same) =
      let (counts, rest) =
        All-drop (IsCounter (world c s)) before counter after
          (subst (All (IsCounter (world c s))) at some_selected) in
      let h = (open_guard s.heap counter).0 in
      let cells = next-open_guard s.heap counter in
      (
        c,
        subst (Good c) (sym same) (
          Step-IsCounted (Counts.enter counter counts refl) exact,
          All-map (IsCounter (world c s))
              (IsCounter (
                world c (record s { heap = h; guards = (open_guard s.heap counter).1 ∷ s.guards })))
              (before ++ after)
              (λ a.
                IsCounter-kept (world c s)
                  (world c
                    (record s { heap = h; guards = (open_guard s.heap counter).1 ∷ s.guards }))
                  a (omega (arith, cells)) (λ b lt. refl))
              rest,
          subst (λ n. AllApart counters c n s.table.clusters) (sym cells) all,
        ),
      )
  Step-Good c s s' (exact, some_selected, all) (leave before guard after at same) =
      let h = drop_guard s.heap guard in
      let cells = next-drop_guard s.heap guard in
      (
        c,
        subst (Good c) (sym same) (
          Step-IsCounted (Counts.leave before guard after at refl) exact,
          All-map (IsCounter (world c s))
              (IsCounter (world c (record s { heap = h; guards = before ++ after }))) s.selected
              (λ a.
                IsCounter-kept (world c s)
                  (world c (record s { heap = h; guards = before ++ after })) a
                  (omega (arith, cells)) (λ b lt. refl))
              some_selected,
          subst (λ n. AllApart counters c n s.table.clusters) (sym cells) all,
        ),
      )
  Step-Good c s s' (exact, some_selected, all) (publish snap nobody same) =
      let (more, cells) = new_table-Extends counters http.header_name s.heap snap in
      let (c', agree, all') = new_table-AllApart counters http.header_name c s.heap snap in
      let (h, table) = new_table counters http.header_name s.heap snap in
      (
        c',
        subst (Good c') (sym same) (
          Step-IsCounted (Counts.reload h c' more cells agree refl) exact,
          All-map (IsCounter (world c s))
              (IsCounter (world c' (record s { heap = h; table = table }))) s.selected
              (λ a i.
                IsCounter-kept (world c s) (world c' (record s { heap = h; table = table })) a more
                  agree i)
              some_selected,
          all',
        ),
      )
