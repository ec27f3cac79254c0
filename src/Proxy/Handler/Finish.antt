-- ===== src/Proxy/Handler/Finish.antt =====
-- What `proxy_handler` of images/dataplane/src/proxy.rs does after the selection.
use argon.Prelude.{ℕ, ◌≡◌, refl, [], list_eq}
use argon.Atomics.{Address, Heap}
use argon.Cluster.{Counters}
use argon.Table.{RouteTable}
use argon.Http.{Http, Request, Response, Result, ok, err}
use argon.Proxy.Effects.{Clients, Trace}
use argon.Proxy.Guard.{open_guard, drop_guard}
use argon.Proxy.Handler.{Selection, select_upstream, serve, proxy_handler}

module _ (http : Http) (counters : Counters) (clients : Clients http) (meanwhile : Heap → Heap)
    (req : Request http) where
  abbrev pub finish :
      Heap × Result (Selection http counters) (Response http) → Heap × (Trace http × Response http)
  finish (h, err resp) = (h, ([], resp))
  finish (h, ok s) = (
    drop_guard (meanwhile (open_guard h s.selected.counter).0) (open_guard h s.selected.counter).1,
    serve http counters clients s req,
  )

  pub proxy_handler-finish :
      (seen : Address → ℕ) (h : Heap) (table : RouteTable counters)
      → proxy_handler http counters clients seen meanwhile h table req
        ≡ finish (select_upstream http counters seen h table req)
  unfolding proxy_handler
  proxy_handler-finish seen h table = by_selection (select_upstream http counters seen h table req)
    where
      by_selection :
          (t : Heap × Result (Selection http counters) (Response http))
          → (let (h', selection) = t in
              elim selection [
                | err resp ↦ (h', ([], resp))
                | ok s ↦
                    let (h'', guard) = open_guard h' s.selected.counter in
                    (drop_guard (meanwhile h'') guard, serve http counters clients s req)
              ])
            ≡ finish t
      by_selection (h', err resp) = refl
      by_selection (h', ok s) = refl
