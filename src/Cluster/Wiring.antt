-- ===== src/Cluster/Wiring.antt =====
-- The counters that `build_map` of images/dataplane/src/snapshot.rs makes for a cluster.
use argon.Prelude.{
  ℕ, zero, suc, ◌+◌, ◌<◌, ◌≡◌, refl, sym, ap, ◌∙◌, subst, ◌⊎◌, inl, inr, ◌&&◌, some, List, [], ◌∷◌,
  arith, ltb, leb, if◌then◌else◌, nat_eq, list_eq, length, get_elem?,
}
use native.Mathlib.Decide.{ℕ_discrete}
use argon.Atomics.{Heap, Address, alloc}
use argon.Config.{Endpoint}
use argon.Cluster.{EndpointKey, from_endpoint, Counters, build_map_from, build_map}

EndpointKey-discrete : Discrete EndpointKey
EndpointKey-discrete = hlevel ℕ_discrete

module _ (counters : Counters) where
  -- An entry that the loop made: the key of an endpoint at its index, with the cell of that index.
  abbrev IsMade : ℕ → Address → List Endpoint → EndpointKey → Address → Type 0
  IsMade index base eps k a =
      (i : ℕ) × (ep : Endpoint) × (get_elem? eps i ≡ some ep)
      × (k ≡ from_endpoint (index + i) ep)
      × (a ≡ base + i)

  -- The counters of a list of endpoints stand in consecutive cells from `base` on.
  pub record IsWired (base : Address) (eps : List Endpoint) (m : counters.Map) : Type 0 where
    pub counted :
        (i : ℕ) (ep : Endpoint)
        → get_elem? eps i ≡ some ep
        → counters.get m (from_endpoint i ep) ≡ some (base + i)
    pub made :
        (k : EndpointKey) (a : Address)
        → counters.get m k ≡ some a
        → (ep : Endpoint) × (get_elem? eps k.index ≡ some ep) × (a ≡ base + k.index)

  build_map_from-keeps :
      (h : Heap) (m : counters.Map) (index : ℕ) (eps : List Endpoint) (k : EndpointKey)
      → k.index < index
      → counters.get (build_map_from counters h m index eps).1 k ≡ counters.get m k
  unfolding build_map_from
  build_map_from-keeps h m index [] k lt = refl
  build_map_from-keeps h m index (ep ∷ eps) k lt =
      build_map_from-keeps (alloc h 0).0 (counters.insert m (from_endpoint index ep) (alloc h 0).1)
        (suc index) eps k (omega arith)
      ∙ counters.get-insert_ne m (from_endpoint index ep) k (alloc h 0).1
          (unfold from_endpoint in λ e. omega (arith, ap (λ (j : EndpointKey). j.index) e))

  build_map_from-counted :
      (h : Heap) (m : counters.Map) (index : ℕ) (eps : List Endpoint) (i : ℕ) (ep : Endpoint)
      → get_elem? eps i ≡ some ep
      → counters.get (build_map_from counters h m index eps).1 (from_endpoint (index + i) ep)
        ≡ some (h.next + i)
  unfolding build_map_from
  build_map_from-counted h m index [] i ep e = absurd (ground arith)
  build_map_from-counted h m index (x ∷ eps) zero ep e =
      let same : x ≡ ep = ground arith in
      let at_index : index + 0 ≡ index = omega arith in
      let at_next : h.next + 0 ≡ h.next = omega arith in
      rw (at_index, at_next, ← same)
        (build_map_from-keeps (alloc h 0).0
            (counters.insert m (from_endpoint index x) (alloc h 0).1) (suc index) eps
            (from_endpoint index x) (unfold from_endpoint in omega arith)
          ∙ (counters.get-insert_self m (from_endpoint index x) (alloc h 0).1
              ∙ (unfold alloc in refl)))
  build_map_from-counted h m index (x ∷ eps) (suc i) ep e =
      let at_index : index + suc i ≡ suc index + i = omega arith in
      let at_next : h.next + suc i ≡ (alloc h 0).0.next + i = unfold alloc in omega arith in
      rw (at_index, at_next)
        (build_map_from-counted (alloc h 0).0
          (counters.insert m (from_endpoint index x) (alloc h 0).1) (suc index) eps i ep e)

  IsMade-first :
      (h : Heap) (m : counters.Map) (index : ℕ) (x : Endpoint) (eps : List Endpoint)
      (k : EndpointKey) (a : Address)
      → from_endpoint index x ≡ k
      → counters.get (counters.insert m (from_endpoint index x) (alloc h 0).1) k ≡ some a
      → IsMade index h.next (x ∷ eps) k a
  unfolding alloc
  IsMade-first h m index x eps k a same old =
      let found =
        subst (λ j. counters.get (counters.insert m (from_endpoint index x) h.next) j ≡ some a)
          (sym same) old in
      let self = counters.get-insert_self m (from_endpoint index x) h.next in
      (0, x, refl, sym same ∙ ap (λ n. from_endpoint n x) (omega arith), ground arith)

  build_map_from-IsMade :
      (h : Heap) (m : counters.Map) (index : ℕ) (eps : List Endpoint) (k : EndpointKey)
      (a : Address)
      → counters.get (build_map_from counters h m index eps).1 k ≡ some a
      → (counters.get m k ≡ some a) ⊎ IsMade index h.next eps k a
  unfolding build_map_from
  build_map_from-IsMade h m index [] k a e = inl e
  build_map_from-IsMade h m index (x ∷ eps) k a e =
      elim (build_map_from-IsMade (alloc h 0).0
        (counters.insert m (from_endpoint index x) (alloc h 0).1) (suc index) eps k a e) [
          | inl old ↦ elim (EndpointKey-discrete (from_endpoint index x) k) [
            | yes same ↦ inr (IsMade-first h m index x eps k a same old)
            | no other ↦
                inl (
                  sym (counters.get-insert_ne m (from_endpoint index x) k (alloc h 0).1 other)
                  ∙ old)
          ]
          | inr (i, ep, at, key, cell) ↦ inr (
            suc i,
            ep,
            at,
            key ∙ ap (λ n. from_endpoint n ep) (omega arith),
            cell ∙ (unfold alloc in omega arith),
          )
        ]

  build_map_from-heap :
      (h : Heap) (m : counters.Map) (index : ℕ) (eps : List Endpoint)
      → ((build_map_from counters h m index eps).0.next ≡ h.next + length eps)
        × ((a : Address)
            → (build_map_from counters h m index eps).0.cell a
              ≡ (if leb h.next a && ltb a (h.next + length eps) then 0 else h.cell a))
  unfolding build_map_from alloc
  build_map_from-heap h m index [] = (omega arith, λ a. ground arith)
  build_map_from-heap h m index (x ∷ eps) =
      let (next, cells) =
        build_map_from-heap (alloc h 0).0 (counters.insert m (from_endpoint index x) (alloc h 0).1)
          (suc index) eps in
      (omega arith, λ a. ground (arith, cells a))

  -- The map that is built for a list of endpoints gives each endpoint's key, at its index, the cell
  -- of that index in a block of new cells, and has no other entry: equal endpoints have counters of
  -- their own.
  pub build_map-IsWired :
      (h : Heap) (eps : List Endpoint) → IsWired h.next eps (build_map counters h eps).1
  unfolding build_map
  build_map-IsWired h eps = record {
    counted = λ i ep e.
        subst
          (λ n. counters.get (build_map counters h eps).1 (from_endpoint n ep) ≡ some (h.next + i))
          (omega arith)
          (build_map_from-counted h (counters.with_capacity (length eps)) 0 eps i ep e);
    made = λ k a e.
        elim (build_map_from-IsMade h (counters.with_capacity (length eps)) 0 eps k a e) [
          | inl old ↦ absurd (ground (arith, counters.get-with_capacity (length eps) k))
          | inr (i, ep, at, key, cell) ↦ made_at k i ep at key cell
        ];
  }
    where
      made_at :
          (k : EndpointKey) {a : Address} (i : ℕ) (ep : Endpoint)
          → get_elem? eps i ≡ some ep
          → k ≡ from_endpoint (0 + i) ep
          → a ≡ h.next + i
          → (ep : Endpoint) × (get_elem? eps k.index ≡ some ep) × (a ≡ h.next + k.index)
      made_at k i ep at key cell =
          let same : k.index ≡ i =
            ap (λ (j : EndpointKey). j.index) key ∙ (unfold from_endpoint in omega arith) in
          (ep, rw same at, rw same cell)

  -- The cells of the row are new, start at 0, and no other cell changes.
  pub build_map-heap :
      (h : Heap) (eps : List Endpoint)
      → ((build_map counters h eps).0.next ≡ h.next + length eps)
        × ((a : Address)
            → (build_map counters h eps).0.cell a
              ≡ (if leb h.next a && ltb a (h.next + length eps) then 0 else h.cell a))
  unfolding build_map
  build_map-heap h eps = build_map_from-heap h (counters.with_capacity (length eps)) 0 eps
