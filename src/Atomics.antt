-- ===== src/Atomics.antt =====
-- The shared counters, `Arc<AtomicUsize>`: an allocator with the values of all cells. A clone of the
-- `Arc` is the same address. `usize` has 64 bits, and `fetch_add` and `fetch_sub` wrap around.
use argon.Prelude.{ℕ, ◌+◌, ◌-◌, ◌%◌, ◌^◌, if◌then◌else◌, ◌==◌, nat_eq}

abbrev pub usize_mod : ℕ
usize_mod = 2 ^ 64

abbrev pub Address : Type 0
Address = ℕ

pub record Heap : Type 0 where
  pub next : Address
  pub cell : Address → ℕ

abbrev pub store : (Address → ℕ) → Address → ℕ → Address → ℕ
store cell a v b = if a == b then v else cell b

-- `Arc::new(AtomicUsize::new(v))`
unfoldable pub alloc : Heap → ℕ → Heap × Address
alloc h v = (record { next = h.next + 1; cell = store h.cell h.next v }, h.next)

unfoldable pub load : Heap → Address → ℕ
load h a = h.cell a

-- The value before the addition is returned.
unfoldable pub fetch_add : Heap → Address → ℕ → Heap × ℕ
fetch_add h a n = (record h { cell = store h.cell a ((h.cell a + n) % usize_mod) }, h.cell a)

unfoldable pub fetch_sub : Heap → Address → ℕ → Heap × ℕ
fetch_sub h a n =
    (record h { cell = store h.cell a ((h.cell a + usize_mod - n) % usize_mod) }, h.cell a)
