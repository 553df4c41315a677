-- ===== src/Registry/Nodes.antt =====
-- crates/core/dytor/src/registry.rs: the list behind `INIT_FNS`. A node is named by its number,
-- each node has one call of `init_node`, and the calls may overlap. The accesses to `INIT_FNS` and
-- to the pointers are atomic, and take effect in one order.
use dytor.Common.{
  ℕ, zero, suc, ◌≡◌, List, [], ◌∷◌, Option, none, some, Exec, returns, panics, ◌>>=◌, update,
}
use dytor.Registry.{Registry, empty_registry, ListNode, call, unwrap_registered}

-- Where the call of `init_node` for a node stands: before its load, with the value that it loaded,
-- after the store of that value, after its exchange.
pub data Call : Type 0 where
  uncalled linked : Call
  loaded stored : Option ℕ → Call

-- `INIT_FNS`, the field `next` of each node, and the calls.
pub record Nodes : Type 0 where
  pub init_fns : Option ℕ
  pub next : ℕ → Option ℕ
  pub calls : ℕ → Call

abbrev pub no_nodes : Nodes
no_nodes = record { init_fns = none; next = λ _. none; calls = λ _. uncalled }

-- One access of one call. The first argument and the first index are the nodes whose exchange has
-- succeeded, the last one first.
pub data Step (pushed : List ℕ) (s : Nodes) : List ℕ → Nodes → Type 0 where
  load :
      (i : ℕ)
      → s.calls i ≡ uncalled
      → Step pushed s pushed (record s { calls = update s.calls i (loaded s.init_fns) })
  store :
      (i : ℕ) (prev_init : Option ℕ)
      → s.calls i ≡ loaded prev_init
      → Step pushed s pushed (record s {
        next = update s.next i prev_init;
        calls = update s.calls i (stored prev_init);
      })
  exchange :
      (i : ℕ) (prev_init : Option ℕ)
      → s.calls i ≡ stored prev_init
      → s.init_fns ≡ prev_init
      → Step pushed s (i ∷ pushed) (record s { init_fns = some i; calls = update s.calls i linked })
  -- `compare_exchange_weak` may fail although the value is the expected one
  exchange_fails :
      (i : ℕ) (prev_init : Option ℕ)
      → s.calls i ≡ stored prev_init
      → Step pushed s pushed (record s { calls = update s.calls i (loaded s.init_fns) })

pub data Reach : List ℕ → Nodes → Type 0 where
  begin : Reach [] no_nodes
  later :
      {pushed : List ℕ} {s : Nodes} {pushed' : List ℕ} {t : Nodes}
      → Reach pushed s
      → Step pushed s pushed' t
      → Reach pushed' t

module _ (node : ℕ → ListNode) (next : ℕ → Option ℕ) where
  -- The loop of `Registry::get`; the result is `none` without fuel.
  unfoldable pub visit : ℕ → Option ℕ → Registry → Option (Exec Registry)
  unfolding call
  visit zero ptr r = none
  visit (suc fuel) none r = some (returns r)
  visit (suc fuel) (some i) r = elim (call (node i) r >>= unwrap_registered) [
    | panics ↦ some panics
    | returns r' ↦ visit fuel (next i) r'
  ]

-- `Registry::get`, the first time.
unfoldable pub get_first : (ℕ → ListNode) → ℕ → Nodes → Option (Exec Registry)
unfolding visit
get_first node fuel s = visit node s.next fuel s.init_fns empty_registry
