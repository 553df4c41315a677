-- ===== src/Shutdown/Sending.antt =====
-- How `run_thread` of crates/core/dytor/src/runtime/mod.rs finds the link for a message, and the
-- order in which it sends several.
use dytor.Common.{
  ℕ, zero, suc, List, [], ◌∷◌, get_elem?, Exec, unwrap, sub_checked, ◌>>=◌, ltb, leb, ◌==◌,
  if◌then◌else◌,
}
use dytor.Context.{ContextId, as_index}

-- The indices of the contexts that `links` of context `i` leads to: all of them but `i`, in order.
unfoldable pub links_from : ℕ → ℕ → ℕ → List ℕ
links_from zero j i = []
links_from (suc k) j i = let rest = links_from k (suc j) i in if i == j then rest else j ∷ rest

unfoldable pub links : ℕ → ℕ → List ℕ
unfolding links_from
links n i = links_from n 0 i

-- `rx_id.as_index() - (ctx.id > rx_id) as usize`
unfoldable pub link_index : ContextId → ContextId → Exec ℕ
unfolding sub_checked
link_index id rx = sub_checked (as_index rx) (if ltb rx id then 1 else 0)

-- `sort_by_key(|(id, _)| *id)`, which is stable.
module _ {M : Type 0} where
  unfoldable pub insert_by_key : ContextId × M → List (ContextId × M) → List (ContextId × M)
  insert_by_key x [] = x ∷ []
  insert_by_key x (y ∷ ys) = if leb x.0 y.0 then x ∷ y ∷ ys else y ∷ insert_by_key x ys

  unfoldable pub sort_by_key : List (ContextId × M) → List (ContextId × M)
  unfolding insert_by_key
  sort_by_key [] = []
  sort_by_key (x ∷ xs) = insert_by_key x (sort_by_key xs)

-- The context behind `ctx.links[link_index]` for a message from context `i` to `rx`; an index out
-- of bounds panics.
unfoldable pub link : ℕ → ℕ → ContextId → ContextId → Exec ℕ
unfolding links link_index
link n i id rx = do k ← link_index id rx; unwrap (get_elem? (links n i) k)
