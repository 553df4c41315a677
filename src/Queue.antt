-- ===== src/Queue.antt =====
-- crates/core/dytor/src/queue: the queue of a context for its own messages, and the channel between
-- contexts, which is std's mpsc channel.
pub mod Laws
pub mod Remote
pub mod Examples
use dytor.Common.{ℕ, List, [], ◌∷◌, ◌++◌, Option, none, some, Bool, if◌then◌else◌}

-- `LocalQueue`: the items of its vector, the end of the vector last.
abbrev pub LocalQueue {ℓ} : Type ℓ → Type ℓ
LocalQueue A = List A

module _ {ℓ} {A : Type ℓ} where
  -- `Vec::push`
  unfoldable pub send : LocalQueue A → A → LocalQueue A
  send items value = items ++ value ∷ []

  -- `Vec::pop`: the item that is taken and those that are left.
  unfoldable pub recv : LocalQueue A → Option (A × LocalQueue A)
  recv [] = none
  recv (x ∷ xs) = elim (recv xs) [ none ↦ some (x, []) | some (y, rest) ↦ some (y, x ∷ rest) ]

  abbrev pub unbounded : LocalQueue A
  unbounded = []
