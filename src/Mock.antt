-- ===== src/Mock.antt =====
-- crates/examples/replay_mock/src/lib.rs: the events that the task of `event_stream` makes. How they
-- pass the channel of tokio to the reader is tokio's.
pub mod Consumers
pub mod Examples
use dytor.Common.{ℕ, zero, suc, ◌+◌, ◌*◌, ◌<◌, ◌≡◌, List, [], ◌∷◌, ◌++◌, length}
use dytor.Replay.{Event}

-- `ev`, with the timestamp in nanoseconds
abbrev pub event_at : ℕ → Event (Unit {0})
event_at t = record { timestamp = t * 1000000000; tie_break = 0; obj = tt }

-- The events for `t` from the first argument on, as many as the second says.
abbrev pub interval : ℕ → ℕ → List (Event (Unit {0}))
interval t zero = []
interval t (suc n) = event_at t ∷ interval (suc t) n
