-- ===== src/Replay/EventLoop.antt =====
-- crates/examples/replay/src/tokio_wrapper.rs: the thread that runs the tasks, as steps that interleave
-- with the holders of its `TokioSingleThread`. A task is what `F` says; how it runs is tokio's.
use dytor.Common.{◌⊎◌, ℕ, ◌+◌, ◌<◌, ◌≡◌, Bool, true, false, List, [], ◌∷◌, ◌++◌}

-- Where the loop stands.
pub data Phase : Type 0 where
  polling : Phase  -- at the poll of `task_rx.recv()`
  checking : Phase  -- `recv()` waits; at the poll of `signal.recv()`
  breaking : Phase  -- behind `break`, with `task_rx` not yet dropped
  ended : Phase  -- `task_rx` is dropped, with the tasks in it

abbrev pub is_open : Phase → Bool
is_open ended = false
is_open _ = true

abbrev pub loops : Phase → Bool
loops polling = true
loops checking = true
loops _ = false

-- The channel of tasks with the number of its senders, whether SIGINT arrived, where the loop stands,
-- and the tasks that it has given to `spawn_local`.
pub record EventLoop (F : Type 0) : Type 0 where
  pub task_rx : List F
  pub senders : ℕ
  pub signalled : Bool
  pub phase : Phase
  pub spawned : List F

-- The constructor of the resource.
abbrev pub new_loop : {F : Type 0} → EventLoop F
new_loop = record { task_rx = []; senders = 1; signalled = false; phase = polling; spawned = [] }

-- The tasks that were sent, and those that were sent when the last poll found the channel empty.
pub record Sent (F : Type 0) : Type 0 where
  pub all : List F
  pub at_poll : List F

pub data Step {F : Type 0} (sent : Sent F) (s : EventLoop F) : Sent F → EventLoop F → Type 0 where
  -- `spawn_with`, whose `unwrap` panics when `task_rx` is dropped
  spawn_with :
      (f : F)
      → 0 < s.senders
      → is_open s.phase ≡ true
      → Step sent s
          (record sent { all = sent.all ++ f ∷ [] })
          (record s { task_rx = s.task_rx ++ f ∷ [] })
  clone : 0 < s.senders → Step sent s sent (record s { senders = s.senders + 1 })
  drop_sender : {n : ℕ} → s.senders ≡ n + 1 → Step sent s sent (record s { senders = n })
  interrupt : Step sent s sent (record s { signalled = true })
  -- `f = task_rx.recv()` with `Some(f)`
  recv_task :
      {f : F} {rest : List F}
      → s.phase ≡ polling
      → s.task_rx ≡ f ∷ rest
      → Step sent s sent (record s { task_rx = rest; spawned = s.spawned ++ f ∷ [] })
  -- with `None`: no task is left and all senders are dropped
  recv_none :
      s.phase ≡ polling
      → s.task_rx ≡ []
      → s.senders ≡ 0
      → Step sent s (record sent { at_poll = sent.all }) (record s { phase = breaking })
  -- `recv()` waits; `biased` polls `signal.recv()` after it
  recv_pending :
      s.phase ≡ polling
      → s.task_rx ≡ []
      → 0 < s.senders
      → Step sent s (record sent { at_poll = sent.all }) (record s { phase = checking })
  -- `signal.recv()`
  recv_signal :
      s.phase ≡ checking → s.signalled ≡ true → Step sent s sent (record s { phase = breaking })
  -- both wait; `select!` polls again later
  no_signal :
      s.phase ≡ checking → s.signalled ≡ false → Step sent s sent (record s { phase = polling })
  -- the end of the `async` block
  drop_rx : s.phase ≡ breaking → Step sent s sent (record s { phase = ended })

pub data Reach {F : Type 0} : Sent F → EventLoop F → Type 0 where
  begin : Reach (record { all = []; at_poll = [] }) new_loop
  later :
      {sent : Sent F} {s : EventLoop F} {sent' : Sent F} {t : EventLoop F}
      → Reach sent s
      → Step sent s sent' t
      → Reach sent' t

-- The loop has spawned every task that was sent, and no sender is left.
pub record IsDone {F : Type 0} (sent : Sent F) (s : EventLoop F) : Type 0 where
  pub all_spawned : s.spawned ≡ sent.all
  pub no_sender : s.senders ≡ 0

record Inv {F : Type 0} (sent : Sent F) (s : EventLoop F) : Type 0 where
  kept : s.spawned ++ s.task_rx ≡ sent.all
  polled : (s.phase ≡ polling) ⊎ (s.spawned ≡ sent.at_poll)
  left : (loops s.phase ≡ true) ⊎ (s.signalled ≡ true) ⊎ IsDone sent s
