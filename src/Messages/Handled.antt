-- ===== src/Messages/Handled.antt =====
-- The executable `handle` of a message against the steps of the threads in the module Shutdown.
use dytor.Common.{
  ℕ, zero, suc, ◌+◌, ◌<◌, ◌≡◌, refl, arith, List, [], ◌∷◌, Option, some, Option-cases, inl, inr,
}
use dytor.Arena.{Arena}
use dytor.Queue.{LocalQueue, recv}
use dytor.Context.{Msg}
use dytor.Messages.{ArgsCall, Thread, run_msg, drain_local, handle}
use dytor.Shutdown.{
  QueueItem, msg, waiting, running, Ctx, System, recv_msg, move, Reach, later, cell,
}
use dytor.Shutdown.Sums.{sum-update}
use dytor.Messages.Steps.{with_ctx, call_each-At, drain_local-At, recv-none}
use dytor.Shutdown.Reachable.{Reach-Inv}

-- The sum of a weight over a queue.
abbrev pub weigh : {M : Type 0} → (M → ℕ) → List M → ℕ
weigh w [] = 0
weigh w (m ∷ ms) = w m + weigh w ms

recv-weigh :
    {M : Type 0} (w : M → ℕ) (q rest : LocalQueue M) (m : M)
    → recv q ≡ some (m, rest)
    → weigh w q ≡ w m + weigh w rest
unfolding recv
recv-weigh w [] rest m e = absurd (cc)
recv-weigh w (x ∷ q) rest m e = elim (Option-cases (recv q)) [
  | inl f ↦
      let got : ◌≡◌ {A = Option (_ × LocalQueue _)} (some (x, [])) (some (m, rest)) =
        rw (recv, f) at e in
      let one : x ≡ m = cc in
      let none_left : [] ≡ rest = cc in rw (← one, ← none_left, recv-none q f) refl
  | inr ((y, r), f) ↦
      let got : ◌≡◌ {A = Option (_ × LocalQueue _)} (some (y, x ∷ r)) (some (m, rest)) =
        rw (recv, f) at e in
      let one : y ≡ m = cc in
      let left : x ∷ r ≡ rest = cc in rw (← one, ← left) (omega (arith, recv-weigh w q r y f))
]

module _ {Meta F S : Type 0} (code : F → ℕ → Meta → S → S × List (ArgsCall Meta F)) (arena : Arena)
    (weight : Msg Meta F → ℕ)
    (lighter : (m : Msg Meta F) (th : Thread Meta F S)
      → weigh weight (run_msg code arena m th).data_of.local_queue
        < weigh weight th.data_of.local_queue + weight m) where
  drain_local-returns :
      (fuel : ℕ) (th : Thread Meta F S)
      → weigh weight th.data_of.local_queue < fuel
      → (th' : Thread Meta F S) × (drain_local code arena fuel th ≡ some th')
  unfolding drain_local
  drain_local-returns zero th h = absurd (omega arith)
  drain_local-returns (suc fuel) th h = elim (Option-cases (recv th.data_of.local_queue)) [
    | inl empty ↦ (th, rw (drain_local, empty) refl)
    | inr ((m, rest), found) ↦
        let th1 : Thread Meta F S = record th {
          data_of = record (th.data_of) { local_queue = rest };
        } in
        let room : weigh weight (run_msg code arena m th1).data_of.local_queue < fuel =
          omega (arith, lighter m th1, recv-weigh weight th.data_of.local_queue rest m found) in
        let (th', e) = drain_local-returns fuel (run_msg code arena m th1) room in
        (th', rw (drain_local, found) e)
  ]

  -- If every message weighs more than the messages that it leaves in the local queue when it is run,
  -- then a thread that has received a message handles it: with fuel for the weight of all, running it
  -- and the local messages ends, with the local queue empty, and the thread with the data that this
  -- leaves, before it looks at its unsent messages, is a state that the steps of the threads reach
  -- from any reachable state in which the thread waits and that message is the first in its queue.
  pub handle-Reach :
      (n : ℕ) (s : System (Msg Meta F)) (i : ℕ) (m : Msg Meta F) (q : List (QueueItem (Msg Meta F)))
      (objects : S) (fuel : ℕ)
      → i < n
      → Reach n s
      → (s.ctxs i).pc ≡ waiting
      → (s.ctxs i).queue ≡ msg m ∷ q
      → weigh weight (s.ctxs i).data_of.local_queue + weight m < fuel
      → (th : Thread Meta F S) × (handle code arena fuel m
            (record { data_of = (s.ctxs i).data_of; objects = objects })
          ≡ some th)
        × (th.data_of.local_queue ≡ [])
        × Reach n
            (with_ctx s i (record (s.ctxs i) { pc = running; data_of = th.data_of; queue = q }))
  unfolding handle
  handle-Reach n s i m q objects fuel inside r waits first room =
      let c : Ctx (Msg Meta F) = record (s.ctxs i) { pc = running; queue = q } in
      let th0 : Thread Meta F S = record { data_of = (s.ctxs i).data_of; objects = objects } in
      let (th, e) =
        drain_local-returns fuel (run_msg code arena m th0) (omega (arith, lighter m th0)) in
      let same : cell c ≡ cell (s.ctxs i) = ground arith in
      let begun : Reach n (with_ctx s i c) =
        later r (move i inside (recv_msg waits first))
          (omega (arith, sum-update cell n s.ctxs i c inside, same, (Reach-Inv n r).small)) in
      let (reached, empty) =
        drain_local-At code arena n s i inside c (inr refl) fuel (run_msg code arena m th0) th
          (call_each-At code arena n s i inside c (inr refl) m.call m.refs th0 begun) e in
      (th, e, empty, reached)
