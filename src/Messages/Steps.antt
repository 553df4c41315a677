-- ===== src/Messages/Steps.antt =====
-- The loops over the local queue (runtime/mod.rs) as runs of steps of the thread.
use dytor.Common.{
  ℕ, zero, suc, ◌<◌, ◌≡◌, ◌⊎◌, refl, sym, ap, subst, arith, true, List, [], ◌∷◌, none, some,
  Option-cases, inl, inr, u32_mod, update, update_self,
}
use dytor.Arena.{Arena, Offset}
use dytor.Queue.{LocalQueue, recv}
use dytor.Context.{ContextId, ContextData, Msg, BroadcastGroup, send_msg, broadcast, route}
use dytor.Messages.{
  ArgsCall, send_to, broadcast_to, Thread, perform, call_on, call_each, run_msg, drain_local,
}
use dytor.Shutdown.{
  first_drain, running, acts, Ctx, System, Move, send_from, run_local, run_next, Step, move, Reach,
  later, load, cell,
}
use dytor.Shutdown.Sums.{sum-update}
use dytor.Shutdown.Reachable.{Reach-Inv}

pub recv-none : {A : Type 0} (q : LocalQueue A) → recv q ≡ none → q ≡ []
unfolding recv
recv-none [] e = refl
recv-none (x ∷ q) e = elim (Option-cases (recv q)) [
  | inl f ↦ absurd (cc (rw (recv, f) at e))
  | inr (y, f) ↦ absurd (cc (rw (recv, f) at e))
]

-- A system in which one context is another.
abbrev pub with_ctx : {M : Type 0} → System M → ℕ → Ctx M → System M
with_ctx s i c = record s { ctxs = update s.ctxs i c }

abbrev with_data : {M : Type 0} → Ctx M → ContextData M → Ctx M
with_data c d = record c { data_of = d }

-- A thread in one of the two loops over the local queue.
abbrev pub InLoop : {M : Type 0} → Ctx M → Type 0
InLoop c = (c.pc ≡ first_drain) ⊎ (c.pc ≡ running)

update_twice : {A : Type 0} (f : ℕ → A) (i : ℕ) (a b : A) → update (update f i a) i b ≡ update f i b
update_twice f i a b k j = pointwise j k
  where
    pointwise : (j : ℕ) → update (update f i a) i b j ≡ update f i b j
    pointwise j = ground arith

module _ {M : Type 0} (n : ℕ) (s : System M) (i : ℕ) (inside : i < n) where
  -- One more step of the thread, which leaves the control block and the count of its events.
  again :
      (c c' : Ctx M)
      → Reach n (with_ctx s i c)
      → Move n i s.block c s.block c'
      → cell c' ≡ cell c
      → Reach n (with_ctx s i c')
  again c c' r mv same =
      let self = update_self s.ctxs i c in
      let step : Step n (with_ctx s i c) (with_ctx (with_ctx s i c) i c') =
        move i inside (subst (λ x. Move n i s.block x s.block c') (sym self) mv) in
      let room : load n (with_ctx (with_ctx s i c) i c') < u32_mod = omega (
        arith,
        sum-update cell n (update s.ctxs i c) i c' inside,
        ap cell self,
        (Reach-Inv n r).small,
        same,
      ) in
      subst (λ fs. Reach n (record { block = s.block; ctxs = fs })) (update_twice s.ctxs i c c')
        (later r step room)

  cell-with_data :
      (c : Ctx M) (d d' : ContextData M) → InLoop c → cell (with_data c d') ≡ cell (with_data c d)
  cell-with_data c d d' (inl e) = rw e refl
  cell-with_data c d d' (inr e) = rw e refl

  acting : (c : Ctx M) → InLoop c → acts c.pc ≡ true
  acting c (inl e) = rw e refl
  acting c (inr e) = rw e refl

  route-Reach :
      (c : Ctx M) (d : ContextData M) (to : ContextId) (m : M)
      → InLoop c
      → Reach n (with_ctx s i (with_data c d))
      → Reach n (with_ctx s i (with_data c (route d to m)))
  route-Reach c d to m l r =
      again (with_data c d) (with_data c (route d to m)) r (send_from (acting c l) to m)
        (cell-with_data c d (route d to m) l)

  recv-Reach :
      (c : Ctx M) (d : ContextData M) (m : M) (rest : LocalQueue M)
      → InLoop c
      → recv d.local_queue ≡ some (m, rest)
      → Reach n (with_ctx s i (with_data c d))
      → Reach n (with_ctx s i (with_data c (record d { local_queue = rest })))
  recv-Reach c d m rest l e r =
      again (with_data c d) (with_data c (record d { local_queue = rest })) r (taken l)
        (cell-with_data c d (record d { local_queue = rest }) l)
    where
      taken :
          InLoop c
          → Move n i s.block (with_data c d) s.block (with_data c (record d { local_queue = rest }))
      taken (inl p) = run_local p e
      taken (inr p) = run_next p e

module _ {Meta F S : Type 0} (code : F → ℕ → Meta → S → S × List (ArgsCall Meta F)) (arena : Arena)
    (n : ℕ) (s : System (Msg Meta F)) (i : ℕ) (inside : i < n) (c : Ctx (Msg Meta F))
    (loops : InLoop c) where
  -- The thread has reached the state in which its data is `d`.
  abbrev At : ContextData (Msg Meta F) → Type 0
  At d = Reach n (with_ctx s i (with_data c d))

  broadcast-At :
      (d : ContextData (Msg Meta F)) (group : BroadcastGroup Meta) (f : F)
      → At d
      → At (broadcast d group f)
  unfolding broadcast
  broadcast-At d [] f r = r
  broadcast-At d ((id, refs) ∷ group) f r =
      let m : Msg Meta F = record { refs = refs; call = f } in
      broadcast-At (route d id m) group f (route-Reach n s i inside c d id m loops r)

  perform-At :
      (d : ContextData (Msg Meta F)) (calls : List (ArgsCall Meta F)) → At d → At (perform d calls)
  unfolding perform send_msg
  perform-At d [] r = r
  perform-At d (send_to key f ∷ calls) r =
      let m : Msg Meta F = record { refs = (key.loc.offset, key.meta) ∷ []; call = f } in
      perform-At (send_msg d key f) calls
        (route-Reach n s i inside c d key.loc.context_id m loops r)
  perform-At d (broadcast_to group f ∷ calls) r =
      perform-At (broadcast d group f) calls (broadcast-At d group f r)

  pub call_each-At :
      (f : F) (refs : List (Offset × Meta)) (th : Thread Meta F S)
      → At th.data_of
      → At (call_each code arena f refs th).data_of
  call_each-At f [] th r = r
  call_each-At f (ref ∷ refs) th r =
      call_each-At f refs (call_on code arena f ref th) (perform-At th.data_of _ r)

  pub drain_local-At :
      (fuel : ℕ) (th th' : Thread Meta F S)
      → At th.data_of
      → drain_local code arena fuel th ≡ some th'
      → At th'.data_of × (th'.data_of.local_queue ≡ [])
  unfolding drain_local
  drain_local-At zero th th' r e = absurd (cc)
  drain_local-At (suc fuel) th th' r e = elim (Option-cases (recv th.data_of.local_queue)) [
    | inl empty ↦
        let same : th ≡ th' = cc (rw (drain_local, empty) at e) in
        subst (λ t. At t.data_of × (t.data_of.local_queue ≡ [])) same
          (r, recv-none th.data_of.local_queue empty)
    | inr ((m, rest), found) ↦
        let th1 : Thread Meta F S = record th {
          data_of = record (th.data_of) { local_queue = rest };
        } in
        drain_local-At fuel (run_msg code arena m th1) th'
          (call_each-At m.call m.refs th1
            (recv-Reach n s i inside c th.data_of m rest loops found r))
          (rw (drain_local, found) at e)
  ]
