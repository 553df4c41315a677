-- ===== src/Registry/Linked.antt =====
-- `init_node` and `Registry::get` (registry.rs): what the list behind `INIT_FNS` holds while the calls
-- that link its nodes overlap.
use dytor.Common.{
  ℕ, zero, suc, ◌<◌, ◌≡◌, ◌≢◌, refl, sym, ◌∙◌, ap, subst, arith, List, [], ◌∷◌, map, Option, none,
  some, Exec, returns, panics, ◌>>=◌, length, times, times_self, times_other, update, update_self,
  update_other, ℕ_discrete,
}
use dytor.Registry.{
  Registry, Registration, registered, registered_twice, empty_registry, ListNode, call,
  unwrap_registered, call_all, get_registry,
}
use dytor.Registry.Nodes.{
  Call, linked, loaded, stored, Nodes, Step, load, store, exchange, exchange_fails, Reach, begin,
  later, visit, get_first,
}

-- The pointers lead from `ptr` through the nodes of the list to null.
abbrev pub Chain : (ℕ → Option ℕ) → List ℕ → Option ℕ → Type 0
Chain next [] ptr = ptr ≡ none
Chain next (i ∷ is) ptr = (ptr ≡ some i) × Chain next is (next i)

abbrev pub linked_times : Call → ℕ
linked_times linked = 1
linked_times _ = 0

record Inv (pushed : List ℕ) (s : Nodes) : Type 0 where
  chain : Chain s.next pushed s.init_fns
  stores : (i : ℕ) (p : Option ℕ) → s.calls i ≡ stored p → s.next i ≡ p
  once : (i : ℕ) → times i pushed ≡ linked_times (s.calls i)

Chain-update :
    (next : ℕ → Option ℕ) (k : ℕ) (p : Option ℕ) (is : List ℕ) (ptr : Option ℕ)
    → times k is ≡ 0
    → Chain next is ptr
    → Chain (update next k p) is ptr
Chain-update next k p [] ptr h c = c
Chain-update next k p (i ∷ is) ptr h c =
    let ne : k ≢ i = ground arith in
    let rest : times k is ≡ 0 = ground arith in
    (
      c.0,
      subst (Chain (update next k p) is) (sym (update_other next k i p ne))
          (Chain-update next k p is (next i) rest c.1),
    )

-- A call that moves on without a success.
once-update :
    (pushed : List ℕ) (calls : ℕ → Call) (i : ℕ) (c : Call)
    → ((k : ℕ) → times k pushed ≡ linked_times (calls k))
    → linked_times (calls i) ≡ 0
    → linked_times c ≡ 0
    → (k : ℕ) → times k pushed ≡ linked_times (update calls i c k)
once-update pushed calls i c once before after k = elim (ℕ_discrete i k) [
  | yes e ↦
      subst (λ x. times x pushed ≡ linked_times (update calls i c x)) e
        (once i ∙ before ∙ sym after ∙ ap linked_times (sym (update_self calls i c)))
  | no ne ↦ once k ∙ ap linked_times (sym (update_other calls i k c ne))
]

stores-update :
    (next : ℕ → Option ℕ) (calls : ℕ → Call) (i : ℕ) (c : Call)
    → ((k : ℕ) (p : Option ℕ) → calls k ≡ stored p → next k ≡ p)
    → ((p : Option ℕ) → c ≢ stored p)
    → (k : ℕ) (p : Option ℕ) → update calls i c k ≡ stored p
    → next k ≡ p
stores-update next calls i c stores ne k p e = elim (ℕ_discrete i k) [
  | yes same ↦ absurd (ne p (sym (update_self calls i c) ∙ ap (update calls i c) same ∙ e))
  | no other ↦ stores k p (sym (update_other calls i k c other) ∙ e)
]

Step-Inv :
    (pushed : List ℕ) (s : Nodes) {pushed' : List ℕ} {t : Nodes}
    → Inv pushed s
    → Step pushed s pushed' t
    → Inv pushed' t
Step-Inv pushed s v (load i e) = record {
  chain = v.chain;
  stores = stores-update s.next s.calls i (loaded s.init_fns) v.stores (λ p q. cc);
  once = once-update pushed s.calls i (loaded s.init_fns) v.once (ap linked_times e) refl;
}
Step-Inv pushed s v (store i prev e) =
    let unlisted : times i pushed ≡ 0 = v.once i ∙ ap linked_times e in
    record {
      chain = Chain-update s.next i prev pushed s.init_fns unlisted v.chain;
      stores = λ k p q. elim (ℕ_discrete i k) [
        | yes same ↦
            let now_stored : stored prev ≡ stored p =
              sym (update_self s.calls i (stored prev))
              ∙ ap (update s.calls i (stored prev)) same
              ∙ q in
            let value : prev ≡ p = cc in
            subst (λ x. update s.next i prev x ≡ p) same (update_self s.next i prev ∙ value)
        | no other ↦
            update_other s.next i k prev other
            ∙ v.stores k p (sym (update_other s.calls i k (stored prev) other) ∙ q)
      ];
      once = once-update pushed s.calls i (stored prev) v.once (ap linked_times e) refl;
    }
Step-Inv pushed s v (exchange i prev e now) = record {
  chain = (refl, subst (Chain s.next pushed) (now ∙ sym (v.stores i prev e)) v.chain);
  stores = stores-update s.next s.calls i linked v.stores (λ p q. cc);
  once = λ k. elim (ℕ_discrete i k) [
    | yes same ↦
        subst (λ x. times x (i ∷ pushed) ≡ linked_times (update s.calls i linked x)) same
          (times_self i pushed
            ∙ ap suc (v.once i ∙ ap linked_times e)
            ∙ ap linked_times (sym (update_self s.calls i linked)))
    | no other ↦
        times_other i k pushed other
        ∙ v.once k
        ∙ ap linked_times (sym (update_other s.calls i k linked other))
  ];
}
Step-Inv pushed s v (exchange_fails i prev e) = record {
  chain = v.chain;
  stores = stores-update s.next s.calls i (loaded s.init_fns) v.stores (λ p q. cc);
  once = once-update pushed s.calls i (loaded s.init_fns) v.once (ap linked_times e) refl;
}

Reach-Inv : {pushed : List ℕ} {s : Nodes} → Reach pushed s → Inv pushed s
Reach-Inv begin = record { chain = refl; stores = λ i p e. cc; once = λ i. refl }
Reach-Inv (later {pushed} {s} r st) = Step-Inv pushed s (Reach-Inv r) st

after_call :
    (x : Exec (Registry × Registration)) (f : Registry → Option (Exec Registry))
    (g : Registry → Exec Registry)
    → ((r : Registry) → f r ≡ some (g r))
    → (elim (x >>= unwrap_registered) [ panics ↦ some panics | returns r ↦ f r ])
      ≡ some (x >>= λ res. unwrap_registered res >>= g)
after_call panics f g h = refl
after_call (returns (r, registered)) f g h = h r
after_call (returns (r, registered_twice)) f g h = refl

visit-Chain :
    (node : ℕ → ListNode) (next : ℕ → Option ℕ) (is : List ℕ) (ptr : Option ℕ) (r : Registry)
    (fuel : ℕ)
    → Chain next is ptr
    → length is < fuel
    → visit node next fuel ptr r ≡ some (call_all (map node is) r)
unfolding visit call_all
visit-Chain node next is ptr r zero c lt = absurd (omega arith)
visit-Chain node next [] ptr r (suc fuel) c lt = rw c
visit-Chain node next (i ∷ is) ptr r (suc fuel) c lt = rw c.0 (
    after_call (call (node i) r) (visit node next fuel (next i)) (call_all (map node is))
      (λ r'. visit-Chain node next is (next i) r' fuel c.1 (omega arith)))

-- However the accesses of the calls of `init_node` interleave, in every reachable state `Registry::get`
-- with more fuel than nodes were linked does what the loop over the linked nodes does, the last
-- linked first. Each node whose call has succeeded is in that list once, and no other is.
pub get_first-Reach :
    (node : ℕ → ListNode) {pushed : List ℕ} {s : Nodes} (fuel : ℕ)
    → Reach pushed s
    → length pushed < fuel
    → (get_first node fuel s ≡ some (get_registry (map node pushed)))
      × ((i : ℕ) → times i pushed ≡ linked_times (s.calls i))
unfolding get_first get_registry
get_first-Reach node {pushed} {s} fuel r lt =
    let v = Reach-Inv r in
    (visit-Chain node s.next pushed s.init_fns empty_registry fuel v.chain lt, v.once)
