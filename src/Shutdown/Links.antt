-- ===== src/Shutdown/Links.antt =====
-- The links of a context (runtime/mod.rs): which context each leads to, and which link the index that
-- `run_thread` computes finds, which is not the one to the context that a message is for.
use dytor.Common.{
  subst, ℕ, zero, suc, ◌+◌, ◌-◌, ◌≤◌, ◌<◌, ◌≡◌, ◌≢◌, refl, arith, ◌==◌, if◌then◌else◌, ltb,
  get_elem?, true, false, >>=-eq-returns, returns, panics, some, none, All, List, [], ◌∷◌, length,
  ℕ_discrete, dec_lt,
}
use dytor.Shutdown.{links_from, links, link_index, link}
use dytor.Context.{ContextId, as_index}

abbrev pub Linked : ℕ → ℕ → ℕ → Type 0
Linked n i j = (j < n) × (i ≢ j)

links_from-Linked : (n k j i : ℕ) → j + k ≡ n → All (Linked n i) (links_from k j i)
unfolding links_from
links_from-Linked n zero j i e = tt
links_from-Linked n (suc k) j i e = elim (ℕ_discrete i j) [
  | yes same ↦
      let t : (i == j) ≡ true = ground arith in rw t (links_from-Linked n k (suc j) i (omega arith))
  | no other ↦
      let t : (i == j) ≡ false = ground arith in
      rw t ((omega arith, other), links_from-Linked n k (suc j) i (omega arith))
]

pub links-Linked : (n i : ℕ) → All (Linked n i) (links n i)
unfolding links
links-Linked n i = links_from-Linked n n 0 i (omega arith)

pub get-Linked :
    (n i : ℕ) (js : List ℕ) (k j : ℕ) → All (Linked n i) js → get_elem? js k ≡ some j → Linked n i j
get-Linked n i [] k j a h = absurd (cc)
get-Linked n i (x ∷ js) zero j a h = subst (Linked n i) (cc) a.0
get-Linked n i (x ∷ js) (suc k) j a h = get-Linked n i js k j a.1 h

-- The links from `j` on, where `i` lies before `j`.
links_from_past : (k j i d : ℕ) → d < k → i < j → get_elem? (links_from k j i) d ≡ some (j + d)
unfolding links_from
links_from_past zero j i d h lt = absurd (omega arith)
links_from_past (suc k) j i zero h lt = ground arith
links_from_past (suc k) j i (suc d) h lt = ground (arith, links_from_past k (suc j) i d)

-- Those for the contexts before `i`.
links_from_before :
    (k j i d : ℕ) → d < k → j + d < i → get_elem? (links_from k j i) d ≡ some (j + d)
unfolding links_from
links_from_before zero j i d h lt = absurd (omega arith)
links_from_before (suc k) j i zero h lt = ground arith
links_from_before (suc k) j i (suc d) h lt = ground (arith, links_from_before k (suc j) i d)

-- Those for the contexts behind `i`.
links_from_after :
    (k j i d : ℕ)
    → suc d < k
    → j ≤ i
    → i < j + suc d
    → get_elem? (links_from k j i) d ≡ some (j + suc d)
unfolding links_from
links_from_after zero j i d h le lt = absurd (omega arith)
links_from_after (suc k) j i zero h le lt = ground (arith, links_from_past k (suc j) i 0)
links_from_after (suc k) j i (suc d) h le lt =
    ground (arith, links_from_past k (suc j) i (suc d), links_from_after k (suc j) i d)

-- The links of a context cover the others in order: the one to `rx` stands at the index of `rx` if
-- `rx` comes before the context, and one place earlier if it comes behind.
pub links-get :
    (n i r : ℕ) → r < n → i ≢ r → get_elem? (links n i) (if ltb i r then r - 1 else r) ≡ some r
unfolding links
links-get n i zero h ne = ground (arith, links_from_before n 0 i 0)
links-get n i (suc r) h ne = elim (dec_lt i (suc r)) [
  | yes behind ↦
      let t : ltb i (suc r) ≡ true = ground arith in
      let e : suc r - 1 ≡ r = omega arith in rw (t, e) (ground (arith, links_from_after n 0 i r))
  | no before ↦
      let t : ltb i (suc r) ≡ false = ground arith in
      rw t (ground (arith, links_from_before n 0 i (suc r)))
]

length-links_past : (k j i : ℕ) → i < j → length (links_from k j i) ≡ k
unfolding links_from
length-links_past zero j i h = refl
length-links_past (suc k) j i h = ground (arith, length-links_past k (suc j) i)

length-links_from : (k j i : ℕ) → j ≤ i → i < j + k → suc (length (links_from k j i)) ≡ k
unfolding links_from
length-links_from zero j i h lt = absurd (omega arith)
length-links_from (suc k) j i h lt =
    ground (arith, length-links_past k (suc j) i, length-links_from k (suc j) i)

get-length : (xs : List ℕ) (k : ℕ) → length xs ≤ k → get_elem? xs k ≡ none
get-length [] k h = refl
get-length (x ∷ xs) zero h = absurd (omega arith)
get-length (x ∷ xs) (suc k) h = get-length xs k (omega arith)

-- Behind the last link there is none.
pub links-end : (n i k : ℕ) → i < n → n ≤ suc k → get_elem? (links n i) k ≡ none
unfolding links
links-end n i k h le =
    get-length (links_from n 0 i) k
      (omega (arith, length-links_from n 0 i (omega arith) (omega arith)))

-- A link for a receiver before the sender, in terms of indices.
link-before :
    (n i r : ℕ)
    → i < n
    → r < i
    → link n i (suc i) (suc r) ≡ (if r == 0 then panics else returns (r - 1))
unfolding link
link-before n i zero h lt = ground arith
link-before n i (suc r) h lt =
    let t : ltb i r ≡ false = ground arith in
    ground (arith, rw t at (links-get n i r (omega arith) (omega arith)))

link-behind :
    (n i r : ℕ)
    → r < n
    → i < r
    → link n i (suc i) (suc r) ≡ (if suc r == n then panics else returns (suc r))
unfolding link
link-behind n i r h lt = elim (dec_lt (suc r) n) [
  | yes more ↦
      let t : ltb i (suc r) ≡ true = ground arith in
      let e : suc r - 1 ≡ r = omega arith in
      ground (arith, rw (t, e) at (links-get n i (suc r) more (omega arith)))
  | no last ↦ ground (arith, links-end n i r (omega arith) (omega arith))
]

-- The index that `run_thread` computes for a message from context `id` to another context `rx` never
-- finds the link to `rx`: it leads to the context before `rx` if `rx` comes before the sender, and
-- to the one behind `rx` if it comes behind, and where there is no such context it panics.
pub link_misses :
    (n : ℕ) (id rx : ContextId)
    → 1 ≤ id
    → id ≤ n
    → 1 ≤ rx
    → rx ≤ n
    → id ≢ rx
    → link n (as_index id) id rx ≡ (
        if ltb rx id
        then (if rx == 1 then panics else returns (as_index rx - 1))
        else (if rx == n then panics else returns (as_index rx + 1)))
link_misses n zero rx a b c d ne = absurd (omega arith)
link_misses n (suc i) zero a b c d ne = absurd (omega arith)
link_misses n (suc i) (suc r) a b c d ne = elim (dec_lt r i) [
  | yes before ↦
      let x : suc i - 1 ≡ i = omega arith in
      let y : suc r - 1 ≡ r = omega arith in
      rw (x, y) (ground (arith, link-before n i r (omega arith) before))
  | no behind ↦
      let x : suc i - 1 ≡ i = omega arith in
      let y : suc r - 1 ≡ r = omega arith in
      let z : r + 1 ≡ suc r = omega arith in
      rw (x, y, z) (ground (arith, link-behind n i r (omega arith) (omega arith)))
]

-- Whatever context a message is sent to, it is another one.
pub link-Linked : (n i : ℕ) (id rx : ContextId) (j : ℕ) → link n i id rx ≡ returns j → Linked n i j
unfolding link
link-Linked n i id rx j h =
    let (k, _, e) = >>=-eq-returns (link_index id rx) _ h in
    get-Linked n i (links n i) k j (links-Linked n i) (ground arith)
