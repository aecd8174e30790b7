-- ===== src/NodeList/Remove.antt =====
-- os_ListRemove, os_ListPopFront and os_ListContains act on the sequence as its removals and its
-- search do.
use mathlib.Core.Path.{subst}
use mini_rtos.Base.{
  ℕ, zero, suc, ◌-◌, ◌≤◌, ◌<◌, ◌≡◌, refl, false, ◌||◌, not, Option, none, some, List, [], ◌∷◌, ◌==◌,
  inl, inr, arith, count, length, Bool-cases, same_handle, is_none, if◌then◌else◌, remove,
  count-remove, update, ◌∙◌, ltb, contains, sym,
}
use mini_rtos.NodeList.{
  Node, Nodes, ListHead, set_next, set_previous, list_remove, list_pop_front, pop_node,
  contains_from, list_contains,
}
use mini_rtos.NodeList.Chain.{
  Chain, Distinct, NotIn, IsList, Chain-frame, last-mem, previous-mem, next-mem, linked-mem,
  links-agree, Succeeds, asserting-Succeeds, first-previous, last-next,
}
use mini_rtos.NodeList.Insert.{Relinked}

-- A removed node.
abbrev unlinked : Node → Node
unlinked x = record x { previous = none; next = none; linked = false }

module _ (nodes nodes' : Nodes) (t : ℕ)
    (same : (y : ℕ)
      → (y == t) ≡ false
      → nodes' y ≡ record (nodes y) {
        previous =
            if same_handle (nodes t).next (some y) then (nodes t).previous else (nodes y).previous;
        next = if same_handle (nodes t).previous (some y) then (nodes t).next else (nodes y).next;
      }) where
  -- What stands behind the node taken out closes up.
  Chain-close :
      (prev cur : Option ℕ) (xs : List ℕ) (last : Option ℕ)
      → Chain nodes (some t) cur xs last
      → Distinct (t ∷ xs)
      → NotIn prev (t ∷ xs)
      → (nodes t).previous ≡ prev
      → (nodes t).next ≡ cur
      → Chain nodes' prev cur xs (if same_handle last (some t) then prev else last)
  Chain-close prev cur [] last (e, f) d o p n = (e, ground (arith, f))
  Chain-close prev cur (x ∷ xs) last (e, q, l, c) d o p n =
      let here = same x (ground (arith, d t)) in
      let next : (nodes' x).next ≡ (nodes x).next = ground (arith, here, p, o) in
      let (y, f, h) = last-mem nodes (some t) cur x xs last (e, q, l, c) in
      let ends : same_handle last (some t) ≡ false = ground (arith, f, h, d t) in
      rw ends (
        e,
        ground (arith, here, n, e, p),
        ground (arith, here),
        rw next (
            Chain-frame nodes nodes' (some x) (nodes x).next xs last
              (λ z m. ground (arith, same z, d z, d t, n, e, p, o, d x)) c),
      )

  Chain-remove :
      (prev cur : Option ℕ) (xs : List ℕ) (last : Option ℕ)
      → Chain nodes prev cur xs last
      → Distinct xs
      → NotIn prev xs
      → 0 < count t xs
      → Chain nodes' prev
          (if same_handle cur (some t) then (nodes t).next else cur)
          (remove xs t)
          (if same_handle last (some t) then (nodes t).previous else last)
  unfolding remove
  Chain-remove prev cur [] last c d o h = absurd (ground arith)
  Chain-remove prev cur (x ∷ xs) last (e, q, l, c) d o h = elim (Bool-cases (x == t)) [
    | inl y ↦
        let found : x ≡ t = ground arith in
        let first : (if same_handle cur (some t) then (nodes t).next else cur) ≡ (nodes t).next =
          ground arith in
        let before : (nodes t).previous ≡ prev = ground arith in
        rw y (
          rw (first, before)
            (Chain-close prev (nodes t).next xs last
              (subst (λ z. Chain nodes (some z) (nodes z).next xs last) found c)
              (subst (λ z. Distinct (z ∷ xs)) found d) (subst (λ z. NotIn prev (z ∷ xs)) found o)
              before refl))
    | inr n ↦
        let here = same x n in
        let agree =
          links-agree nodes x (nodes x).next xs last t c (ground (arith, d x)) (ground arith) in
        let next : (nodes' x).next
            ≡ (if same_handle (nodes x).next (some t) then (nodes t).next else (nodes x).next) =
          ground (arith, here, agree) in
        let behind = next-mem nodes (some x) (nodes x).next xs last t c (ground arith) in
        rw n (
          ground arith,
          ground (arith, here, behind, d x),
          ground (arith, here),
          rw next (
              Chain-remove (some x) (nodes x).next xs last c (λ y. ground (arith, d y))
                (ground (arith, d x)) (ground arith)),
        )
  ]

-- The store that os_ListRemove leaves.
abbrev removed : Nodes → Option ℕ → Option ℕ → ℕ → Nodes
removed nodes before behind t =
    let bridged = set_previous (set_next nodes before behind) behind before in
    update bridged t (unlinked (bridged t))

removed_other :
    (nodes : Nodes) (before behind : Option ℕ) (t y : ℕ)
    → (y == t) ≡ false
    → removed nodes before behind t y ≡ record (nodes y) {
      previous = if same_handle behind (some y) then before else (nodes y).previous;
      next = if same_handle before (some y) then behind else (nodes y).next;
    }
unfolding set_next set_previous
removed_other nodes none none t y n = ground arith
removed_other nodes none (some b) t y n = ground arith
removed_other nodes (some a) none t y n = ground arith
removed_other nodes (some a) (some b) t y n = ground arith

bridged-owner :
    (nodes : Nodes) (before behind : Option ℕ) (y : ℕ)
    → (set_previous (set_next nodes before behind) behind before y).owner ≡ (nodes y).owner
unfolding set_next set_previous
bridged-owner nodes none none y = ground arith
bridged-owner nodes none (some b) y = ground arith
bridged-owner nodes (some a) none y = ground arith
bridged-owner nodes (some a) (some b) y = ground arith

length-remove : (xs : List ℕ) (t : ℕ) → 0 < count t xs → length (remove xs t) ≡ length xs - 1
unfolding remove
length-remove [] t h = absurd (omega arith)
length-remove (x ∷ []) t h = ground arith
length-remove (x ∷ z ∷ zs) t h = ground (arith, length-remove (z ∷ zs) t)

-- A removal: the result stands for `ys`, `t` is unlinked, and nothing else is written.
pub record Removed (nodes : Nodes) (t : ℕ) (xs ys : List ℕ) (r : Nodes × ListHead) : Type 0 where
  pub relinked : Relinked nodes t xs ys r
  pub off : r.0 t ≡ unlinked (nodes t)

set_next_other :
    (nodes : Nodes) (p q : Option ℕ) (t : ℕ)
    → same_handle p (some t) ≡ false
    → set_next nodes p q t ≡ nodes t
unfolding set_next
set_next_other nodes none q t n = refl
set_next_other nodes (some s) q t n = ground arith

nonempty : (xs : List ℕ) (t : ℕ) → 0 < count t xs → 0 < length xs
nonempty [] t h = absurd (omega arith)
nonempty (x ∷ xs) t h = omega arith

module _ (nodes : Nodes) (l : ListHead) (xs : List ℕ) (t : ℕ) (v : IsList nodes l xs)
    (mem : 0 < count t xs) where
  before-cases :
      ((y : ℕ) → count y xs ≡ 0 → same_handle (nodes t).previous (some y) ≡ false)
      × (is_none (nodes t).previous ≡ same_handle l.head (some t))
      × (same_handle (nodes t).previous (some t) ≡ false)
  before-cases = elim (previous-mem nodes none l.head xs l.tail t v.chain mem) [
    | inl (f, g) ↦ (λ y m. ground (arith, f, g, m), ground (arith, f, g), ground (arith, g))
    | inr (z, f, g, o) ↦ (
      λ y m. ground (arith, f, g, m),
      ground (arith, f, g, first-previous nodes none l.head xs l.tail t v.chain),
      ground (arith, f, o),
    )
  ]

  behind-cases :
      ((y : ℕ) → count y xs ≡ 0 → same_handle (nodes t).next (some y) ≡ false)
      × (is_none (nodes t).next ≡ same_handle l.tail (some t))
  behind-cases = elim (next-mem nodes none l.head xs l.tail t v.chain mem) [
    | inl (f, g) ↦ (λ y m. ground (arith, f, g, m), ground (arith, f, g))
    | inr (z, f, g) ↦
        (λ y m. ground (arith, f, g, m), ground (arith, f, g, ends_last l.tail xs v.chain mem))
  ]
    where
      ends_last :
          (last : Option ℕ) (ys : List ℕ)
          → Chain nodes none l.head ys last
          → 0 < count t ys
          → last ≡ some t
          → (nodes t).next ≡ none
      ends_last last [] c h e = absurd (ground arith)
      ends_last last (x ∷ ys) c h e = last-next nodes none l.head x ys last t c e

  removed_head : ListHead
  removed_head = record {
    head = if is_none (nodes t).previous then (nodes t).next else l.head;
    tail = if is_none (nodes t).next then (nodes t).previous else l.tail;
    size = l.size - 1;
  }

  removed-Removed :
      Removed nodes t xs
        (remove xs t)
        (removed nodes (nodes t).previous (nodes t).next t, removed_head)
  unfolding removed_head
  removed-Removed =
      let other = removed_other nodes (nodes t).previous (nodes t).next t in
      let owner = bridged-owner nodes (nodes t).previous (nodes t).next in
      let chain =
        Chain-remove nodes (removed nodes (nodes t).previous (nodes t).next t) t other none l.head
          xs l.tail v.chain v.distinct tt mem in
      record {
        relinked = record {
          list = record {
            chain = rw (before-cases.1, behind-cases.1) chain;
            size = ground (arith, v.size, length-remove xs t mem);
            distinct = λ y. ground (arith, v.distinct y, count-remove y xs t mem);
          };
          others = λ y n m. other y n ∙ ground (arith, before-cases.0 y m, behind-cases.0 y m);
          owners = λ y. ground (arith, owner y);
        };
        off = ground (arith, owner t);
      }

  -- On a list head that stands for the nodes xs, os_ListRemove of one of them passes its
  -- assertions, leaves a list that stands for xs without it, unlinks it, writes no node outside
  -- xs, and keeps every owner.
  pub list_remove-Removed : Succeeds (Removed nodes t xs (remove xs t)) (list_remove nodes l t)
  unfolding list_remove removed_head
  list_remove-Removed =
      let P = Removed nodes t xs (remove xs t) in
      -- The second write finds the links of the node as the first one left them.
      let passed = set_next_other nodes (nodes t).previous (nodes t).next t before-cases.2 in
      let behind = behind-cases.1 in
      asserting-Succeeds P (nodes t).linked _ (linked-mem nodes none l.head xs l.tail t v.chain mem)
        (asserting-Succeeds P (ltb 0 l.size) _ (ground (arith, v.size, nonempty xs t mem)) (
          asserting-Succeeds P (not (is_none (nodes t).previous) || same_handle l.head (some t)) _
            (ground (arith, before-cases.1))
            (rw passed (
              asserting-Succeeds P (not (is_none (nodes t).next) || same_handle l.tail (some t)) _
                (ground (arith, behind)) removed-Removed))))

remove-head : (t : ℕ) (xs : List ℕ) → remove (t ∷ xs) t ≡ xs
unfolding remove
remove-head t xs = ground arith

module _ (nodes : Nodes) (l : ListHead) (t : ℕ) (xs : List ℕ) (v : IsList nodes l (t ∷ xs)) where
  -- The store and the list head that a removal leaves, from the node in front of the one removed
  taken : Option ℕ → Nodes × ListHead
  taken before = (
    removed nodes before (nodes t).next t,
    record {
      head = if is_none before then (nodes t).next else l.head;
      tail = if is_none (nodes t).next then before else l.tail;
      size = l.size - 1;
    },
  )

  pop_node-Removed : Removed nodes t (t ∷ xs) xs (pop_node nodes l (some t)).0
  unfolding pop_node taken removed_head set_next
  pop_node-Removed =
      subst (λ ys. Removed nodes t (t ∷ xs) ys (taken none)) (remove-head t xs)
        (subst (λ b. Removed nodes t (t ∷ xs) (remove (t ∷ xs) t) (taken b)) (v.chain.1)
          (removed-Removed nodes l (t ∷ xs) t v (ground arith)))

  -- On a list head that stands for a node t and then xs, os_ListPopFront returns t, leaves a list
  -- that stands for xs, unlinks t, writes no other node outside xs, and keeps every owner.
  pub list_pop_front-Removed :
      Removed nodes t (t ∷ xs) xs (list_pop_front nodes l).0 × ((list_pop_front nodes l).1 ≡ some t)
  unfolding list_pop_front pop_node
  list_pop_front-Removed =
      subst
        (λ h.
          Removed nodes t (t ∷ xs) xs (pop_node nodes l h).0 × ((pop_node nodes l h).1 ≡ some t))
        (sym v.chain.0) (pop_node-Removed, refl)

contains_from-contains :
    (n : ℕ) (nodes : Nodes) (prev cur : Option ℕ) (xs : List ℕ) (last : Option ℕ) (t : ℕ)
    → Chain nodes prev cur xs last
    → length xs ≤ n
    → contains_from n nodes cur t ≡ contains xs t
unfolding contains_from
contains_from-contains zero nodes prev cur [] last t c h = refl
contains_from-contains zero nodes prev cur (x ∷ xs) last t c h = absurd (omega arith)
contains_from-contains (suc n) nodes prev none [] last t c h = refl
contains_from-contains (suc n) nodes prev (some y) [] last t c h = absurd (ground arith)
contains_from-contains (suc n) nodes prev none (x ∷ xs) last t c h = absurd (ground arith)
contains_from-contains (suc n) nodes prev (some y) (x ∷ xs) last t (e, p, l, c) h =
    ground (arith, contains_from-contains n nodes (some x) (nodes x).next xs last t c (omega arith))

-- On a list head that stands for at most nine nodes, the bounded walk of os_ListContains says
-- whether the node is among them.
pub list_contains-contains :
    (nodes : Nodes) (l : ListHead) (xs : List ℕ) (t : ℕ)
    → IsList nodes l xs
    → length xs ≤ 9
    → list_contains nodes (some l) (some t) ≡ contains xs t
unfolding list_contains
list_contains-contains nodes l xs t v h =
    contains_from-contains 9 nodes none l.head xs l.tail t v.chain h
