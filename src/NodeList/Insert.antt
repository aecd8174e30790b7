-- ===== src/NodeList/Insert.antt =====
-- os_ListPushBack and os_ListInsertBefore act on the sequence as its insertions do.
use mini_rtos.Base.{
  ℕ, ◌+◌, ◌<◌, ◌≡◌, refl, true, false, ◌||◌, not, Option, none, some, List, [], ◌∷◌, ◌==◌, inl, inr,
  arith, count, length, Bool-cases, same_handle, is_empty, is_none, if◌then◌else◌, push_back,
  insert_before, count-push_back, count-insert_before, update, ap, ◌∙◌,
}
use mini_rtos.NodeList.{
  Node, Nodes, ListHead, set_next, set_previous, list_push_back, list_insert_before,
}
use mini_rtos.NodeList.Chain.{
  Chain, Distinct, NotIn, IsList, Chain-frame, last-mem, previous-mem, linked-mem, links-agree,
  Succeeds, asserting-Succeeds, first-previous,
}

-- The result stands for `ys`; no other node than `t` and those of `xs` is written, and no owner.
pub record Relinked (nodes : Nodes) (t : ℕ) (xs ys : List ℕ) (r : Nodes × ListHead) : Type 0 where
  pub list : IsList r.0 r.1 ys
  pub others : (y : ℕ) → (y == t) ≡ false → count y xs ≡ 0 → r.0 y ≡ nodes y
  pub owners : (y : ℕ) → (r.0 y).owner ≡ (nodes y).owner

module _ (nodes nodes' : Nodes) (t : ℕ) where
  Chain-push_back :
      (prev cur : Option ℕ) (xs : List ℕ) (last : Option ℕ)
      → Chain nodes prev cur xs last
      → Distinct xs
      → count t xs ≡ 0
      → nodes' t ≡ record (nodes t) { previous = last; next = none; linked = true }
      → ((y : ℕ)
          → (y == t) ≡ false
          → nodes' y ≡ record (nodes y) {
            next = if same_handle last (some y) then some t else (nodes y).next;
          })
      → Chain nodes' prev (if is_empty xs then some t else cur) (push_back xs t) (some t)
  Chain-push_back prev cur [] last (e, f) d out new same =
      (refl, ground (arith, new), ground (arith, new), (ground (arith, new), refl))
  Chain-push_back prev cur (x ∷ []) last (e, p, l, (f, g)) d out new same =
      let here = same x (ground arith) in
      (
        e,
        ground (arith, here),
        ground (arith, here),
        (
          ground (arith, here),
          ground (arith, new),
          ground (arith, new),
          (ground (arith, new), refl),
        ),
      )
  Chain-push_back prev cur (x ∷ z ∷ zs) last (e, p, l, c) d out new same =
      let (y, f, h) = last-mem nodes (some x) (nodes x).next z zs last c in
      let here = same x (ground arith) in
      let next : (nodes' x).next ≡ (nodes x).next = ground (arith, here, d x) in
      (
        e,
        ground (arith, here),
        ground (arith, here),
        rw next (
            Chain-push_back (some x) (nodes x).next (z ∷ zs) last c (λ y. ground (arith, d y))
              (ground arith) new same),
      )

  -- `t` in front of the member `p`
  module _ (p : ℕ) (apart : (p == t) ≡ false)
      (new : nodes' t
        ≡ record (nodes t) { previous = (nodes p).previous; next = some p; linked = true })
      (same : (y : ℕ)
        → (y == t) ≡ false
        → nodes' y ≡ record (nodes y) {
          previous = if y == p then some t else (nodes y).previous;
          next = if same_handle (nodes p).previous (some y) then some t else (nodes y).next;
        }) where
    Chain-insert_before :
        (prev cur : Option ℕ) (xs : List ℕ) (last : Option ℕ)
        → Chain nodes prev cur xs last
        → Distinct xs
        → NotIn prev xs
        → count t xs ≡ 0
        → 0 < count p xs
        → Chain nodes' prev
            (if same_handle cur (some p) then some t else cur)
            (insert_before xs p t)
            last
    unfolding insert_before
    Chain-insert_before prev cur [] last c d o out h = absurd (ground arith)
    Chain-insert_before prev cur (x ∷ xs) last (e, q, l, c) d o out h = elim (Bool-cases (x == p)) [
      | inl y ↦
          let here = same x (ground arith) in
          let next : (nodes' x).next ≡ (nodes x).next = ground (arith, here) in
          rw y (
            ground arith,
            ground (arith, new),
            ground (arith, new),
            (
              ground (arith, new),
              ground (arith, here),
              ground (arith, here),
              rw next (
                  Chain-frame nodes nodes' (some x) (nodes x).next xs last
                    (λ z m. ground (arith, same z, d z, here)) c),
            ),
          )
      | inr n ↦
          let here = same x (ground arith) in
          let agree =
            links-agree nodes x (nodes x).next xs last p c (ground (arith, d x)) (ground arith) in
          let next : (nodes' x).next
              ≡ (if same_handle (nodes x).next (some p) then some t else (nodes x).next) =
            ground (arith, here, agree) in
          rw n (
            ground arith,
            ground (arith, here),
            ground (arith, here),
            rw next (
                Chain-insert_before (some x) (nodes x).next xs last c (λ y. ground (arith, d y))
                  (ground (arith, d x)) (ground arith) (ground arith)),
          )
    ]

-- The last node is not one that is not in the list.
last-apart :
    (nodes : Nodes) (cur : Option ℕ) (xs : List ℕ) (last : Option ℕ) (t : ℕ)
    → Chain nodes none cur xs last
    → count t xs ≡ 0
    → (same_handle last (some t) ≡ false) × (is_none last ≡ is_empty xs)
last-apart nodes cur [] last t c out = ground arith
last-apart nodes cur (x ∷ xs) last t c out =
    let (y, f, h) = last-mem nodes none cur x xs last c in ground (arith, f, h)

length-push_back : (xs : List ℕ) (t : ℕ) → length (push_back xs t) ≡ length xs + 1
length-push_back [] t = omega arith
length-push_back (x ∷ xs) t = omega (arith, length-push_back xs t)

length-insert_before : (xs : List ℕ) (p t : ℕ) → length (insert_before xs p t) ≡ length xs + 1
unfolding insert_before
length-insert_before [] p t = omega arith
length-insert_before (x ∷ xs) p t = ground (arith, length-insert_before xs p t)

-- The store that os_ListPushBack leaves.
abbrev pushed : Nodes → Option ℕ → ℕ → Nodes
pushed nodes last t =
    let placed = update nodes t (record (nodes t) { previous = last; next = none }) in
    let reached = set_next placed last (some t) in
    update reached t (record (reached t) { linked = true })

pushed_self :
    (nodes : Nodes) (last : Option ℕ) (t : ℕ)
    → same_handle last (some t) ≡ false
    → pushed nodes last t t ≡ record (nodes t) { previous = last; next = none; linked = true }
unfolding set_next
pushed_self nodes none t n = ground arith
pushed_self nodes (some s) t n = ground arith

pushed_other :
    (nodes : Nodes) (last : Option ℕ) (t y : ℕ)
    → (y == t) ≡ false
    → pushed nodes last t y
      ≡ record (nodes y) { next = if same_handle last (some y) then some t else (nodes y).next }
unfolding set_next
pushed_other nodes none t y n = ground arith
pushed_other nodes (some s) t y n = ground arith

module _ (nodes : Nodes) (l : ListHead) (xs : List ℕ) (t : ℕ) (v : IsList nodes l xs)
    (out : count t xs ≡ 0) (free : (nodes t).linked ≡ false) where
  pushed-Relinked : Relinked nodes t xs (push_back xs t) (
    pushed nodes l.tail t,
    record { head = if is_none l.tail then some t else l.head; tail = some t; size = l.size + 1 },
  )
  pushed-Relinked =
      let (apart, empty) = last-apart nodes l.head xs l.tail t v.chain out in
      let self = pushed_self nodes l.tail t apart in
      let chain =
        Chain-push_back nodes (pushed nodes l.tail t) t none l.head xs l.tail v.chain v.distinct out
          self (pushed_other nodes l.tail t) in
      record {
        list = record {
          chain = rw empty chain;
          size = ground (arith, v.size, length-push_back xs t);
          distinct = λ y. ground (arith, v.distinct y, count-push_back y xs t, out);
        };
        others = λ y n m.
            pushed_other nodes l.tail t y n
            ∙ ground (arith, last-apart nodes l.head xs l.tail y v.chain m);
        owners = λ y. elim (Bool-cases (y == t)) [
          | inl e ↦ let same : y ≡ t = ground arith in rw same (ap (λ (x : Node). x.owner) self)
          | inr n ↦ ap (λ (x : Node). x.owner) (pushed_other nodes l.tail t y n)
        ];
      }

  -- On a list head that stands for the nodes xs, linked both ways and no node twice,
  -- os_ListPushBack of a free node that is not in xs passes its assertions, leaves a list that
  -- stands for xs with the node appended, writes no node but that one and those of xs, and keeps
  -- every owner.
  pub list_push_back-Relinked :
      Succeeds (Relinked nodes t xs (push_back xs t)) (list_push_back nodes l t)
  unfolding list_push_back
  list_push_back-Relinked =
      asserting-Succeeds (Relinked nodes t xs (push_back xs t)) (not (nodes t).linked) _
        (ground (arith, free)) pushed-Relinked

-- The store that os_ListInsertBefore leaves.
abbrev inserted : Nodes → Option ℕ → ℕ → ℕ → Nodes
inserted nodes before p t =
    let placed = update nodes t (record (nodes t) { previous = before; next = some p }) in
    let reached = set_previous (set_next placed before (some t)) (some p) (some t) in
    update reached t (record (reached t) { linked = true })

inserted_self :
    (nodes : Nodes) (before : Option ℕ) (p t : ℕ)
    → (p == t) ≡ false
    → same_handle before (some t) ≡ false
    → inserted nodes before p t t
      ≡ record (nodes t) { previous = before; next = some p; linked = true }
unfolding set_next set_previous
inserted_self nodes none p t n m = ground arith
inserted_self nodes (some s) p t n m = ground arith

inserted_other :
    (nodes : Nodes) (before : Option ℕ) (p t y : ℕ)
    → (y == t) ≡ false
    → inserted nodes before p t y ≡ record (nodes y) {
      previous = if y == p then some t else (nodes y).previous;
      next = if same_handle before (some y) then some t else (nodes y).next;
    }
unfolding set_next set_previous
inserted_other nodes none p t y n = ground arith
inserted_other nodes (some s) p t y n = ground arith

module _ (nodes : Nodes) (l : ListHead) (xs : List ℕ) (p t : ℕ) (v : IsList nodes l xs)
    (out : count t xs ≡ 0) (free : (nodes t).linked ≡ false) (mem : 0 < count p xs) where
  apart : (p == t) ≡ false
  apart = ground arith

  -- The node in front of a member is a member, or there is none and the member is the head.
  before-cases :
      ((y : ℕ) → count y xs ≡ 0 → same_handle (nodes p).previous (some y) ≡ false)
      × (is_none (nodes p).previous ≡ same_handle l.head (some p))
  before-cases = elim (previous-mem nodes none l.head xs l.tail p v.chain mem) [
    | inl (f, g) ↦ (λ y m. ground (arith, f, g, m), ground (arith, f, g))
    | inr (z, f, g, o) ↦ (
      λ y m. ground (arith, f, g, m),
      ground (arith, f, g, first-previous nodes none l.head xs l.tail p v.chain),
    )
  ]

  inserted-Relinked : Relinked nodes t xs (insert_before xs p t) (
    inserted nodes (nodes p).previous p t,
    record l { head = if is_none (nodes p).previous then some t else l.head; size = l.size + 1 },
  )
  inserted-Relinked =
      let before = (nodes p).previous in
      let self = inserted_self nodes before p t apart (before-cases.0 t out) in
      let chain =
        Chain-insert_before nodes (inserted nodes before p t) t p apart self
          (inserted_other nodes before p t) none l.head xs l.tail v.chain v.distinct tt out mem in
      record {
        list = record {
          chain = rw (before-cases.1) chain;
          size = ground (arith, v.size, length-insert_before xs p t);
          distinct = λ y. ground (arith, v.distinct y, count-insert_before y xs p t, out);
        };
        others = λ y n m. inserted_other nodes before p t y n ∙ ground (arith, before-cases.0 y m);
        owners = λ y. elim (Bool-cases (y == t)) [
          | inl e ↦ let same : y ≡ t = ground arith in rw same (ap (λ (x : Node). x.owner) self)
          | inr n ↦ ap (λ (x : Node). x.owner) (inserted_other nodes before p t y n)
        ];
      }

  -- On a list head that stands for the nodes xs, os_ListInsertBefore of a free node that is not
  -- in xs, at a position that is, passes its assertions, leaves a list that stands for xs with
  -- the node in front of the position, writes no node but that one and those of xs, and keeps
  -- every owner.
  pub list_insert_before-Relinked :
      Succeeds (Relinked nodes t xs (insert_before xs p t)) (list_insert_before nodes l p t)
  unfolding list_insert_before
  list_insert_before-Relinked =
      let P = Relinked nodes t xs (insert_before xs p t) in
      asserting-Succeeds P (nodes p).linked _ (linked-mem nodes none l.head xs l.tail p v.chain mem)
        (asserting-Succeeds P (not (nodes t).linked) _ (ground (arith, free)) (
          asserting-Succeeds P (not (is_none (nodes p).previous) || same_handle l.head (some p)) _
            (ground (arith, before-cases.1)) inserted-Relinked))
