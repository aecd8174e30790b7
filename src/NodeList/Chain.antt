-- ===== src/NodeList/Chain.antt =====
-- The sequence of nodes that a list head links.
use mini_rtos.Base.{
  ℕ, ◌≤◌, ◌<◌, ◌≡◌, Bool, true, false, Option, none, some, List, [], ◌∷◌, ◌==◌, ◌⊎◌, inl, inr,
  arith, count, length, Bool-cases, same_handle,
}
use mini_rtos.NodeList.{Nodes, ListHead, asserting}

-- From `cur`, behind `prev`, the links lead through the nodes `xs` to NULL; `last` is the last node
-- met, `prev` where there is none.
abbrev pub Chain : Nodes → (prev cur : Option ℕ) → List ℕ → (last : Option ℕ) → Type 0
Chain nodes prev cur [] last = (cur ≡ none) × (last ≡ prev)
Chain nodes prev cur (x ∷ xs) last =
    (cur ≡ some x)
    × ((nodes x).previous ≡ prev)
    × ((nodes x).linked ≡ true)
    × Chain nodes (some x) (nodes x).next xs last

-- No node occurs twice.
abbrev pub Distinct : List ℕ → Type 0
Distinct xs = (y : ℕ) → count y xs ≤ 1

abbrev pub NotIn : Option ℕ → List ℕ → Type 0
NotIn none xs = Unit
NotIn (some y) xs = count y xs ≡ 0

-- A list head and the sequence that it stands for.
pub record IsList (nodes : Nodes) (l : ListHead) (xs : List ℕ) : Type 0 where
  pub chain : Chain nodes none l.head xs l.tail
  pub size : l.size ≡ length xs
  pub distinct : Distinct xs

pub Chain-frame :
    (nodes nodes' : Nodes) (prev cur : Option ℕ) (xs : List ℕ) (last : Option ℕ)
    → ((y : ℕ) → 0 < count y xs → nodes' y ≡ nodes y)
    → Chain nodes prev cur xs last
    → Chain nodes' prev cur xs last
Chain-frame nodes nodes' prev cur [] last same c = c
Chain-frame nodes nodes' prev cur (x ∷ xs) last same (e, p, l, c) =
    let here : nodes' x ≡ nodes x = same x (ground arith) in
    (
      e,
      ground (arith, here),
      ground (arith, here),
      rw here (
          Chain-frame nodes nodes' (some x) (nodes x).next xs last (λ y h. same y (ground arith))
            c),
    )

-- A chain that is not empty ends at one of its nodes.
pub last-mem :
    (nodes : Nodes) (prev cur : Option ℕ) (x : ℕ) (xs : List ℕ) (last : Option ℕ)
    → Chain nodes prev cur (x ∷ xs) last
    → (y : ℕ) × (last ≡ some y) × (0 < count y (x ∷ xs))
last-mem nodes prev cur x [] last (e, p, l, (f, g)) = (x, g, ground arith)
last-mem nodes prev cur x (z ∷ zs) last (e, p, l, c) =
    let (y, f, h) = last-mem nodes (some x) (nodes x).next z zs last c in (y, f, ground arith)

pub linked-mem :
    (nodes : Nodes) (prev cur : Option ℕ) (xs : List ℕ) (last : Option ℕ) (t : ℕ)
    → Chain nodes prev cur xs last
    → 0 < count t xs
    → (nodes t).linked ≡ true
linked-mem nodes prev cur [] last t c h = absurd (ground arith)
linked-mem nodes prev cur (x ∷ xs) last t (e, p, l, c) h = elim (Bool-cases (x == t)) [
  | inl y ↦ ground arith
  | inr n ↦ linked-mem nodes (some x) (nodes x).next xs last t c (ground arith)
]

-- A member is first, behind `prev`, or stands behind another member.
pub previous-mem :
    (nodes : Nodes) (prev cur : Option ℕ) (xs : List ℕ) (last : Option ℕ) (t : ℕ)
    → Chain nodes prev cur xs last
    → 0 < count t xs
    → ((cur ≡ some t) × ((nodes t).previous ≡ prev))
      ⊎ ((y : ℕ) × ((nodes t).previous ≡ some y) × (0 < count y xs) × ((y == t) ≡ false))
previous-mem nodes prev cur [] last t c h = absurd (ground arith)
previous-mem nodes prev cur (x ∷ xs) last t (e, p, l, c) h = elim (Bool-cases (x == t)) [
  | inl y ↦ inl (ground arith, ground arith)
  | inr n ↦ elim (previous-mem nodes (some x) (nodes x).next xs last t c (ground arith)) [
    | inl (f, g) ↦ inr (x, g, ground arith, ground arith)
    | inr (y, f, g, o) ↦ inr (y, f, ground arith, o)
  ]
]

-- A member is last, or the member behind it follows.
pub next-mem :
    (nodes : Nodes) (prev cur : Option ℕ) (xs : List ℕ) (last : Option ℕ) (t : ℕ)
    → Chain nodes prev cur xs last
    → 0 < count t xs
    → ((last ≡ some t) × ((nodes t).next ≡ none))
      ⊎ ((y : ℕ) × ((nodes t).next ≡ some y) × (0 < count y xs))
next-mem nodes prev cur [] last t c h = absurd (ground arith)
next-mem nodes prev cur (x ∷ []) last t (e, p, l, (f, g)) h = inl (ground arith, ground arith)
next-mem nodes prev cur (x ∷ z ∷ zs) last t (e, p, l, c) h = elim (Bool-cases (x == t)) [
  | inl y ↦ inr (z, ground arith, ground arith)
  | inr n ↦ elim (next-mem nodes (some x) (nodes x).next (z ∷ zs) last t c (ground arith)) [
    | inl r ↦ inl r
    | inr (y, f, g) ↦ inr (y, f, ground arith)
  ]
]

pub first-previous :
    (nodes : Nodes) (prev cur : Option ℕ) (xs : List ℕ) (last : Option ℕ) (t : ℕ)
    → Chain nodes prev cur xs last
    → cur ≡ some t
    → (nodes t).previous ≡ prev
first-previous nodes prev cur [] last t c e = absurd (ground arith)
first-previous nodes prev cur (x ∷ xs) last t (f, p, l, c) e = ground arith

-- The node behind `x` is the member `t` exactly where `x` is the node in front of `t`.
pub links-agree :
    (nodes : Nodes) (x : ℕ) (cur : Option ℕ) (xs : List ℕ) (last : Option ℕ) (t : ℕ)
    → Chain nodes (some x) cur xs last
    → count x xs ≡ 0
    → 0 < count t xs
    → same_handle (nodes t).previous (some x) ≡ same_handle cur (some t)
links-agree nodes x cur xs last t c out h = elim (previous-mem nodes (some x) cur xs last t c h) [
  | inl (f, g) ↦ ground arith
  | inr (y, f, g, o) ↦ ground (arith, first-previous nodes (some x) cur xs last t c)
]

-- A computation that passes its assertions, with a property of its result.
abbrev pub Succeeds : {A : Type 0} → (A → Type 0) → Option A → Type 0
Succeeds P none = ⊥
Succeeds P (some a) = P a

-- An assertion that holds.
pub asserting-Succeeds :
    {A : Type 0} (P : A → Type 0) (test : Bool) (rest : Option A)
    → test ≡ true
    → Succeeds P rest
    → Succeeds P (asserting test rest)
asserting-Succeeds P true rest e s = s
asserting-Succeeds P false rest e s = absurd (ground arith)

-- Behind the last node stands none.
pub last-next :
    (nodes : Nodes) (prev cur : Option ℕ) (x : ℕ) (xs : List ℕ) (last : Option ℕ) (t : ℕ)
    → Chain nodes prev cur (x ∷ xs) last
    → last ≡ some t
    → (nodes t).next ≡ none
last-next nodes prev cur x [] last t (e, p, l, (f, g)) h = ground arith
last-next nodes prev cur x (z ∷ zs) last t (e, p, l, c) h =
    last-next nodes (some x) (nodes x).next z zs last t c h
