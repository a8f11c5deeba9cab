-- ===== src/Util/List/Chain.antt =====
-- The list that a chain of nodes stands for.
use cuts.Base.{
  ℕ, ◌≡◌, refl, sym, ◌∙◌, ◌≢◌, Bool, true, false, ◌||◌, Option, none, some, List, [], ◌∷◌, ◌++◌,
  arith, ◌==◌, if◌then◌else◌,
}
use cuts.Base.Lists.{length}
use cuts.Util.List.{Ptr, null, Node, Heap, write}

-- What a node in front of the sentinel stands for.
pub record Cell : Type 0 where
  pub addr : Ptr
  pub data_ptr : Ptr
  pub copied : Bool

abbrev pub Cells : Type 0
Cells = List Cell

abbrev pub node : Ptr → Bool → Ptr → Ptr → ℕ → Node
node d c p n s = record { data_ptr = d; copied = c; prev = p; next = n; size = s }

-- The address of the first node, `stop` being the sentinel's.
abbrev pub first : Ptr → Cells → Ptr
first stop [] = stop
first stop (c ∷ xs) = c.addr

-- The address in front of the sentinel, `q` being the one in front of the list.
abbrev pub last : Ptr → Cells → Ptr
last q [] = q
last q (c ∷ xs) = last c.addr xs

abbrev pub has : Ptr → Cells → Bool
has a [] = false
has a (c ∷ xs) = (a == c.addr) || has a xs

-- The nodes `xs`, at distinct addresses, linked both ways, with `q` before the first and the
-- sentinel `stop` behind the last.
abbrev pub Chain : Heap → Ptr → Ptr → Cells → Type 0
Chain h stop q [] = (stop ≢ null) × ((s : ℕ) × (h.node stop ≡ some (node null false q null s)))
Chain h stop q (c ∷ xs) =
    (c.addr ≢ null)
    × (c.addr ≢ stop)
    × (has c.addr xs ≡ false)
    × ((s : ℕ) × (h.node c.addr ≡ some (node c.data_ptr c.copied q (first stop xs) s)))
    × Chain h stop c.addr xs

-- The size that the node at `p` keeps.
abbrev pub SizeAt : Heap → Ptr → ℕ → Type 0
SizeAt h p k = (n : Node) × (h.node p ≡ some n) × (n.size ≡ k)

-- The list whose head node is `l` holds `xs`, and its head knows how many they are.
pub record IsList (h : Heap) (l : Ptr) (xs : Cells) : Type 0 where
  pub stop : Ptr
  pub head : l ≡ first stop xs
  pub chain : Chain h stop null xs
  pub size : SizeAt h l (length xs)

pub stop-ne : (h : Heap) (stop q : Ptr) (xs : Cells) → Chain h stop q xs → stop ≢ null
stop-ne h stop q [] c = c.0
stop-ne h stop q (x ∷ xs) c = stop-ne h stop x.addr xs c.4

pub first-ne : (h : Heap) (stop q : Ptr) (xs : Cells) → Chain h stop q xs → first stop xs ≢ null
first-ne h stop q [] c = c.0
first-ne h stop q (x ∷ xs) c = c.0

pub stop_fresh : (h : Heap) (stop q : Ptr) (xs : Cells) → Chain h stop q xs → has stop xs ≡ false
stop_fresh h stop q [] c = refl
stop_fresh h stop q (x ∷ xs) c = ground (arith, stop_fresh h stop x.addr xs c.4)

pub first_apart : (stop a : Ptr) (xs : Cells) → has a xs ≡ false → a ≢ stop → a ≢ first stop xs
first_apart stop a [] out ne = ne
first_apart stop a (x ∷ xs) out ne = ground arith

-- A chain survives any change that spares its nodes.
pub frame :
    (h g : Heap) (stop q : Ptr) (xs : Cells)
    → Chain h stop q xs
    → g.node stop ≡ h.node stop
    → ((a : Ptr) → has a xs ≡ true → g.node a ≡ h.node a)
    → Chain g stop q xs
frame h g stop q [] c end same = (c.0, (c.1.0, end ∙ c.1.1))
frame h g stop q (x ∷ xs) c end same = (
  c.0,
  c.1,
  c.2,
  (c.3.0, same x.addr (ground arith) ∙ c.3.1),
  frame h g stop x.addr xs c.4 end (λ a i. same a (ground arith)),
)

pub frame-write :
    (h : Heap) (p : Ptr) (n : Option Node) (stop q : Ptr) (xs : Cells)
    → Chain h stop q xs
    → p ≢ stop
    → has p xs ≡ false
    → Chain (write h p n) stop q xs
frame-write h p n stop q xs c ne out =
    frame h (write h p n) stop q xs c (ground arith) (λ a i. ground arith)

-- A free address is no node of a chain.
pub apart :
    (h : Heap) (stop q : Ptr) (xs : Cells) (a : Ptr)
    → Chain h stop q xs
    → h.node a ≡ none
    → (a ≢ stop) × (has a xs ≡ false)
apart h stop q [] a c e = (λ z. cc, refl)
apart h stop q (x ∷ xs) a c e = let (ne, out) = apart h stop x.addr xs a c.4 e in (ne, ground arith)

-- The sentinel points back at the last node.
pub sentinel :
    (h : Heap) (stop q : Ptr) (xs : Cells)
    → Chain h stop q xs
    → (s : ℕ) × (h.node stop ≡ some (node null false (last q xs) null s))
sentinel h stop q [] c = c.1
sentinel h stop q (x ∷ xs) c = sentinel h stop x.addr xs c.4

resize :
    (h : Heap) (p a : Ptr) (n : Node) (d : Ptr) (c : Bool) (q r : Ptr) (s k : ℕ)
    → h.node p ≡ some n
    → h.node a ≡ some (node d c q r s)
    → (t : ℕ) × ((write h p (some (record n { size = k }))).node a ≡ some (node d c q r t))
resize h p a n d c q r s k e f = (if p == a then k else s, ground arith)

-- Writing a size changes no list.
pub Chain-size :
    (h : Heap) (p : Ptr) (n : Node) (k : ℕ) (stop q : Ptr) (xs : Cells)
    → h.node p ≡ some n
    → Chain h stop q xs
    → Chain (write h p (some (record n { size = k }))) stop q xs
Chain-size h p n k stop q [] e c = (c.0, resize h p stop n null false q null c.1.0 k e c.1.1)
Chain-size h p n k stop q (x ∷ xs) e c = (
  c.0,
  c.1,
  c.2,
  resize h p x.addr n x.data_ptr x.copied q (first stop xs) c.3.0 k e c.3.1,
  Chain-size h p n k stop x.addr xs e c.4,
)

pub first-append :
    (stop fresh : Ptr) (xs : Cells) (c : Cell)
    → c.addr ≡ stop
    → first fresh (xs ++ c ∷ []) ≡ first stop xs
first-append stop fresh [] c e = e
first-append stop fresh (x ∷ xs) c e = refl

pub has-append : (a : Ptr) (xs ys : Cells) → has a (xs ++ ys) ≡ (has a xs || has a ys)
has-append a [] ys = refl
has-append a (x ∷ xs) ys = ground (arith, has-append a xs ys)

-- The old sentinel becomes the last node, in front of the new one.
pub Chain-snoc :
    (h g : Heap) (stop fresh q d : Ptr) (b : Bool) (xs : Cells) (s t : ℕ)
    → Chain h stop q xs
    → fresh ≢ null
    → fresh ≢ stop
    → has fresh xs ≡ false
    → g.node stop ≡ some (node d b (last q xs) fresh s)
    → g.node fresh ≡ some (node null false stop null t)
    → ((a : Ptr) → has a xs ≡ true → g.node a ≡ h.node a)
    → Chain g fresh q (xs ++ record { addr = stop; data_ptr = d; copied = b } ∷ [])
Chain-snoc h g stop fresh q d b [] s t c nf ns out es ef same =
    (c.0, λ z. ns (sym z), refl, (s, es), (nf, (t, ef)))
Chain-snoc h g stop fresh q d b (x ∷ xs) s t c nf ns out es ef same =
    let e = first-append stop fresh xs (record { addr = stop; data_ptr = d; copied = b }) refl in
    (
      c.0,
      λ z. ground arith,
      rw (has-append x.addr xs) (ground arith),
      (c.3.0, rw e (same x.addr (ground arith) ∙ c.3.1)),
      Chain-snoc h g stop fresh x.addr d b xs s t c.4 nf ns (ground arith) es ef
          (λ a i. same a (ground arith)),
    )
