-- ===== src/Wayland/Impl/Subsurface/Nodes.antt =====
-- The tree of subsurfaces that `wl_subsurface_set_sync` and `wl_subsurface_set_desync` walk.
use cuts.Base.{
  ℕ, ◌<◌, ◌≡◌, sym, ap, ◌∙◌, subst, ◌⊎◌, inl, inr, Bool, true, none, some, List, [], ◌∷◌, ◌==◌,
  ==_iff, Bool-cases, ok, ok_injective,
}
use mathlib.Core.List.{Memᴰ}
use cuts.Util.Mem.{Metadata, metadata_of}
use cuts.Wayland.Impl.State.{Surface, Subsurface}
use cuts.Wayland.Impl.World.{World, Wl, at, set_subsurface, object_data_of}
use cuts.Wayland.Impl.Subsurface.Modes.{
  with_sync, unsome, unsome_at, OnlyModes, mode_kept, set_subsurface-apart,
}

-- Each of these subsurfaces is there, and of an object that satisfies `P` and whose rank is below `n`.
abbrev pub AllBelow : (P : ℕ → Bool) (rank : ℕ → ℕ) (n : ℕ) → List ℕ → Wl → Type 0
AllBelow P rank n [] s = Unit
AllBelow P rank n (c ∷ cs) s =
    ((child : Subsurface) × (m : Metadata) × (metadata_of c s.world.memory ≡ ok m)
      × (s.world.subsurfaces c ≡ some child)
      × (P child.id ≡ true)
      × (rank child.id < n))
    × AllBelow P rank n cs s

abbrev pub children_of : Surface → List ℕ
children_of u = elim u.children [ none ↦ [] | some children ↦ children ]

-- The object stands for a subsurface with a surface, whose children have a lower rank.
pub record IsNode (P : ℕ → Bool) (rank : ℕ → ℕ) (id : ℕ) (s : Wl) : Type 0 where
  pub address : ℕ
  pub subsurface : Subsurface
  pub surface_at : ℕ
  pub surface : Surface
  pub metadata : Metadata
  pub object : object_data_of id s ≡ ok address
  pub block : metadata_of address s.world.memory ≡ ok metadata
  pub stored : s.world.subsurfaces address ≡ some subsurface
  pub surfaced : subsurface.surface ≡ some surface_at
  pub surface_stored : at World.surfaces surface_at s ≡ ok surface
  pub below : AllBelow P rank (rank id) (children_of surface) s

-- The objects that satisfy `P` are such nodes: a tree, or several.
abbrev pub IsTree : (ℕ → Bool) → (ℕ → ℕ) → Wl → Type 0
IsTree P rank s = (id : ℕ) → P id ≡ true → IsNode P rank id s

-- The object `id` is `self`, or that of a subsurface below it.
pub data IsUnder (s : Wl) : ℕ → ℕ → Type 0 where
  itself : {id : ℕ} → IsUnder s id id
  of_child :
      {self id a x c : ℕ} {sub child : Subsurface} {u : Surface}
      → object_data_of self s ≡ ok a
      → s.world.subsurfaces a ≡ some sub
      → sub.surface ≡ some x
      → at World.surfaces x s ≡ ok u
      → Memᴰ c (children_of u)
      → s.world.subsurfaces c ≡ some child
      → IsUnder s child.id id
      → IsUnder s self id

-- In the second state all that were under the object in the first have the mode.
abbrev pub Marked : Bool → Wl → Wl → ℕ → Type 0
Marked sync s t self =
    (id a : ℕ) (sub : Subsurface)
    → IsUnder s self id
    → object_data_of id s ≡ ok a
    → s.world.subsurfaces a ≡ some sub
    → t.world.subsurfaces a ≡ some (with_sync sync sub)

-- The same of the subsurfaces of a list
abbrev pub AllMarked : Bool → Wl → Wl → List ℕ → Type 0
AllMarked sync s t cs =
    (c : ℕ) (child : Subsurface)
    → Memᴰ c cs
    → s.world.subsurfaces c ≡ some child
    → Marked sync s t child.id

pub Marked-later :
    (sync : Bool) {s t t' : Wl} (self : ℕ)
    → OnlyModes sync t t'
    → Marked sync s t self
    → Marked sync s t' self
Marked-later sync self h marked id a sub under object stored =
    mode_kept sync a sub h (marked id a sub under object stored)

pub AllMarked-cons :
    (sync : Bool) (s t : Wl) (c : ℕ) (cs : List ℕ) (child : Subsurface)
    → s.world.subsurfaces c ≡ some child
    → Marked sync s t child.id
    → AllMarked sync s t cs
    → AllMarked sync s t (c ∷ cs)
AllMarked-cons sync s t c cs child e marked rest c' child' (Memᴰ.head q) e' =
    let same : child ≡ child' = unsome (sym e ∙ ap s.world.subsurfaces (sym q) ∙ e') in
    subst (λ (z : Subsurface). Marked sync s t z.id) same marked
AllMarked-cons sync s t c cs child e marked rest c' child' (Memᴰ.tail m) e' = rest c' child' m e'

module _ (P : ℕ → Bool) (rank : ℕ → ℕ) (sync : Bool) (s t : Wl) where
  pub node-Marked :
      {self : ℕ} (node : IsNode P rank self s)
      → t.world.subsurfaces node.address ≡ some (with_sync sync node.subsurface)
      → AllMarked sync s t (children_of node.surface)
      → Marked sync s t self
  node-Marked node own children id a sub itself object stored =
      let eq : node.address ≡ a = ok_injective node.object object in
      let same : node.subsurface ≡ sub =
        unsome (sym node.stored ∙ ap s.world.subsurfaces eq ∙ stored) in
      sym (ap t.world.subsurfaces eq) ∙ own ∙ ap (λ z. some (with_sync sync z)) same
  node-Marked node own children id a sub (of_child {c = c} {child = child} o st sf su mem e under)
        object stored =
      let eq = ok_injective o node.object in
      let same = unsome (sym st ∙ ap s.world.subsurfaces eq ∙ node.stored) in
      let x_eq = unsome_at (sym sf ∙ ap (λ (z : Subsurface). z.surface) same ∙ node.surfaced) in
      let u_eq = ok_injective su (ap (λ z. at World.surfaces z s) x_eq ∙ node.surface_stored) in
      children c child (subst (λ v. Memᴰ c (children_of v)) u_eq mem) e id a sub under object stored

-- The block is that of the object `self` or of a subsurface below it.
abbrev pub BlockUnder : Wl → ℕ → ℕ → Type 0
BlockUnder s self x = (id : ℕ) × IsUnder s self id × (object_data_of id s ≡ ok x)

-- Between the two states no other block changes.
abbrev pub NoOther : Wl → Wl → Wl → ℕ → Type 0
NoOther s t t' self =
    (x : ℕ) → (t'.world.subsurfaces x ≡ t.world.subsurfaces x) ⊎ BlockUnder s self x

abbrev pub BlockBelow : Wl → List ℕ → ℕ → Type 0
BlockBelow s cs x =
    (c : ℕ) × (child : Subsurface) × Memᴰ c cs
    × (s.world.subsurfaces c ≡ some child)
    × BlockUnder s child.id x

pub BlockBelow-cons :
    (s : Wl) (c : ℕ) (cs : List ℕ) (x : ℕ) → BlockBelow s cs x → BlockBelow s (c ∷ cs) x
BlockBelow-cons s c cs x (c', child, m, e, under) = (c', child, Memᴰ.tail m, e, under)

module _ (P : ℕ → Bool) (rank : ℕ → ℕ) (s t t2 : Wl) where
  pub node-NoOther :
      {self : ℕ} (node : IsNode P rank self s) (sub : Subsurface)
      → ((x : ℕ)
          → (t2.world.subsurfaces x ≡ (set_subsurface node.address sub t).world.subsurfaces x)
            ⊎ BlockBelow s (children_of node.surface) x)
      → NoOther s t t2 self
  node-NoOther {self} node sub others x = elim (others x) [
    | inr (c, child, m, e, (id, under, object)) ↦
        inr
          (id, of_child node.object node.stored node.surfaced node.surface_stored m e under, object)
    | inl kept ↦ elim (Bool-cases (x == node.address)) [
      | inl own ↦ inr (self, itself, node.object ∙ ap ok (sym ((==_iff x node.address).0 own)))
      | inr apart ↦ inl (kept ∙ set_subsurface-apart t node.address sub x apart)
    ]
  ]
