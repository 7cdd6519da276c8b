-- ===== src/Vm/Ept/Tree.antt =====
-- The tables of an EPT as a tree: each table has one place in it, named by the indices that lead
-- there, deepest first. Two writes keep the tree: a fresh table is linked, or a page is mapped.
use rkhv.Base.{
  ℕ, ◌+◌, ◌^◌, ◌<◌, ◌≤◌, ◌≡◌, refl, sym, ap, ◌∙◌, true, false, ◌&&◌, Option, none, some, List, [],
  ◌∷◌, arith, inl, inr, ◌==◌, if◌then◌else◌, length, Bool-cases,
}
use rkhv.Memory.{Memory, entry, set_entry, IsPage, entry-set_entry}
use rkhv.Vm.Ept.{table_entry, is_read, is_large, frame}
use rkhv.Vm.Ept.Bits.{table_entry-is_read, table_entry-is_large, frame-table_entry, frame_page}

-- The walk along a list of indices, where no page is large.
unfoldable pub walk : Memory → ℕ → List ℕ → Option ℕ
walk m t [] = some t
walk m t (i ∷ is) = if is_read (entry m t i) then walk m (frame (entry m t i)) is else none

abbrev pub IsPath : List ℕ → Type 0
IsPath [] = Unit {0}
IsPath (i ∷ is) = (i < 512) × IsPath is

-- The place that a list of indices leads to from the place `q`.
abbrev pub onto : List ℕ → List ℕ → List ℕ
onto [] q = q
onto (i ∷ is) q = onto is (i ∷ q)

abbrev pub Role : Type 0
Role = ℕ → Option (List ℕ)

abbrev pub assign : Role → ℕ → List ℕ → Role
assign role z q t = if t == z then some q else role t

pub record IsTree (m : Memory) (root : ℕ) (role : Role) : Type 0 where
  pub at_root : role root ≡ some []
  pub is_page : (t : ℕ) (q : List ℕ) → role t ≡ some q → IsPage t
  pub child :
      (t : ℕ) (q : List ℕ) (i : ℕ)
      → role t ≡ some q
      → i < 512
      → length q < 3
      → is_read (entry m t i) ≡ true
      → (is_large (entry m t i) ≡ false) × (role (frame (entry m t i)) ≡ some (i ∷ q))

pub is_read-zero : is_read 0 ≡ false
unfolding is_read
is_read-zero = refl

-- A fresh table `z` about to be linked at entry `i₀` of `t₀`. `m` is the memory before, `m'` after
-- `z` is cleared.
pub record IsFreshLink (m m' : Memory) (root : ℕ) (role : Role) (t₀ i₀ z : ℕ) (q₀ : List ℕ)
    : Type 0 where
  pub tree : IsTree m root role
  pub at₀ : role t₀ ≡ some q₀
  pub in_range : i₀ < 512
  pub z_page : IsPage z
  pub z_small : z < 2 ^ 52
  pub z_new : role z ≡ none
  pub same : (t : ℕ) (q : List ℕ) (j : ℕ) → role t ≡ some q → j < 512 → entry m' t j ≡ entry m t j
  pub zeroed : (j : ℕ) → j < 512 → entry m' z j ≡ 0
  pub vacant : is_read (entry m t₀ i₀) ≡ false
  pub inner : length q₀ < 3

-- The memory after the link is written.
abbrev pub link : Memory → ℕ → ℕ → ℕ → Memory
link m' t₀ i₀ z = set_entry m' t₀ i₀ (table_entry z)

module _ {m m' : Memory} {root : ℕ} {role : Role} {t₀ i₀ z : ℕ} {q₀ : List ℕ}
    (l : IsFreshLink m m' root role t₀ i₀ z q₀) where
  open l use {tree, at₀, in_range, z_page, z_small, z_new, same, zeroed, vacant, inner}

  abbrev linked : Memory
  linked = link m' t₀ i₀ z

  entry-linked :
      (t : ℕ) (q : List ℕ) (j : ℕ)
      → role t ≡ some q
      → j < 512
      → entry linked t j ≡ (if t == t₀ && j == i₀ then table_entry z else entry m t j)
  entry-linked t q j at h = ground (
    arith,
    entry-set_entry m' t₀ t i₀ j (table_entry z) (tree.is_page t₀ q₀ at₀) (tree.is_page t q at)
        in_range h,
    same t q j at h,
  )

  z-ne-t₀ : (z == t₀) ≡ false
  z-ne-t₀ = ground (arith, z_new, at₀)

  entry-linked_new : (j : ℕ) → j < 512 → entry linked z j ≡ 0
  entry-linked_new j h = ground (
    arith,
    entry-set_entry m' t₀ z i₀ j (table_entry z) (tree.is_page t₀ q₀ at₀) z_page in_range h,
    zeroed j h,
    z-ne-t₀,
  )

  entry-linked_here : entry linked t₀ i₀ ≡ table_entry z
  entry-linked_here = ground (arith, entry-linked t₀ q₀ i₀ at₀ in_range)

  entry-linked_there :
      (t : ℕ) (q : List ℕ) (j : ℕ)
      → role t ≡ some q
      → j < 512
      → (t == t₀ && j == i₀) ≡ false
      → entry linked t j ≡ entry m t j
  entry-linked_there t q j at h ne = ground (arith, entry-linked t q j at h)

  walk-linked_here :
      (i : ℕ) (is : List ℕ) → i < 512 → walk linked t₀ (i₀ ∷ i ∷ is) ≡ walk m t₀ (i₀ ∷ i ∷ is)
  unfolding walk
  walk-linked_here i is h =
      rw
        (
          entry-linked_here,
          table_entry-is_read z,
          frame-table_entry z,
          frame_page z z_page z_small,
          vacant,
          entry-linked_new i h,
          is_read-zero,
        )
        refl

  -- Linking an empty table changes no complete walk.
  pub walk-linked :
      (t : ℕ) (q : List ℕ) (is : List ℕ)
      → role t ≡ some q
      → IsPath is
      → length q + length is ≡ 4
      → walk linked t is ≡ walk m t is
  unfolding walk
  walk-linked t q [] at path len = refl
  walk-linked t q (i ∷ []) at path len =
      let ne : (t == t₀) ≡ false = ground (arith, inner, at₀) in
      rw (entry-linked_there t q i at path.0 (rw ne))
  walk-linked t q (i ∷ j ∷ is) at path len = elim (Bool-cases (t == t₀ && i == i₀)) [
    | inl here ↦
        let et : t ≡ t₀ = ground arith in
        let ei : i ≡ i₀ = ground arith in rw (et, ei) (walk-linked_here j is path.1.0)
    | inr there ↦
        rw (entry-linked_there t q i at path.0 there) (elim (Bool-cases (is_read (entry m t i))) [
          | inl r ↦ rw r (
              walk-linked (frame (entry m t i)) (i ∷ q) (j ∷ is)
                (tree.child t q i at path.0 (omega arith) r).1 path.1 (omega arith))
          | inr r ↦ rw r
        ])
  ]

  -- The tree with the new table in its place.
  pub IsTree-linked : IsTree linked root (assign role z (i₀ ∷ q₀))
  IsTree-linked = record {
    at_root = ground (arith, z_new, tree.at_root);
    is_page = λ t q at. ground (arith, z_page, tree.is_page t q);
    child = λ t q i at h len r. elim (Bool-cases (t == z)) [
      | inl new ↦
          let e : t ≡ z = ground arith in
          cc (
            r,
            is_read-zero,
            ap is_read (entry-linked_new i h),
            ap (λ u. is_read (entry linked u i)) e,
          )
      | inr old ↦ child-linked_old t q i (ground arith) h len r
    ];
  }
    where
      child-linked_old :
          (t : ℕ) (q : List ℕ) (i : ℕ)
          → role t ≡ some q
          → i < 512
          → length q < 3
          → is_read (entry linked t i) ≡ true
          → (is_large (entry linked t i) ≡ false)
            × (assign role z (i₀ ∷ q₀) (frame (entry linked t i)) ≡ some (i ∷ q))
      child-linked_old t q i at h len r = elim (Bool-cases (t == t₀ && i == i₀)) [
        | inl here ↦
            let et : t ≡ t₀ = ground arith in
            let ei : i ≡ i₀ = ground arith in
            let eq : some q ≡ some q₀ = sym at ∙ ap role et ∙ at₀ in
            rw (et, ei, entry-linked_here, frame-table_entry z, frame_page z z_page z_small)
              (table_entry-is_large z, ground arith)
        | inr there ↦
            let e = entry-linked_there t q i at h there in
            let c = tree.child t q i at h len (rw e at r) in rw e (c.0, ground (arith, c.1, z_new))
      ]

  -- A partial walk that got somewhere still gets there.
  pub walk-linked-some :
      (t : ℕ) (q : List ℕ) (is : List ℕ) {x : ℕ}
      → role t ≡ some q
      → IsPath is
      → length q + length is ≤ 3
      → walk m t is ≡ some x
      → walk linked t is ≡ some x
  unfolding walk
  walk-linked-some t q [] at path len w = w
  walk-linked-some t q (i ∷ is) at path len w = elim (Bool-cases (is_read (entry m t i))) [
    | inl r ↦
        let there : (t == t₀ && i == i₀) ≡ false = elim (Bool-cases (t == t₀ && i == i₀)) [
          | inl e ↦ absurd (clash (ground arith) (ground arith) r)
          | inr e ↦ e
        ] in
        rw (entry-linked_there t q i at path.0 there, r)
          (walk-linked-some (frame (entry m t i)) (i ∷ q) is
            (tree.child t q i at path.0 (omega arith) r).1 path.1 (omega arith) (rw r at w))
    | inr r ↦ cc (rw r at w)
  ]
    where
      clash : t ≡ t₀ → i ≡ i₀ → is_read (entry m t i) ≡ true → ⊥
      clash et ei r = cc (r, vacant, et, ei)

  pub walk-linked_child : walk linked t₀ (i₀ ∷ []) ≡ some z
  unfolding walk
  walk-linked_child =
      rw
        (entry-linked_here, table_entry-is_read z, frame-table_entry z, frame_page z z_page z_small)
        refl
