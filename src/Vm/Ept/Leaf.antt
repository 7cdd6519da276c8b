-- ===== src/Vm/Ept/Leaf.antt =====
-- The last write of a mapping: a free entry of a page table at depth 3.
use rkhv.Base.{
  ℕ, ◌+◌, ◌<◌, ◌≤◌, ◌≡◌, ◌≢◌, refl, sym, ap, ◌∙◌, false, ◌&&◌, some, List, [], ◌∷◌, ◌++◌, arith,
  inl, inr, ◌==◌, if◌then◌else◌, length, Bool-cases,
}
use rkhv.Memory.{Memory, entry, entry-set_entry}
use rkhv.Vm.Ept.{table_entry, is_read, frame}
use rkhv.Vm.Ept.Bits.{table_entry-is_read, frame-table_entry}
use rkhv.Vm.Ept.Tree.{walk, IsPath, onto, Role, IsTree, link}

-- Two walks, one after the other.
pub walk-append :
    (m : Memory) (t : ℕ) (xs ys : List ℕ) {u : ℕ}
    → walk m t xs ≡ some u
    → walk m t (xs ++ ys) ≡ walk m u ys
unfolding walk
walk-append m t [] ys w = ground arith
walk-append m t (x ∷ xs) ys w = elim (Bool-cases (is_read (entry m t x))) [
  | inl r ↦ rw r (walk-append m (frame (entry m t x)) xs ys (rw r at w))
  | inr r ↦ cc (rw r at w)
]

pub record IsVacantLeaf (m : Memory) (root : ℕ) (role : Role) (t₀ i₀ : ℕ) (q₀ : List ℕ)
    : Type 0 where
  pub tree : IsTree m root role
  pub at₀ : role t₀ ≡ some q₀
  pub in_range : i₀ < 512
  pub depth : length q₀ ≡ 3

module _ {m : Memory} {root : ℕ} {role : Role} {t₀ i₀ : ℕ} {q₀ : List ℕ}
    (l : IsVacantLeaf m root role t₀ i₀ q₀) (page : ℕ) where
  open l use {tree, at₀, in_range, depth}

  abbrev mapped : Memory
  mapped = link m t₀ i₀ page

  entry-mapped :
      (t : ℕ) (q : List ℕ) (j : ℕ)
      → role t ≡ some q
      → j < 512
      → entry mapped t j ≡ (if t == t₀ && j == i₀ then table_entry page else entry m t j)
  entry-mapped t q j at h =
      entry-set_entry m t₀ t i₀ j (table_entry page) (tree.is_page t₀ q₀ at₀) (tree.is_page t q at)
        in_range h

  entry-mapped_inner :
      (t : ℕ) (q : List ℕ) (j : ℕ)
      → role t ≡ some q
      → j < 512
      → length q < 3
      → entry mapped t j ≡ entry m t j
  entry-mapped_inner t q j at h len =
      let ne : (t == t₀) ≡ false = ground (arith, at₀, depth) in entry-mapped t q j at h ∙ rw ne

  pub IsTree-mapped : IsTree mapped root role
  IsTree-mapped = record {
    at_root = tree.at_root;
    is_page = tree.is_page;
    child = λ t q i at h len r.
        let e = entry-mapped_inner t q i at h len in rw e (tree.child t q i at h len (rw e at r));
  }

  pub walk-mapped_inner :
      (t : ℕ) (q : List ℕ) (is : List ℕ)
      → role t ≡ some q
      → IsPath is
      → length q + length is ≤ 3
      → walk mapped t is ≡ walk m t is
  unfolding walk
  walk-mapped_inner t q [] at path len = refl
  walk-mapped_inner t q (i ∷ is) at path len =
      rw (entry-mapped_inner t q i at path.0 (omega arith))
        (elim (Bool-cases (is_read (entry m t i))) [
          | inl r ↦ rw r (
              walk-mapped_inner (frame (entry m t i)) (i ∷ q) is
                (tree.child t q i at path.0 (omega arith) r).1 path.1 (omega arith))
          | inr r ↦ rw r
        ])

  -- Other paths lead where they led.
  pub walk-mapped_other :
      (t : ℕ) (q : List ℕ) (is : List ℕ)
      → role t ≡ some q
      → IsPath is
      → length q + length is ≡ 4
      → onto is q ≢ i₀ ∷ q₀
      → walk mapped t is ≡ walk m t is
  unfolding walk
  walk-mapped_other t q [] at path len ne = refl
  walk-mapped_other t q (i ∷ []) at path len ne = elim (Bool-cases (t == t₀ && i == i₀)) [
    | inl here ↦
        let et : t ≡ t₀ = ground arith in
        let ei : i ≡ i₀ = ground arith in absurd (ne (cc (sym at ∙ ap role et ∙ at₀, ei)))
    | inr there ↦ rw (entry-mapped t q i at path.0, there)
  ]
  walk-mapped_other t q (i ∷ j ∷ is) at path len ne =
      rw (entry-mapped_inner t q i at path.0 (omega arith))
        (elim (Bool-cases (is_read (entry m t i))) [
          | inl r ↦ rw r (
              walk-mapped_other (frame (entry m t i)) (i ∷ q) (j ∷ is)
                (tree.child t q i at path.0 (omega arith) r).1 path.1 (omega arith) ne)
          | inr r ↦ rw r
        ])

  -- The mapped path ends at the page.
  pub walk-mapped_here : walk mapped t₀ (i₀ ∷ []) ≡ some (frame page)
  unfolding walk
  walk-mapped_here =
      let e : entry mapped t₀ i₀ ≡ table_entry page =
        ground (arith, entry-mapped t₀ q₀ i₀ at₀ in_range) in
      rw (e, table_entry-is_read page, frame-table_entry page) refl
