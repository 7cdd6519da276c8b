-- ===== src/Vm/Ept/Same.antt =====
-- Changes of memory outside of the tables of an EPT, hv/src/vmm/vmx_ept.c.
use rkhv.Base.{ℕ, ◌+◌, ◌<◌, ◌≡◌, refl, arith, some, List, [], ◌∷◌, length, inl, inr, Bool-cases}
use rkhv.Memory.{Memory, entry}
use rkhv.Vm.Ept.{is_read, frame}
use rkhv.Vm.Ept.Tree.{walk, IsPath, Role, IsTree}

module _ {m : Memory} (m' : Memory) {root : ℕ} {role : Role} (tree : IsTree m root role)
    (same : (t : ℕ) (q : List ℕ) (j : ℕ)
      → role t ≡ some q
      → j < 512
      → entry m' t j ≡ entry m t j) where
  pub IsTree-same : IsTree m' root role
  IsTree-same = record {
    at_root = tree.at_root;
    is_page = tree.is_page;
    child =
        λ t q i at h len r. let e = same t q i at h in rw e (tree.child t q i at h len (rw e at r));
  }

  pub walk-same :
      (t : ℕ) (q : List ℕ) (is : List ℕ)
      → role t ≡ some q
      → IsPath is
      → length q + length is ≡ 4
      → walk m' t is ≡ walk m t is
  unfolding walk
  walk-same t q [] at path len = refl
  walk-same t q (i ∷ []) at path len = rw (same t q i at path.0)
  walk-same t q (i ∷ j ∷ is) at path len =
      rw (same t q i at path.0) (elim (Bool-cases (is_read (entry m t i))) [
        | inl r ↦ rw r (
            walk-same (frame (entry m t i)) (i ∷ q) (j ∷ is)
              (tree.child t q i at path.0 (omega arith) r).1 path.1 (omega arith))
        | inr r ↦ rw r
      ])
