-- ===== src/Vm/Ept/MapPage.antt =====
-- vmx_ept_map_page of hv/src/vmm/vmx_ept.c, and the translation.
use mathlib.Core.Option
use rkhv.Base.{
  ℕ, ◌+◌, ◌%◌, ◌≡◌, refl, sym, ap, ◌∙◌, subst, true, false, some, List, [], ◌∷◌, arith,
  if◌then◌else◌, Bool-cases, inl, inr,
}
use rkhv.Base.Result.{ok, >>=-eq-ok}
use rkhv.Memory.{Memory, entry}
use rkhv.Paging.{
  linear_address_get_pml4, linear_address_get_directory_ptr, linear_address_get_directory,
  linear_address_get_table,
}
use rkhv.Vm.Ept.{
  TablePages, State, table_entry, is_read, frame, get_pml4, next_table, map_in_table,
  vmx_ept_map_page, vmx_ept_get_host_physical_address,
}
use rkhv.Vm.Ept.Tree.{walk, Role, link}
use rkhv.Vm.Ept.Leaf.{
  walk-append, IsVacantLeaf, IsTree-mapped, walk-mapped_inner, walk-mapped_other, walk-mapped_here,
}
use rkhv.Vm.Ept.Pages.{PageLaws}
use rkhv.Vm.Ept.Map.{in_use, At, next_table-At}
use rkhv.Vm.Ept.Root.{translate, IsEpt, IsRooted, get_pml4-IsRooted}
use rkhv.Vm.Ept.Translate.{
  is_initialized, path_of, path_of-IsPath, same_page, path_of-same_page, same_page-path_of,
  translate-walk,
}

map_in_table-eq-ok :
    {R : Type 0} (pages : TablePages R) (t i h : ℕ) (s : State R) {s' : State R}
    → map_in_table pages t i h s ≡ ok s'
    → (is_read (entry s.memory t i) ≡ false) × (s' ≡ record s { memory = link s.memory t i h })
unfolding map_in_table
map_in_table-eq-ok pages t i h s e = ground arith

-- The descent as a whole.
record Descent {R : Type 0} (pages : TablePages R) (g h : ℕ) (s s' : State R) : Type 0 where
  root : ℕ
  s₁ : State R
  created : get_pml4 pages s ≡ ok (root, s₁)
  pdpt : ℕ
  s₂ : State R
  step₄ : next_table pages false root (linear_address_get_pml4 g) s₁ ≡ ok (pdpt, s₂)
  pd : ℕ
  s₃ : State R
  step₃ : next_table pages true pdpt (linear_address_get_directory_ptr g) s₂ ≡ ok (pd, s₃)
  pt : ℕ
  s₄ : State R
  step₂ : next_table pages true pd (linear_address_get_directory g) s₃ ≡ ok (pt, s₄)
  last : map_in_table pages pt (linear_address_get_table g) h s₄ ≡ ok s'

vmx_ept_map_page-Descent :
    {R : Type 0} (pages : TablePages R) (g h : ℕ) (s s' : State R)
    → vmx_ept_map_page pages g h s ≡ ok s'
    → Descent pages g h s s'
unfolding vmx_ept_map_page
vmx_ept_map_page-Descent pages g h s s' e =
    let (x₁, created, e₁) = >>=-eq-ok (get_pml4 pages s) _ e in
    let (x₂, step₄, e₂) =
      >>=-eq-ok (next_table pages false x₁.0 (linear_address_get_pml4 g) x₁.1) _ e₁ in
    let (x₃, step₃, e₃) =
      >>=-eq-ok (next_table pages true x₂.0 (linear_address_get_directory_ptr g) x₂.1) _ e₂ in
    let (x₄, step₂, e₄) =
      >>=-eq-ok (next_table pages true x₃.0 (linear_address_get_directory g) x₃.1) _ e₃ in
    record {
      root = x₁.0;
      s₁ = x₁.1;
      created = created;
      pdpt = x₂.0;
      s₂ = x₂.1;
      step₄ = step₄;
      pd = x₃.0;
      s₃ = x₃.1;
      step₃ = step₃;
      pt = x₄.0;
      s₄ = x₄.1;
      step₂ = step₂;
      last = e₄;
    }

module _ {R : Type 0} {pages : TablePages R} (laws : PageLaws pages) where
  open laws use {write}

  abbrev pub Mapped : (g h : ℕ) (s s' : State R) → Type 0
  Mapped g h s s' =
      (a : ℕ)
      → translate s' a ≡ (if same_page a g then some (frame h + a % 4096) else translate s a)

  -- The last write, at the end of the descent.
  module _ (g h : ℕ) {root pt : ℕ} {s s₁ s₄ : State R} {q : List ℕ}
      (rooted : IsRooted laws s s₁ root)
      (a : At laws root s₁.memory s₄
        (linear_address_get_pml4 g
          ∷ linear_address_get_directory_ptr g
          ∷ linear_address_get_directory g
          ∷ [])
        pt
        q) where
    abbrev i₁ : ℕ
    i₁ = linear_address_get_table g

    abbrev m' : Memory
    m' = link s₄.memory pt i₁ h

    leaf : IsVacantLeaf s₄.memory root a.role pt i₁ q
    leaf = record {
      tree = a.tree;
      at₀ = a.at;
      in_range = (path_of-IsPath g).1.1.1.0;
      depth = a.depth;
    }

    walk_here : (x : ℕ) → same_page x g ≡ true → walk m' root (path_of x) ≡ some (frame h)
    walk_here x y =
        ap (walk m' root) (path_of-same_page x g y)
        ∙ walk-append m' root _ (i₁ ∷ [])
            (walk-mapped_inner leaf h root [] _ a.tree.at_root a.path (omega arith) ∙ a.reach)
        ∙ walk-mapped_here leaf h

    walk_elsewhere :
        (x : ℕ) → same_page x g ≡ false → walk m' root (path_of x) ≡ walk s₁.memory root (path_of x)
    walk_elsewhere x n =
        walk-mapped_other leaf h root [] (path_of x) a.tree.at_root (path_of-IsPath x) refl
          (λ e. ground (arith, same_page-path_of x g, a.place))
        ∙ a.unchanged (path_of x) (path_of-IsPath x) refl

    before :
        (x : ℕ) → Option.map (λ p. p + x % 4096) (walk s₁.memory root (path_of x)) ≡ translate s x
    before x =
        sym (
          translate-walk s₁.memory s₁.flags root rooted.start.role x rooted.start.tree
            rooted.initialized)
        ∙ ap (λ r. vmx_ept_get_host_physical_address s₁.memory s₁.flags r x) (sym rooted.eptp_is)
        ∙ rooted.unchanged x

    after :
        (x : ℕ)
        → Option.map (λ p. p + x % 4096) (walk m' root (path_of x))
          ≡ (if same_page x g then some (frame h + x % 4096) else translate s x)
    after x = elim (Bool-cases (same_page x g)) [
      | inl y ↦ rw y (ap (Option.map (λ p. p + x % 4096)) (walk_here x y))
      | inr n ↦ rw n (ap (Option.map (λ p. p + x % 4096)) (walk_elsewhere x n) ∙ before x)
    ]

    abbrev Final : (s' : State R) → Type 0
    Final s' = IsEpt laws s' a.role × Mapped g h s s'

    leaf-Final : s₄.eptp ≡ root → s₄.flags ≡ s₁.flags → Final (record s₄ { memory = m' })
    leaf-Final same_root same_flags =
        let tree' = IsTree-mapped leaf h in
        let set : is_initialized s₄.flags ≡ true = rw same_flags rooted.initialized in
        (
          record {
            rooted = λ _. rw same_root tree';
            blank = λ clear. cc (clear, set);
            sound =
                write s₄.rest s₄.memory (in_use a.role) pt i₁ (table_entry h) a.sound
                  (ground (arith, a.at)) (a.tree.is_page pt q a.at) leaf.in_range;
          },
          λ x.
              ap (λ r. vmx_ept_get_host_physical_address m' s₄.flags r x) same_root
              ∙ translate-walk m' s₄.flags root a.role x tree' set
              ∙ after x,
        )

  -- Mapping the guest page of `g` to the host page of `h`, when it does not PANIC, makes every
  -- address of that guest page translate to the same offset of the host page, leaves every other
  -- translation as it was, whether it succeeded or failed, and keeps the EPT well formed.
  pub vmx_ept_map_page-translate :
      (g h : ℕ) (s s' : State R) (role : Role)
      → IsEpt laws s role
      → vmx_ept_map_page pages g h s ≡ ok s'
      → (role' : Role) × IsEpt laws s' role' × Mapped g h s s'
  vmx_ept_map_page-translate g h s s' role w e =
      let d = vmx_ept_map_page-Descent pages g h s s' e in
      let rooted = get_pml4-IsRooted laws w d.created in
      let p = path_of-IsPath g in
      let a₃ = next_table-At laws false rooted.start (omega arith) p.0 d.step₄ in
      let a₂ = next_table-At laws true a₃.0 (omega arith) p.1.0 d.step₃ in
      let a₁ = next_table-At laws true a₂.0 (omega arith) p.1.1.0 d.step₂ in
      let f =
        leaf-Final g h rooted a₁.0 (a₁.1 ∙ a₂.1 ∙ a₃.1 ∙ rooted.eptp_is) (a₁.2 ∙ a₂.2 ∙ a₃.2) in
      let (_, es) = map_in_table-eq-ok pages d.pt _ h d.s₄ d.last in
      (
        a₁.0.role,
        subst (λ (u : State R). IsEpt laws u a₁.0.role) (sym es) f.0,
        subst (λ (u : State R). Mapped g h s u) (sym es) f.1,
      )
