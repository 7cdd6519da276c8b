-- ===== src/Vm/Ept/Root.antt =====
-- The root table of a machine: found by its flag, or created on the first mapping.
use mathlib.Core.Option
use rkhv.Base.{
  ℕ, ◌+◌, ◌%◌, ◌<◌, ◌≡◌, refl, sym, ap, ◌∙◌, subst, subst₂, bit_or, ◌||◌, true, false, Option, none,
  List, [], ◌∷◌, arith, ◌==◌, Bool-cases, inl, inr,
}
use rkhv.Base.Result.{ok, >>=-eq-ok}
use rkhv.Memory.{Memory, entry, IsPage}
use rkhv.Vm.Ept.{
  TablePages, State, is_read, take_table, create_pml4, vm_t_flag_ept_pml4_initialized, get_pml4,
  vmx_ept_get_host_physical_address,
}
use rkhv.Vm.Ept.Tree.{walk, Role, assign, IsTree, is_read-zero}
use rkhv.Vm.Ept.Pages.{PageLaws}
use rkhv.Vm.Ept.Map.{in_use, At}
use rkhv.Vm.Ept.Translate.{is_initialized, is_initialized-set, path_of-IsPath, translate-walk}

-- The walk in a state of the EPT code.
abbrev pub translate : {R : Type 0} → State R → ℕ → Option ℕ
translate s = vmx_ept_get_host_physical_address s.memory s.flags s.eptp

create_pml4-eq-ok :
    {R : Type 0} (pages : TablePages R) (s : State R) {p : ℕ} {s' : State R}
    → create_pml4 pages s ≡ ok (p, s')
    → (s₁ : State R) × (r : R) × (take_table pages s ≡ ok (p, s₁))
      × (pages.track p s₁.rest ≡ ok r)
      × (s' ≡ record s₁ {
        eptp = p;
        flags = bit_or s₁.flags vm_t_flag_ept_pml4_initialized;
        rest = r;
      })
unfolding create_pml4
create_pml4-eq-ok pages s {p} e =
    let (ps, taken, e₁) = >>=-eq-ok (take_table pages s) _ e in
    let (r, tracked, e₂) = >>=-eq-ok (pages.track ps.0 ps.1.rest) _ e₁ in
    let ep : ps.0 ≡ p = ground (arith, e₂) in
    (ps.1, r, rw taken (ground arith), rw (← ep) tracked, ground (arith, e₂))

-- A root with no entries, alone.
IsTree-root :
    (m : Memory) (p : ℕ)
    → IsPage p
    → ((j : ℕ) → j < 512 → entry m p j ≡ 0)
    → IsTree m p (assign (λ _. none) p [])
IsTree-root m p page empty = record {
  at_root = ground arith;
  is_page = λ t q at. ground arith;
  child = λ t q i at h len r.
      let et : t ≡ p = ground arith in
      cc (r, is_read-zero, ap is_read (empty i h), ap (λ u. is_read (entry m u i)) et);
}

pub translate-uninitialized :
    (m : Memory) (flags root a : ℕ)
    → is_initialized flags ≡ false
    → vmx_ept_get_host_physical_address m flags root a ≡ none
unfolding vmx_ept_get_host_physical_address
translate-uninitialized m flags root a clear = rw clear

in_use_root :
    (role : Role) (p t : ℕ)
    → role t ≡ none
    → in_use (assign (λ _. none) p []) t ≡ (t == p || in_use role t)
in_use_root role p t clear = ground arith

walk-empty :
    (m : Memory) (p i : ℕ) (is : List ℕ)
    → ((j : ℕ) → j < 512 → entry m p j ≡ 0)
    → i < 512
    → walk m p (i ∷ is) ≡ none
unfolding walk
walk-empty m p i is empty h = rw (empty i h, is_read-zero)

module _ {R : Type 0} {pages : TablePages R} (laws : PageLaws pages) where
  open laws use {Sound, fresh, goes_on, write}

  -- Once there is a root its tables form a tree; before, no page is a table.
  pub record IsEpt (s : State R) (role : Role) : Type 0 where
    pub rooted : is_initialized s.flags ≡ true → IsTree s.memory s.eptp role
    pub blank : is_initialized s.flags ≡ false → (t : ℕ) → role t ≡ none
    pub sound : Sound s.rest s.memory (in_use role)

  -- After the root is there: the descent starts, and no address translates differently.
  pub record IsRooted (s₀ s : State R) (root : ℕ) : Type 0 where
    pub start : At laws root s.memory s [] root []
    pub eptp_is : s.eptp ≡ root
    pub initialized : is_initialized s.flags ≡ true
    pub unchanged : (a : ℕ) → translate s a ≡ translate s₀ a

  create_pml4-IsRooted :
      {s s' : State R} {role : Role} {root : ℕ}
      → IsEpt s role
      → is_initialized s.flags ≡ false
      → create_pml4 pages s ≡ ok (root, s')
      → IsRooted s s' root
  create_pml4-IsRooted {s} {s'} {role} {root} w clear e =
      let (s₁, r, taken, tracked, es) = create_pml4-eq-ok pages s e in
      let f = fresh s s₁ (in_use role) root r w.sound taken tracked in
      let role' = assign (λ _. none) root [] in
      let tree = IsTree-root s₁.memory root f.is_page f.empty in
      let used' = λ (t : ℕ). in_use_root role root t (w.blank clear t) in
      let set = is_initialized-set s₁.flags in
      subst (λ (u : State R). IsRooted s u root) (sym es)
        (record {
          start = record {
            role = role';
            tree = tree;
            sound = goes_on s s₁ (in_use role) (in_use role') root r w.sound taken tracked used';
            at = ground arith;
            place = refl;
            depth = refl;
            reach = unfold walk in refl;
            path = tt;
            unchanged = λ is p n. refl;
          };
          eptp_is = refl;
          initialized = set;
          unchanged = λ a.
              translate-walk s₁.memory _ root role' a tree set
              ∙ ap (Option.map (λ p. p + a % 4096))
                  (walk-empty s₁.memory root _ _ f.empty (path_of-IsPath a).0)
              ∙ sym (translate-uninitialized s.memory s.flags s.eptp a clear);
        })

  pub get_pml4-IsRooted :
      {s s' : State R} {role : Role} {root : ℕ}
      → IsEpt s role
      → get_pml4 pages s ≡ ok (root, s')
      → IsRooted s s' root
  unfolding get_pml4
  get_pml4-IsRooted {s} {s'} {role} {root} w e = elim (Bool-cases (is_initialized s.flags)) [
    | inl set ↦
        let er : s.eptp ≡ root = ground arith in
        let es : s ≡ s' = ground arith in
        subst₂ (λ x (u : State R). IsRooted s u x) er es
          (record {
            start = record {
              role = role;
              tree = w.rooted set;
              sound = w.sound;
              at = (w.rooted set).at_root;
              place = refl;
              depth = refl;
              reach = unfold walk in refl;
              path = tt;
              unchanged = λ is p n. refl;
            };
            eptp_is = refl;
            initialized = set;
            unchanged = λ a. refl;
          })
    | inr clear ↦ create_pml4-IsRooted w clear (rw clear at e)
  ]
