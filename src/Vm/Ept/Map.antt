-- ===== src/Vm/Ept/Map.antt =====
-- vmx_ept_map_page against the walk: one step down the tree, then the whole descent.
use rkhv.Base.{
  ℕ, ◌<◌, ◌≡◌, refl, sym, ap, ◌∙◌, subst, subst₂, Bool, true, false, ◌||◌, none, some, List, [],
  ◌∷◌, ◌++◌, arith, inl, inr, ◌==◌, length, Bool-cases, is_some, length-append,
}
use rkhv.Base.Result.{ok, >>=-eq-ok}
use rkhv.Memory.{Memory, entry}
use rkhv.Vm.Ept.{TablePages, State, table_entry, is_read, frame, take_table, link_table, next_table}
use rkhv.Vm.Ept.Tree.{
  walk, IsPath, onto, Role, assign, IsTree, IsFreshLink, link, walk-linked, IsTree-linked,
  walk-linked-some, walk-linked_child,
}
use rkhv.Vm.Ept.Leaf.{walk-append}
use rkhv.Vm.Ept.Pages.{PageLaws}

abbrev pub in_use : Role → ℕ → Bool
in_use role t = is_some (role t)

onto-snoc : (pre q : List ℕ) (i : ℕ) → onto (pre ++ i ∷ []) q ≡ i ∷ onto pre q
onto-snoc [] q i = refl
onto-snoc (j ∷ pre) q i = onto-snoc pre (j ∷ q) i

IsPath-snoc : (pre : List ℕ) (i : ℕ) → IsPath pre → i < 512 → IsPath (pre ++ i ∷ [])
IsPath-snoc [] i p h = (h, tt)
IsPath-snoc (j ∷ pre) i p h = (p.0, IsPath-snoc pre i p.1 h)

-- Taking a page leaves the root and the flags alone.
pub take_table-same :
    {R : Type 0} (pages : TablePages R) (s : State R) {p : ℕ} {s' : State R}
    → take_table pages s ≡ ok (p, s')
    → (s'.eptp ≡ s.eptp) × (s'.flags ≡ s.flags)
unfolding take_table
take_table-same pages s e = ground arith

-- What a step that links a new table did.
link_table-eq-ok :
    {R : Type 0} (pages : TablePages R) (t i : ℕ) (s : State R) {c : ℕ} {s' : State R}
    → link_table pages t i s ≡ ok (c, s')
    → (s₁ : State R) × (r : R) × (take_table pages s ≡ ok (c, s₁))
      × (pages.track c s₁.rest ≡ ok r)
      × (s' ≡ record s₁ { memory = link s₁.memory t i c; rest = r })
unfolding link_table
link_table-eq-ok pages t i s {c} e =
    let (zs, taken, e₁) = >>=-eq-ok (take_table pages s) _ e in
    let (r, tracked, e₂) = >>=-eq-ok (pages.track zs.0 zs.1.rest) _ e₁ in
    let ez : zs.0 ≡ c = ground (arith, e₂) in
    (zs.1, r, rw taken (ground arith), rw (← ez) tracked, ground (arith, e₂))

in_use-assign :
    (role : Role) (z : ℕ) (q : List ℕ) (t : ℕ)
    → in_use (assign role z q) t ≡ (t == z || in_use role t)
in_use-assign role z q t = ground arith

module _ {R : Type 0} {pages : TablePages R} (laws : PageLaws pages) where
  open laws use {Sound, fresh, goes_on, write}

  -- The descent from the root has come to the table `t`, at the place `q` that the indices `pre`
  -- lead to; `m₀` is the memory that it started from.
  pub record At (root : ℕ) (m₀ : Memory) (s : State R) (pre : List ℕ) (t : ℕ) (q : List ℕ)
      : Type 0 where
    pub role : Role
    pub tree : IsTree s.memory root role
    pub sound : Sound s.rest s.memory (in_use role)
    pub at : role t ≡ some q
    pub place : onto pre [] ≡ q
    pub depth : length q ≡ length pre
    pub reach : walk s.memory root pre ≡ some t
    pub path : IsPath pre
    pub unchanged :
        (is : List ℕ) → IsPath is → length is ≡ 4 → walk s.memory root is ≡ walk m₀ root is

  At-child :
      {root : ℕ} {m₀ : Memory} {s : State R} {pre : List ℕ} {t : ℕ} {q : List ℕ} (i : ℕ)
      → At root m₀ s pre t q
      → length pre < 3
      → i < 512
      → is_read (entry s.memory t i) ≡ true
      → At root m₀ s (pre ++ i ∷ []) (frame (entry s.memory t i)) (i ∷ q)
  At-child {root} {s} {pre} {t} {q} i a len h r = record {
    role = a.role;
    tree = a.tree;
    sound = a.sound;
    at = (a.tree.child t q i a.at h (omega (arith, a.depth)) r).1;
    place = onto-snoc pre [] i ∙ ap (λ u. i ∷ u) a.place;
    depth = omega (arith, a.depth, length-append pre (i ∷ []));
    reach = walk-append s.memory root pre (i ∷ []) a.reach ∙ unfold walk in rw r;
    path = IsPath-snoc pre i a.path h;
    unchanged = a.unchanged;
  }

  At-linked :
      {root : ℕ} {m₀ : Memory} {s : State R} {pre : List ℕ} {t : ℕ} {q : List ℕ} (i z : ℕ)
      {s' : State R} {r : R}
      → At root m₀ s pre t q
      → length pre < 3
      → i < 512
      → is_read (entry s.memory t i) ≡ false
      → take_table pages s ≡ ok (z, s')
      → pages.track z s'.rest ≡ ok r
      → At root m₀ (record s' { memory = link s'.memory t i z; rest = r }) (pre ++ i ∷ []) z (i ∷ q)
  At-linked {root} {s} {pre} {t} {q} i z {s'} {r} a len h vacant taken tracked =
      let f = fresh s s' (in_use a.role) z r a.sound taken tracked in
      let role' = assign a.role z (i ∷ q) in
      let new : a.role z ≡ none = ground (arith, f.unused) in
      let l : IsFreshLink s.memory s'.memory root a.role t i z q = record {
        tree = a.tree;
        at₀ = a.at;
        in_range = h;
        z_page = f.is_page;
        z_small = f.small;
        z_new = new;
        same = λ u p j at hj. f.same u j (ap is_some at) (a.tree.is_page u p at) hj;
        zeroed = f.empty;
        vacant = vacant;
        inner = omega (arith, a.depth);
      } in
      let sound' =
        goes_on s s' (in_use a.role) (in_use role') z r a.sound taken tracked
          (in_use-assign a.role z (i ∷ q)) in
      record {
        role = role';
        tree = IsTree-linked l;
        sound =
            write r s'.memory (in_use role') t i (table_entry z) sound' (ground (arith, a.at))
              (a.tree.is_page t q a.at) h;
        at = ground arith;
        place = onto-snoc pre [] i ∙ ap (λ u. i ∷ u) a.place;
        depth = omega (arith, a.depth, length-append pre (i ∷ []));
        reach =
            walk-append (link s'.memory t i z) root pre (i ∷ [])
              (walk-linked-some l root [] pre a.tree.at_root a.path (omega arith) a.reach)
            ∙ walk-linked_child l;
        path = IsPath-snoc pre i a.path h;
        unchanged =
            λ is p n. walk-linked l root [] is a.tree.at_root p (omega arith) ∙ a.unchanged is p n;
      }

  abbrev Stepped :
      {root : ℕ} {m₀ : Memory} {s : State R} {pre : List ℕ} {t : ℕ} {q : List ℕ}
      → At root m₀ s pre t q
      → ℕ
      → State R
      → ℕ
      → Type 0
  Stepped {root} {m₀} {s} {pre} {q} a i s' c =
      At root m₀ s' (pre ++ i ∷ []) c (i ∷ q) × (s'.eptp ≡ s.eptp) × (s'.flags ≡ s.flags)

  -- One step of the descent, on the branch that follows an entry and on the one that links a table.
  pub next_table-At :
      (large : Bool) {root : ℕ} {m₀ : Memory} {s s' : State R} {pre : List ℕ} {t c i : ℕ}
      {q : List ℕ}
      → At root m₀ s pre t q
      → length pre < 3
      → i < 512
      → next_table pages large t i s ≡ ok (c, s')
      → At root m₀ s' (pre ++ i ∷ []) c (i ∷ q) × (s'.eptp ≡ s.eptp) × (s'.flags ≡ s.flags)
  unfolding next_table
  next_table-At large {root} {m₀} {s} {s'} {pre} {t} {c} {i} {q} a len h e =
      elim (Bool-cases (is_read (entry s.memory t i))) [
        | inl r ↦
            let n = (a.tree.child t q i a.at h (omega (arith, a.depth)) r).0 in
            let ec : frame (entry s.memory t i) ≡ c = ground arith in
            let es : s ≡ s' = ground arith in
            subst₂ (λ x (u : State R). Stepped a i u x) ec es (At-child i a len h r, refl, refl)
        | inr r ↦
            let (s₁, r', taken, tracked, es) = link_table-eq-ok pages t i s (rw r at e) in
            let same = take_table-same pages s taken in
            subst (λ (u : State R). Stepped a i u c) (sym es)
              (At-linked i c a len h r taken tracked, same.0, same.1)
      ]
