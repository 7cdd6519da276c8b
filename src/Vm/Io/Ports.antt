-- ===== src/Vm/Io/Ports.antt =====
-- Which device an access reaches.
use rkhv.Base.{
  ℕ, ◌≡◌, refl, Bool, true, false, ◌||◌, ◌&&◌, Option, none, some, List, [], ◌∷◌, ◌++◌, ◌==◌,
  if◌then◌else◌, is_some, arith, ◌∙◌,
}
use rkhv.Base.Result.{Result}
use rkhv.Vm.Io.{Size, Device, match_ports, vm_out}

abbrev pub mem : ℕ → List ℕ → Bool
mem p [] = false
mem p (x ∷ xs) = p == x || mem p xs

-- The port is one of the device's, and there is a handler.
match_ports-mem :
    {H : Type 0} (port : ℕ) (h : Option H) (ps : List ℕ)
    → match_ports port h ps ≡ (if mem port ps then h else none)
unfolding match_ports
match_ports-mem port h [] = refl
match_ports-mem {H} port none (p ∷ ps) = ground (arith, match_ports-mem {H = H} port none ps)
match_ports-mem port (some f) (p ∷ ps) = ground (arith, match_ports-mem port (some f) ps)

skipped :
    {H : Type 0} (t : Bool) (h : Option H)
    → (t && is_some h) ≡ false
    → (if t then h else none) ≡ none
skipped true none e = refl
skipped true (some f) e = cc
skipped false h e = refl

module _ {S : Type 0} where
  abbrev pub takes_out : Size → ℕ → Device S → Bool
  takes_out size port dev = mem port dev.ports && is_some (dev.out_handler size)

  abbrev pub NoneTakes : Size → ℕ → List (Device S) → Type 0
  NoneTakes size port [] = Unit {0}
  NoneTakes size port (dev ∷ devices) =
      (takes_out size port dev ≡ false) × NoneTakes size port devices

  -- An output reaches the first device of the list that has the port and a handler for the size,
  -- and no other device.
  pub vm_out-first :
      (size : Size) (port value : ℕ) (before after : List (Device S)) (dev : Device S)
      (handler : ℕ → ℕ → S → Result S) (s : S)
      → NoneTakes size port before
      → mem port dev.ports ≡ true
      → dev.out_handler size ≡ some handler
      → vm_out size port value (before ++ dev ∷ after) s ≡ handler port value s
  unfolding vm_out
  vm_out-first size port value [] after dev handler s quiet m e =
      rw (vm_out, match_ports-mem port (dev.out_handler size) dev.ports, m, e) refl
  vm_out-first size port value (x ∷ xs) after dev handler s quiet m e =
      let none_here : match_ports port (x.out_handler size) x.ports ≡ none =
        match_ports-mem port (x.out_handler size) x.ports
        ∙ skipped (mem port x.ports) (x.out_handler size) quiet.0 in
      rw (vm_out, none_here) (vm_out-first size port value xs after dev handler s quiet.1 m e)
