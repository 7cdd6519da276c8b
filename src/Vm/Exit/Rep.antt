-- ===== src/Vm/Exit/Rep.antt =====
-- The REP form of OUTS, hv/src/vmm/vm_emulated_instructions.c, and its single elements.
use rkhv.Base.{ℕ, zero, suc, ◌+◌, ◌-◌, ◌%◌, ◌^◌, ◌<◌, ◌≡◌, refl, ◌∙◌, ap, arith, false, List, ◌==◌}
use mathlib.Core.Path.{fun_ext}
use rkhv.Base.Result.{Result, ok, panic, out_of_bounds, ◌>>=◌}
use rkhv.Vm.Exit.{rcx, set_gpr}
use rkhv.Vm.Exit.Strings.{
  ExitState, rsi, mode_of, string_step, load_value, vm_emulated_instruction_outs, rep_loop,
  vm_emulated_instruction_rep,
}
use rkhv.Vm.GuestPaging.{Guest, Mode, vm_guest_paging_get_host_virtual_address_during_vmexit}
use rkhv.Vm.Io.{Size, sizeof, Device, vm_out}

-- The address after `n` elements.
abbrev pub string_steps : ℕ → Size → ℕ → ℕ → ℕ
string_steps rflags size zero address = address
string_steps rflags size (suc n) address =
    string_steps rflags size n (string_step rflags size address)

module _ {S : Type 0} (devices : List (Device S)) (size : Size) (port : ℕ) (g : Guest) (mode : Mode)
    (rflags : ℕ) where
  -- `n` outputs of the elements from an address on.
  pub out_elements : ℕ → ℕ → S → Result S
  out_elements zero address d = ok d
  out_elements (suc n) address d =
      vm_guest_paging_get_host_virtual_address_during_vmexit g mode address (sizeof size)
      >>= λ hostva. vm_out size port (load_value g size hostva) devices d >>= λ d'.
          out_elements n (string_step rflags size address) d'

-- RCX at 0, RSI behind the elements, everything else but the devices as it was.
abbrev pub after_outs : {S : Type 0} → Size → ℕ → ExitState S → S → ExitState S
after_outs size n s device_data = record s {
  device_data = device_data;
  vm_state =
      set_gpr rcx 0 (set_gpr rsi (string_steps s.rflags size n ((s.vm_state).gpr rsi)) s.vm_state);
}

-- A single output that the loop goes on from, and the sequence that goes on from it.
module _ {S E : Type 0} (mk : S → E) (k : E → Result E) (tail : S → Result S) (end : S → E) where
  bind_once :
      (out : Result S)
      → ((d : S) → k (mk d) ≡ (tail d >>= λ e. ok (end e)))
      → ((out >>= λ d. ok (mk d)) >>= k) ≡ ((out >>= tail) >>= λ e. ok (end e))
  bind_once (ok d) same = same d
  bind_once (panic p) same = refl
  bind_once out_of_bounds same = refl

  bind_twice :
      (hostva : Result ℕ) (out : ℕ → Result S)
      → ((d : S) → k (mk d) ≡ (tail d >>= λ e. ok (end e)))
      → ((hostva >>= λ h. out h >>= λ d. ok (mk d)) >>= k)
        ≡ ((hostva >>= λ h. out h >>= tail) >>= λ e. ok (end e))
  bind_twice (ok h) out same = bind_once (out h) same
  bind_twice (panic p) out same = refl
  bind_twice out_of_bounds out same = refl

module _ {S : Type 0} (devices : List (Device S)) (size : Size) (port : ℕ) where
  -- The state from which the loop goes on after one output.
  abbrev next_outs : ExitState S → S → ExitState S
  next_outs s d = record s {
    device_data = d;
    vm_state =
        set_gpr rcx (((s.vm_state).gpr rcx + 2 ^ 64 - 1) % 2 ^ 64)
          (set_gpr rsi (string_step s.rflags size ((s.vm_state).gpr rsi)) s.vm_state);
  }

  after_outs-next_outs :
      (n : ℕ) (s : ExitState S) (d e : S)
      → after_outs size n (next_outs s d) e ≡ after_outs size (suc n) s e
  unfolding set_gpr
  after_outs-next_outs n s d e =
      ap (λ (f : ℕ → ℕ). record s { device_data = e; vm_state = record (s.vm_state) { gpr = f } })
        (fun_ext (λ j. ground arith))

  after_outs-zero :
      (s : ExitState S) → (s.vm_state).gpr rcx ≡ 0 → s ≡ after_outs size 0 s s.device_data
  unfolding set_gpr
  after_outs-zero s count =
      ap (λ (f : ℕ → ℕ). record s { vm_state = record (s.vm_state) { gpr = f } })
        (fun_ext (λ j. ground arith))

  rep_loop-out_elements :
      (n : ℕ) (s : ExitState S)
      → (s.vm_state).gpr rcx ≡ n
      → n < 2 ^ 64
      → rep_loop (vm_emulated_instruction_outs devices size port) n s ≡ (
          out_elements devices size port s.guest
            (mode_of s)
            s.rflags
            n
            ((s.vm_state).gpr rsi)
            s.device_data
          >>= λ d. ok (after_outs size n s d))
  unfolding out_elements rep_loop vm_emulated_instruction_outs mode_of set_gpr
  rep_loop-out_elements zero s count fits = ap ok (after_outs-zero s count)
  rep_loop-out_elements (suc n) s count fits =
      let more : ((s.vm_state).gpr rcx == 0) ≡ false = ground arith in
      let left : ((s.vm_state).gpr rcx + 2 ^ 64 - 1) % 2 ^ 64 ≡ n = omega (arith, count, fits) in
      let address = string_step s.rflags size ((s.vm_state).gpr rsi) in
      rw more (
        bind_twice (λ d. record s { device_data = d; vm_state = set_gpr rsi address s.vm_state })
          (λ t. rep_loop (vm_emulated_instruction_outs devices size port) n (record t {
            vm_state = set_gpr rcx (((t.vm_state).gpr rcx + 2 ^ 64 - 1) % 2 ^ 64) t.vm_state;
          }))
          (out_elements devices size port s.guest (mode_of s) s.rflags n address)
          (after_outs size (suc n) s)
          (vm_guest_paging_get_host_virtual_address_during_vmexit s.guest (mode_of s)
            ((s.vm_state).gpr rsi) (sizeof size))
          (λ hostva. vm_out size port (load_value s.guest size hostva) devices s.device_data)
          (λ d. rep_loop-out_elements n (next_outs s d) left (omega (arith, fits)) ∙ λ i.
            out_elements devices size port s.guest (mode_of s) s.rflags n address d >>= λ e.
            ok (after_outs-next_outs n s d e i)))

  -- A repeated OUTS does what the single outputs of its elements do, one after the other, with the
  -- same result when one of them ends the run. It leaves RCX at 0, RSI behind the elements, and
  -- the other registers and the memory as they were.
  pub vm_emulated_instruction_rep-out_elements :
      (s : ExitState S)
      → (s.vm_state).gpr rcx < 2 ^ 64
      → vm_emulated_instruction_rep (vm_emulated_instruction_outs devices size port) s ≡ (
          out_elements devices size port s.guest
            (mode_of s)
            s.rflags
            ((s.vm_state).gpr rcx)
            ((s.vm_state).gpr rsi)
            s.device_data
          >>= λ d. ok (after_outs size ((s.vm_state).gpr rcx) s d))
  unfolding vm_emulated_instruction_rep
  vm_emulated_instruction_rep-out_elements s fits =
      rep_loop-out_elements ((s.vm_state).gpr rcx) s refl fits
