-- ===== src/Tests/VmRuns.antt =====
-- A machine's pages, its serial port, its MSRs and its accesses.
use rkhv.Base.{
  ℕ, ◌≡◌, refl, ◌+◌, ◌*◌, ◌^◌, ◌⊎◌, true, false, not, [], ◌∷◌, none, some, replicate, arith,
  if◌then◌else◌,
}
use rkhv.Base.Result.{Result, ok, ◌>>=◌}
use rkhv.Mm.Arena.{Header}
use rkhv.Vm.Tracked.{
  ept, PageList, Tracker, vm_manager_track_page, vm_manager_untrack_page_from_reserved_pool,
}
use rkhv.Vm.Tracked.Runs.{AllRuns}
use rkhv.Vm.Tracked.Track.{Adds, vm_manager_track_page-Adds}
use rkhv.Vm.Tracked.Untrack.{PoolOutcome, vm_manager_untrack_page_from_reserved_pool-PoolOutcome}
use rkhv.Vm.Uart.{
  Uart, vmd_8250uart_create, vmd_8250uart_putc, vmd_8250uart_outb_handler, vmd_8250uart_inb_handler,
}
use rkhv.Vm.Uart.Buffer.{IsUart, terminal, type_byte, vmd_8250uart_putc-type_byte}
use rkhv.Vm.Uart.Registers.{outb_handler-inb_handler}
use rkhv.Vm.Msr.{MsrState, vmx_msr_vmexit, vmx_msr_vmresume, vmx_msr_init_bitmaps}
use rkhv.Vm.Msr.Swap.{is_rwbk, vmx_msr_vmexit-vmx_msr_vmresume, vmx_msr_vmresume-vmx_msr_vmexit}
use rkhv.Vm.Msr.Bitmaps.{exits, is_low_msr, is_high_msr, vmx_msr_init_bitmaps-exits}
use rkhv.Vm.GuestPaging.{Guest, Mode, vm_guest_paging_get_host_virtual_address_during_vmexit}
use rkhv.Vm.GuestPaging.Vmexit.{IsResolved, Refused, get_host_virtual_address-Outcome}
use rkhv.Vm.Io.{b, Device, vm_out, vm_in, vm_emulated_instruction_in}
use rkhv.Vm.Io.Ports.{vm_out-first}
use rkhv.Vm.Io.Input.{merge, vm_emulated_instruction_in-merge}
use rkhv.Vm.Exit.{io_in, single, vmx_vmexit_io}
use rkhv.Vm.Exit.Io.{encode, vmx_vmexit_io-encode}

abbrev header : Header
header = record { prev = 0; next = 0; subarenas = 0; used_size = 24 }

abbrev run : PageList
run = record { physical_address = 0x200000; pages = 2; page_type = ept; reserved_pool = true }

abbrev tracker : Tracker
tracker = record {
  tracked_pages = run ∷ [];
  vm_manager_arena = 0x10000005000;
  arenas = record {
    head = 0x10000005000;
    header = λ p. header;
    sub_header = λ p. record { next = 0; used_size = 0 };
  };
}

tracker-AllRuns : AllRuns tracker.tracked_pages
tracker-AllRuns = (record { aligned = refl; small = omega arith }, tt)

vm_manager_track_page-Adds_example :
    (t' : Tracker) × (vm_manager_track_page 0x1ff000 ept true tracker ≡ ok t')
    × AllRuns t'.tracked_pages
    × Adds tracker.tracked_pages t'.tracked_pages ept true 0x1ff000
vm_manager_track_page-Adds_example =
    vm_manager_track_page-Adds 0x1ff000 ept true refl (omega arith) tracker tracker-AllRuns
      (record { in_space = omega arith; in_page = omega arith }) (omega arith)

untrack-PoolOutcome_example :
    PoolOutcome ept tracker (vm_manager_untrack_page_from_reserved_pool ept tracker)
untrack-PoolOutcome_example =
    vm_manager_untrack_page_from_reserved_pool-PoolOutcome ept tracker tracker-AllRuns

abbrev uart : Uart
uart = record {
  output_buffer = replicate 128 0;
  output_buffer_size = 0;
  port_base = 0x3f8;
  baud_rate_divisor = 0;
  int_enable_reg = 0;
  fifo_control_reg = 0;
  line_control_reg = 0x80;
  modem_control_reg = 0;
  printed = [];
}

putc-type_byte_example :
    IsUart (vmd_8250uart_putc 65 uart)
    × (terminal (vmd_8250uart_putc 65 uart) ≡ type_byte 65 (terminal uart))
putc-type_byte_example =
    vmd_8250uart_putc-type_byte 65 uart (record { capacity = refl; room = omega arith })

outb_handler-inb_handler_example :
    (v : Uart) × ((vmd_8250uart_outb_handler 0x3f8 0x0c uart
        >>= vmd_8250uart_outb_handler 0x3f9 0x01)
      ≡ ok v)
    × ((vmd_8250uart_outb_handler 0x3f9 0x01 uart >>= vmd_8250uart_outb_handler 0x3f8 0x0c) ≡ ok v)
    × (v.baud_rate_divisor ≡ 0x01 * 2 ^ 8 + 0x0c)
    × (vmd_8250uart_inb_handler 0x3f8 v ≡ ok 0x0c)
    × (vmd_8250uart_inb_handler 0x3f9 v ≡ ok 0x01)
unfolding rkhv.Vm.Uart.port_offset rkhv.Vm.Uart.has_dlab
outb_handler-inb_handler_example =
    outb_handler-inb_handler uart 0x3f8 0x3f9 0x0c 0x01 refl refl refl (omega arith) (omega arith)

abbrev pub msr_state : MsrState
msr_state = record { cpu = λ a. a + 1; vmcs = λ a. a + 2; host_backup = λ a. a + 3; msrs = λ a. 0 }

vmexit-vmresume_example :
    ((q : ℕ) → (vmx_msr_vmresume (vmx_msr_vmexit msr_state)).cpu q ≡ msr_state.cpu q)
    × ((q : ℕ) → (vmx_msr_vmresume (vmx_msr_vmexit msr_state)).vmcs q ≡ msr_state.vmcs q)
    × ((q : ℕ)
        → (vmx_msr_vmresume (vmx_msr_vmexit msr_state)).host_backup q ≡ msr_state.host_backup q)
vmexit-vmresume_example = vmx_msr_vmexit-vmx_msr_vmresume msr_state

abbrev after_exit : MsrState
after_exit = vmx_msr_vmexit (record (vmx_msr_vmresume msr_state) { cpu = λ a. 7; vmcs = λ a. 8 })

vmresume-vmexit_example :
    ((q : ℕ) → after_exit.cpu q ≡ (if is_rwbk q then q + 1 else 7))
    × ((q : ℕ) → (if is_rwbk q then after_exit.msrs q else 7) ≡ 7)
    × (after_exit.msrs 0xC0000080 ≡ 8)
    × (after_exit.msrs 0xC0000100 ≡ 8)
    × (after_exit.msrs 0xC0000101 ≡ 8)
vmresume-vmexit_example = vmx_msr_vmresume-vmx_msr_vmexit msr_state (λ a. 7) (λ a. 8)

vmx_msr_init_bitmaps-exits_example :
    (exits (vmx_msr_init_bitmaps (λ i. 9)) 0 0x1A0 ≡ false)
    × (exits (vmx_msr_init_bitmaps (λ i. 9)) 1024 0x1A0 ≡ false)
    × (exits (vmx_msr_init_bitmaps (λ i. 9)) 2048 0x1A0 ≡ not (is_low_msr 0x1A0))
    × (exits (vmx_msr_init_bitmaps (λ i. 9)) 3072 0x1A0 ≡ not (is_high_msr 0x1A0))
vmx_msr_init_bitmaps-exits_example = vmx_msr_init_bitmaps-exits (λ i. 9) 0x1A0 (omega arith)

-- Every entry of every table maps the first GiB with a large page.
abbrev pub guest : Guest
guest = record {
  memory = λ i. 0x87;
  flags = 2;
  eptp = 0;
  guest_physical_pages = 0;
  guest_physical_pages_used_by_initial_setup = 0;
}

abbrev mode : Mode
mode = record { cr0 = 0x80000001; cr3 = 0x1000; cr4 = 0x20; ia32_efer = 0x500 }

get_host_virtual_address-Outcome_example :
    let r = vm_guest_paging_get_host_virtual_address_during_vmexit guest mode 0x400000 4 in
    ((va : ℕ) × (r ≡ ok va) × IsResolved guest mode 0x400000 4 va) ⊎ Refused guest mode 0x400000 4 r
get_host_virtual_address-Outcome_example =
    get_host_virtual_address-Outcome guest mode 0x400000 4 (omega arith) (omega arith)

-- A device with two ports whose state is the last value written.
abbrev take_value : ℕ → ℕ → ℕ → Result ℕ
take_value port value s = ok value

abbrev give_value : ℕ → ℕ → Result (ℕ × ℕ)
give_value port s = ok (s, s)

abbrev pub device : Device ℕ
device = record {
  ports = 0x3f8 ∷ 0x3f9 ∷ [];
  out_handler = λ size. some take_value;
  in_handler = λ size. some give_value;
}

abbrev other_device : Device ℕ
other_device = record {
  ports = 0x60 ∷ [];
  out_handler = λ size. some take_value;
  in_handler = λ size. none;
}

vm_out-first_example : vm_out b 0x3f9 65 (other_device ∷ device ∷ []) 7 ≡ take_value 0x3f9 65 7
vm_out-first_example =
    vm_out-first b 0x3f9 65 (other_device ∷ []) [] device take_value 7 (refl, tt) refl refl

vm_emulated_instruction_in-merge_example :
    vm_emulated_instruction_in b 0x3f8 0x1234 (device ∷ []) 7 ≡ ok (merge b 0x1234 7, 7)
unfolding vm_in
vm_emulated_instruction_in-merge_example =
    vm_emulated_instruction_in-merge b 0x3f8 0x1234 (device ∷ []) 7 7 7 (omega arith) (omega arith)
      refl

vmx_vmexit_io-encode_example :
    vmx_vmexit_io (encode 1 (record { direction = io_in; size = b; kind = single; port = 0x60 }))
    ≡ ok (record { direction = io_in; size = b; kind = single; port = 0x60 })
vmx_vmexit_io-encode_example =
    vmx_vmexit_io-encode io_in b single 0x60 1 (omega arith) (omega arith)
