-- ===== src/Vm/Uart/Buffer.antt =====
-- The line buffer of vmd_8250uart_putc, hv/src/vmm/devices/vmd_8250uart.c.
use rkhv.Base.{
  ℕ, zero, suc, ◌+◌, ◌-◌, ◌<◌, ◌≤◌, ◌≡◌, refl, ap, ◌∙◌, true, false, ◌||◌, List, [], ◌∷◌, ◌++◌,
  some, ltb, leb, ◌==◌, if◌then◌else◌, set, get_elem?, length, length-set, get_elem?-set_self, take,
  arith, Bool-cases, inl, inr,
}
use rkhv.Vm.Uart.{
  Uart, newline, c_string, append_byte, flush_line, vmd_8250uart_putc, output_buffer_capacity,
}

-- The buffer has its size, and room for a byte and the terminator.
pub record IsUart (uart : Uart) : Type 0 where
  pub capacity : length uart.output_buffer ≡ output_buffer_capacity
  pub room : uart.output_buffer_size < output_buffer_capacity - 1

-- What the guest sees: the bytes of the current line, and the lines printed.
pub record Terminal : Type 0 where
  pub line : List ℕ
  pub lines : List (List ℕ)

abbrev pub terminal : Uart → Terminal
terminal uart = record {
  line = take uart.output_buffer_size uart.output_buffer;
  lines = uart.printed;
}

-- A line is printed at its end, or when it reaches 127 bytes; a C string stops at a zero byte.
abbrev pub type_byte : ℕ → Terminal → Terminal
type_byte b t =
    if b == newline
    then record { line = []; lines = c_string t.line ∷ t.lines }
    else if length t.line + 1 == output_buffer_capacity - 1
    then record { line = []; lines = c_string (t.line ++ b ∷ []) ∷ t.lines }
    else record { line = t.line ++ b ∷ []; lines = t.lines }

take-set : (xs : List ℕ) (i b : ℕ) → i < length xs → take (suc i) (set xs i b) ≡ take i xs ++ b ∷ []
take-set [] i b h = absurd (omega arith)
take-set (x ∷ xs) zero b h = refl
take-set (x ∷ xs) (suc i) b h = ap (λ l. x ∷ l) (take-set xs i b (omega arith))

length-take : (xs : List ℕ) (i : ℕ) → i ≤ length xs → length (take i xs) ≡ i
length-take xs zero h = refl
length-take [] (suc i) h = absurd (omega arith)
length-take (x ∷ xs) (suc i) h = ap suc (length-take xs i (omega arith))

-- Up to the terminator only the bytes before it count.
c_string-set : (xs : List ℕ) (i : ℕ) → i < length xs → c_string (set xs i 0) ≡ c_string (take i xs)
c_string-set [] i h = absurd (omega arith)
c_string-set (x ∷ xs) zero h = refl
c_string-set (x ∷ xs) (suc i) h = elim (Bool-cases (x == 0)) [
  | inl e ↦ rw e refl
  | inr e ↦ rw e (ap (λ l. x ∷ l) (c_string-set xs i (omega arith)))
]

take-set_above : (xs : List ℕ) (i b : ℕ) → take i (set xs i b) ≡ take i xs
take-set_above [] i b = refl
take-set_above (x ∷ xs) zero b = refl
take-set_above (x ∷ xs) (suc i) b = ap (λ l. x ∷ l) (take-set_above xs i b)

append_byte_lem :
    (b : ℕ) (u : Uart)
    → IsUart u
    → append_byte b u ≡ record u {
      output_buffer = set u.output_buffer u.output_buffer_size b;
      output_buffer_size = suc u.output_buffer_size;
    }
unfolding append_byte
append_byte_lem b u w =
    let r = w.room in
    let e : leb 127 u.output_buffer_size ≡ false = ground arith in
    let s : u.output_buffer_size + 1 ≡ suc u.output_buffer_size = omega arith in rw (e, s) refl

-- What flushing prints, when the last byte is and is not the end of the line.
flush_line-newline :
    (u : Uart) (i : ℕ)
    → u.output_buffer_size ≡ suc i
    → i < length u.output_buffer
    → get_elem? u.output_buffer i ≡ some newline
    → (buffer : List ℕ) × (length buffer ≡ length u.output_buffer)
      × (flush_line u ≡ record u {
        output_buffer = buffer;
        output_buffer_size = 0;
        printed = c_string (take i u.output_buffer) ∷ u.printed;
      })
unfolding flush_line
flush_line-newline u i es h e =
    let z : suc i - 1 ≡ i = omega arith in
    let p : ltb 0 (suc i) ≡ true = ground arith in
    (
      set u.output_buffer i 0,
      length-set u.output_buffer i 0,
      rw (es, z, e, p)
          (ap
            (λ l. record u {
              output_buffer = set u.output_buffer i 0;
              output_buffer_size = 0;
              printed = l ∷ u.printed;
            })
            (c_string-set u.output_buffer i h)),
    )

flush_line-full :
    (u : Uart) (i b : ℕ)
    → u.output_buffer_size ≡ suc i
    → suc i < length u.output_buffer
    → get_elem? u.output_buffer i ≡ some b
    → (b == newline) ≡ false
    → (buffer : List ℕ) × (length buffer ≡ length u.output_buffer)
      × (flush_line u ≡ record u {
        output_buffer = buffer;
        output_buffer_size = 0;
        printed = c_string (take (suc i) u.output_buffer) ∷ u.printed;
      })
unfolding flush_line
flush_line-full u i b es h e n =
    let z : suc i - 1 ≡ i = omega arith in
    let p : ltb 0 (suc i) ≡ true = ground arith in
    (
      set u.output_buffer (suc i) 0,
      length-set u.output_buffer (suc i) 0,
      rw (es, z, e, p, n)
          (ap
            (λ l. record u {
              output_buffer = set u.output_buffer (suc i) 0;
              output_buffer_size = 0;
              printed = l ∷ u.printed;
            })
            (c_string-set u.output_buffer (suc i) h)),
    )

putc_lem :
    (b : ℕ) (u : Uart)
    → IsUart u
    → (u1 : Uart)
    → record u {
      output_buffer = set u.output_buffer u.output_buffer_size b;
      output_buffer_size = suc u.output_buffer_size;
    }
      ≡ u1
    → vmd_8250uart_putc b u
      ≡ (if b == newline || leb 127 u1.output_buffer_size then flush_line u1 else u1)
unfolding vmd_8250uart_putc
putc_lem b u w u1 e =
    ap (λ (v : Uart). if b == newline || leb 127 v.output_buffer_size then flush_line v else v)
      (append_byte_lem b u w ∙ e)

-- Each byte written keeps the buffer within its bounds, and the terminal that the guest sees gets
-- exactly this byte: lines end at a newline or at 127 bytes, and are printed up to a zero byte.
pub vmd_8250uart_putc-type_byte :
    (b : ℕ) (u : Uart)
    → IsUart u
    → IsUart (vmd_8250uart_putc b u) × (terminal (vmd_8250uart_putc b u) ≡ type_byte b (terminal u))
vmd_8250uart_putc-type_byte b u w =
    let i = u.output_buffer_size in
    let xs = u.output_buffer in
    let r = w.room in
    let c = w.capacity in
    let h : i < length xs = omega (arith, c) in
    let ys = set xs i b in
    let hy : length ys ≡ 128 = length-set xs i b ∙ c in
    let u1 : Uart = record u { output_buffer = ys; output_buffer_size = suc i } in
    let l : length (take i xs) ≡ i = length-take xs i (omega (arith, c)) in
    let g : get_elem? ys i ≡ some b = get_elem?-set_self xs i b h in
    let p = putc_lem b u w u1 refl in
    elim (Bool-cases (b == newline)) [
      | inl e ↦
          let f = flush_line-newline u1 i refl (omega (arith, hy)) (rw g (ground arith)) in
          let q : vmd_8250uart_putc b u ≡ flush_line u1 = p ∙ rw e refl in
          rw (q, f.2, take-set_above xs i b, e)
            (record { capacity = f.1 ∙ hy; room = ground arith }, refl)
      | inr e ↦ elim (Bool-cases (i == 126)) [
        | inl full ↦
            let f = flush_line-full u1 i b refl (ground (arith, hy)) g e in
            let t1 : leb 127 (suc i) ≡ true = ground arith in
            let t2 : (length (take i xs) + 1 == 127) ≡ true = ground (arith, l) in
            let q : vmd_8250uart_putc b u ≡ flush_line u1 = p ∙ rw (e, t1) refl in
            rw (q, f.2, take-set xs i b h, e, t2)
              (record { capacity = f.1 ∙ hy; room = ground arith }, refl)
        | inr more ↦
            let t1 : leb 127 (suc i) ≡ false = ground arith in
            let t2 : (length (take i xs) + 1 == 127) ≡ false = ground (arith, l) in
            let q : vmd_8250uart_putc b u ≡ u1 = p ∙ rw (e, t1) refl in
            rw (q, take-set xs i b h, e, t2) (record { capacity = hy; room = ground arith }, refl)
      ]
    ]
