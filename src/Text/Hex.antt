-- ===== src/Text/Hex.antt =====
-- The hexadecimal text of str_itoh, hv/src/string.c.
use native.Mathlib.Nat.{pow-suc, one-le-pow, mul-add-mod_self_left, mod-eq_of_lt}
use rkhv.Base.{
  ℕ, zero, suc, ◌+◌, ◌-◌, ◌*◌, ◌/◌, ◌%◌, ◌^◌, ◌<◌, ◌≤◌, ◌≡◌, ◌≢◌, refl, sym, ap, ◌∙◌, List, Option,
  none, some, ltb, ◌==◌, if◌then◌else◌, set, length, length-set, get_elem?, get_elem?-set_self,
  get_elem?-set_ne, arith, inl, inr, ◌⊎◌,
}
use rkhv.Text.{hex_digit, str_itoh_loop, str_itoh}

-- The value of a hexadecimal digit.
abbrev pub read_digit : Option ℕ → ℕ
read_digit none = 0
read_digit (some c) = if ltb c 97 then c - 48 else c - 87

-- The `n` digits from `start` on, the most significant first.
abbrev pub read_hex : List ℕ → ℕ → ℕ → ℕ → ℕ
read_hex buffer start zero acc = acc
read_hex buffer start (suc n) acc =
    read_hex buffer (suc start) n (acc * 16 + read_digit (get_elem? buffer start))

read_digit-hex_digit : (d : ℕ) → d < 16 → read_digit (some (hex_digit d)) ≡ d
read_digit-hex_digit d h = ground arith

read_hex-suc :
    (buffer : List ℕ) (start n acc : ℕ)
    → read_hex buffer start (suc n) acc
      ≡ read_hex buffer start n acc * 16 + read_digit (get_elem? buffer (start + n))
read_hex-suc buffer start zero acc = let e : start + 0 ≡ start = omega arith in rw e refl
read_hex-suc buffer start (suc n) acc =
    let e : start + suc n ≡ suc start + n = omega arith in
    rw e (read_hex-suc buffer (suc start) n (acc * 16 + read_digit (get_elem? buffer start)))

-- One hexadecimal digit more.
mod-step : (q v : ℕ) → 0 < q → v % (q * 16) ≡ v / 16 % q * 16 + v % 16
mod-step q v hq =
    let x = v / 16 in
    let r = v % 16 in
    let d : q * (x / q) + x % q ≡ x = omega arith in
    let lt : x % q < q = omega arith in
    let small : x % q * 16 + r < q * 16 = omega arith in
    let e : v ≡ q * 16 * (x / q) + (x % q * 16 + r) = omega arith in
    ap (λ w. w % (q * 16)) e
    ∙ mul-add-mod_self_left (q * 16) (x / q) (x % q * 16 + r)
    ∙ mod-eq_of_lt small

-- The buffer `out` after writing `size` digits of `value` at `base` of `buffer`.
pub record IsHex (out buffer : List ℕ) (base size value : ℕ) : Type 0 where
  pub length_same : length out ≡ length buffer
  pub reads : read_hex out base size 0 ≡ value % 16 ^ size
  pub others : (j : ℕ) → (j < base) ⊎ (base + size ≤ j) → get_elem? out j ≡ get_elem? buffer j

str_itoh_loop-IsHex :
    (base size : ℕ) (buffer : List ℕ) (value : ℕ) (trimmed : Option ℕ)
    → base + size ≤ length buffer
    → IsHex (str_itoh_loop base size buffer value trimmed).0 buffer base size value
unfolding str_itoh_loop
str_itoh_loop-IsHex base zero buffer value trimmed h = record {
  length_same = refl;
  reads = omega arith;
  others = λ j k. refl;
}
str_itoh_loop-IsHex base (suc i) buffer value trimmed h =
    let d = hex_digit (value % 16) in
    let ys = set buffer (base + i) d in
    let start : Option ℕ = elim trimmed [
      | some t ↦ some t
      | none ↦ if value / 16 == 0 then some (base + i) else none
    ] in
    let hl : length ys ≡ length buffer = length-set buffer (base + i) d in
    let here : get_elem? ys (base + i) ≡ some d =
      get_elem?-set_self buffer (base + i) d (omega arith) in
    let t = str_itoh_loop-IsHex base i ys (value / 16) start (omega (arith, hl)) in
    let out = (str_itoh_loop base i ys (value / 16) start).0 in
    let same : get_elem? out (base + i) ≡ some d = t.others (base + i) (inr (omega arith)) ∙ here in
    let digit : read_digit (get_elem? out (base + i)) ≡ value % 16 =
      rw same (read_digit-hex_digit (value % 16) (omega arith)) in
    let p : 16 ^ suc i ≡ 16 ^ i * 16 = pow-suc 16 i in
    record {
      length_same = t.length_same ∙ hl;
      reads =
          read_hex-suc out base i 0
          ∙ (ap (λ a. a * 16 + read_digit (get_elem? out (base + i))) t.reads
              ∙ ap (λ a. value / 16 % 16 ^ i * 16 + a) digit
              ∙ sym (
                  ap (λ m. value % m) p
                  ∙ mod-step (16 ^ i) value (omega (arith, one-le-pow i 16))));
      others = λ j k.
          let ne : base + i ≢ j =
            λ e. elim k [ inl a ↦ omega (arith, e) | inr a ↦ omega (arith, e) ] in
          let k' : (j < base) ⊎ (base + i ≤ j) = elim k [
            | inl a ↦ inl a
            | inr a ↦ inr (omega arith)
          ] in
          t.others j k' ∙ get_elem?-set_ne buffer (base + i) j d ne;
    }

-- The digits that are written are those of the number, modulo 16 to the number of digits, and
-- no other byte of the buffer is touched.
pub str_itoh-IsHex :
    (base size : ℕ) (buffer : List ℕ) (value : ℕ)
    → base + size ≤ length buffer
    → IsHex (str_itoh base buffer value size).0 buffer base size value
unfolding str_itoh
str_itoh-IsHex base size buffer value h = str_itoh_loop-IsHex base size buffer value none h
