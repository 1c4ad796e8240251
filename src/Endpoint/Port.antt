-- ===== src/Endpoint/Port.antt =====
-- parse_port of src/transport/endpoint_config.cpp.
use zoal_atc.Common.{
  ℕ, ◌+◌, ◌-◌, ◌*◌, ◌≤◌, ◌<◌, ◌≡◌, ◌≢◌, refl, ap, sym, ◌∙◌, not, [], ◌∷◌, arith, ltb, if_known,
  Bytes, All, IsDigit, ◌↔◌,
}
use zoal_atc.Endpoint.{Parsed, success, is_digit, port_loop, parse_port}

-- The value of a text of digits.
pub value_of : Bytes → ℕ → ℕ
value_of [] value = value
value_of (c ∷ text) value = value_of text (value * 10 + (c - b'0'))

value_of-ge : (text : Bytes) (value : ℕ) → value ≤ value_of text value
unfolding value_of
value_of-ge [] value = omega arith
value_of-ge (c ∷ text) value = omega (arith, value_of-ge text (value * 10 + (c - b'0')))

-- What a text of digits with a value in range is read as.
port_loop-value :
    (whole text : Bytes) (value : ℕ)
    → All IsDigit text
    → 0 < value_of text value
    → value_of text value ≤ 65535
    → port_loop whole text value ≡ success (value_of text value)
unfolding port_loop value_of
port_loop-value whole [] value d lo hi = ground arith
port_loop-value whole (c ∷ text) value (d, ds) lo hi =
    let g = value_of-ge text (value * 10 + (c - b'0')) in
    ground (arith, port_loop-value whole text (value * 10 + (c - b'0')) ds lo hi)

-- What was read is a positive value of at most 65535, and the value of a text of digits.
port_loop-reads :
    (whole text : Bytes) (value port : ℕ)
    → value ≤ 65535
    → port_loop whole text value ≡ success port
    → All IsDigit text × (port ≡ value_of text value) × (0 < port) × (port ≤ 65535)
unfolding port_loop value_of
port_loop-reads whole [] value port h = ground arith
port_loop-reads whole (c ∷ text) value port h =
    let next = value * 10 + (c - b'0') in
    let P = (λ (r : Parsed ℕ).
      r ≡ success port
      → All IsDigit (c ∷ text) × (port ≡ value_of text next) × (0 < port) × (port ≤ 65535)) in
    if_known P (not (is_digit c)) (λ t e. absurd cc)
      (λ t.
        if_known P (ltb 65535 next) (λ u e. absurd cc)
          (λ u e.
            let (ds, v, lo, hi) = port_loop-reads whole text next port (ground arith) e in
            ((ground arith, ds), v, lo, hi)))

-- A text is read as a port exactly if it is not empty, has decimal digits alone and a value from 1
-- to 65535, and the port is that value.
pub parse_port_iff :
    (text : Bytes) (port : ℕ)
    → (parse_port text ≡ success port)
      ↔ ((text ≢ []) × All IsDigit text × (port ≡ value_of text 0) × (0 < port) × (port ≤ 65535))
unfolding parse_port
parse_port_iff [] port = (λ e. absurd cc, λ h. absurd (h.0 refl))
parse_port_iff (c ∷ text) port = (
  λ e.
      let (ds, v, lo, hi) = port_loop-reads (c ∷ text) (c ∷ text) 0 port (omega arith) e in
      ((λ n. cc), ds, v, lo, hi),
  λ (ne, ds, e, lo, hi).
      port_loop-value (c ∷ text) (c ∷ text) 0 ds (ground arith) (ground arith) ∙ ap success (sym e),
)
