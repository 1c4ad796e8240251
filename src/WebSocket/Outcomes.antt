-- ===== src/WebSocket/Outcomes.antt =====
-- How receive_text of src/transport/websocket_client.cpp can end, whatever arrives.
use zoal_atc.Common.{
  ℕ, ◌+◌, ◌%◌, ◌≤◌, ◌≡◌, refl, sym, ap, ◌∙◌, ◌⊎◌, inl, inr, Bool, true, false, List, [], arith, leb,
  ltb, ◌==◌, Bool-cases, if_both, if_known, Bytes, codes, length, take, drop, get_or, take-drop,
  length-take, length-drop,
}
use zoal_atc.Endpoint.{Parsed, success}
use zoal_atc.WebSocket.Frame.{read_u16, read_u64}
use zoal_atc.WebSocket.Link.{Link, flat}
use zoal_atc.WebSocket.Client.{
  Client, Action, pure, continue, ◌>>=◌, close_locked, close_with, read_error, recv_exact,
}
use zoal_atc.WebSocket.Receive.{
  InboundFrame, max_inbound_frame_bytes, payload_size, check_size, frame_mask, unmasked,
  read_payload, inbound_frame, read_rest, read_frame,
}
use zoal_atc.WebSocket.Exact.{with_segments, recv_exact-Reads, recv_exact-ends}
use zoal_atc.WebSocket.Masks.{length-mask_from}

-- The connection is closed with a message.
abbrev pub Closes {ℓ} : {A : Type ℓ} → Client → Client × Parsed A → Type ℓ
Closes c r = (message : Bytes) × (r ≡ close_with message c)

-- A value with the property, and so many bytes taken of those to arrive.
abbrev pub Gives {ℓ κ} :
    {A : Type ℓ}
    → (A → Type κ)
    → ℕ
    → Client
    → Link
    → List (ℕ × Bytes)
    → Client × Parsed A
    → Type (ℓ ⊔ κ)
Gives P k c link segments r =
    (a : _) × (left : List (ℕ × Bytes)) × (r ≡ (with_segments c link left, success a))
    × P a
    × (length (flat left) + k ≤ length (flat segments))

abbrev pub Ends {ℓ κ} : {A : Type ℓ} → (A → Type κ) → ℕ → Action A → Type (ℓ ⊔ κ)
Ends P k m =
    (c : Client) (link : Link) (segments : List (ℕ × Bytes))
    → Closes c (m (with_segments c link segments))
      ⊎ Gives P k c link segments (m (with_segments c link segments))

pub pure-Ends {ℓ κ} : {A : Type ℓ} (P : A → Type κ) (a : A) → P a → Ends P 0 (pure a)
pure-Ends P a p c link segments = inr (a, segments, refl, p, omega arith)

continue-close {ℓ κ} :
    {A : Type ℓ} {B : Type κ} (r : Client × Parsed A) (f : A → Action B) (c : Client)
    → Closes c r
    → Closes c (continue r f)
unfolding close_with
continue-close r f c (message, e) = (message, rw e refl)

continue-give {ℓ κ ξ ζ} :
    {A : Type ℓ} {B : Type κ} (P : A → Type ξ) (Q : B → Type ζ) (k n j : ℕ) (r : Client × Parsed A)
    (f : A → Action B) (c : Client) (link : Link) (segments : List (ℕ × Bytes))
    → ((a : A) → P a → Ends Q n (f a))
    → j ≤ k + n
    → Gives P k c link segments r
    → Closes c (continue r f) ⊎ Gives Q j c link segments (continue r f)
continue-give P Q k n j r f c link segments q h (a, middle, e, p, le) =
    rw e (elim (q a p c link middle) [
      | inl (message, g) ↦ inl (message, g)
      | inr (b, left, g, pb, lf) ↦ inr (b, left, g, pb, omega (arith, h, le, lf))
    ])

pub bind-Ends {ℓ κ ξ ζ} :
    {A : Type ℓ} {B : Type κ} (P : A → Type ξ) (Q : B → Type ζ) (k n j : ℕ) (m : Action A)
    (f : A → Action B)
    → Ends P k m
    → ((a : A) → P a → Ends Q n (f a))
    → j ≤ k + n
    → Ends Q j (m >>= f)
bind-Ends P Q k n j m f p q h c link segments = elim (p c link segments) [
  | inl e ↦ inl (continue-close (m (with_segments c link segments)) f c e)
  | inr e ↦ continue-give P Q k n j (m (with_segments c link segments)) f c link segments q h e
]

-- A read gives as many bytes as asked for, or closes.
recv_exact-Ends : (size : ℕ) → Ends (λ bytes. length bytes ≡ size) size (recv_exact size)
recv_exact-Ends size c link segments = elim (Bool-cases (leb size (length (flat segments)))) [
  | inl enough ↦
      let text = take size (flat segments) in
      let n : length text ≡ size = ground (arith, length-take size (flat segments)) in
      let (left, f, g) =
        recv_exact-Reads text c link segments (drop size (flat segments))
          (sym (take-drop size (flat segments))) in
      inr (
        text,
        left,
        sym (ap (λ (m : ℕ). recv_exact m (with_segments c link segments)) n) ∙ g,
        n,
        ground (arith, ap length f, length-drop size (flat segments)),
      )
  | inr short ↦ inl (read_error link.ending, recv_exact-ends c link segments size (ground arith))
]

any-Ends {ℓ κ} :
    {A : Type ℓ} (P : A → Type κ) (k : ℕ) (m : Action A) → Ends P k m → Ends (λ a. Unit {0}) 0 m
any-Ends P k m p c link segments = elim (p c link segments) [
  | inl h ↦ inl h
  | inr (a, left, e, pa, le) ↦ inr (a, left, e, tt, omega (arith, le))
]

abbrev Anything {ℓ} : {A : Type ℓ} → A → Type 0
Anything a = Unit

long-Ends :
    (n : ℕ) (f : Bytes → ℕ) → Ends Anything 0 (recv_exact n >>= λ extended. pure (f extended))
long-Ends n f =
    bind-Ends (λ bytes. length bytes ≡ n) Anything n 0 0 (recv_exact n)
      (λ extended. pure (f extended)) (recv_exact-Ends n)
      (λ extended h. pure-Ends Anything (f extended) tt) (omega arith)

payload_size-Ends : (size : ℕ) → Ends Anything 0 (payload_size size)
unfolding payload_size
payload_size-Ends size =
    if_both (Ends Anything 0) (size == 126) (long-Ends 2 read_u16)
      (if_both (Ends Anything 0) (size == 127) (long-Ends 8 read_u64) (pure-Ends Anything size tt))

abbrev Fits : ℕ → Unit {0} → Type 0
Fits size u = size ≤ max_inbound_frame_bytes

close_with-Ends {ℓ κ} :
    {A : Type ℓ} (P : A → Type κ) (k : ℕ) (message : Bytes) → Ends P k (close_with message)
unfolding close_with close_locked
close_with-Ends P k message c link segments = inl (message, refl)

check_size-Ends : (size : ℕ) → Ends (Fits size) 0 (check_size size)
unfolding check_size
check_size-Ends size =
    if_known (Ends (Fits size) 0) (ltb max_inbound_frame_bytes size)
      (λ t. close_with-Ends (Fits size) 0 (codes "websocket frame too large"))
      (λ f. pure-Ends (Fits size) tt (ground arith))

frame_mask-Ends : (masked : Bool) → Ends Anything 0 (frame_mask masked)
unfolding frame_mask
frame_mask-Ends masked =
    if_both (Ends Anything 0) masked
      (any-Ends (λ bytes. length bytes ≡ 4) 4 (recv_exact 4) (recv_exact-Ends 4))
      (pure-Ends Anything [] tt)

abbrev Sized : ℕ → Bytes → Type 0
Sized size bytes = length bytes ≡ size

length-unmasked :
    (masked : Bool) (mask bytes : Bytes) → length (unmasked masked mask bytes) ≡ length bytes
length-unmasked true mask bytes = length-mask_from mask 0 bytes
length-unmasked false mask bytes = refl

read_payload-Ends : (masked : Bool) (size : ℕ) → Ends (Sized size) 0 (read_payload masked size)
unfolding read_payload
read_payload-Ends masked size =
    bind-Ends Anything (Sized size) 0 0 0 (frame_mask masked)
      (λ mask. recv_exact size >>= λ bytes. pure (unmasked masked mask bytes))
      (frame_mask-Ends masked) (λ mask _. behind mask) (omega arith)
  where
    behind :
        (mask : Bytes)
        → Ends (Sized size) 0 (recv_exact size >>= λ bytes. pure (unmasked masked mask bytes))
    behind mask =
        bind-Ends (Sized size) (Sized size) size 0 0 (recv_exact size)
          (λ bytes. pure (unmasked masked mask bytes)) (recv_exact-Ends size)
          (λ bytes h.
            pure-Ends (Sized size) (unmasked masked mask bytes)
              (length-unmasked masked mask bytes ∙ h))
          (omega arith)

abbrev Bounded : InboundFrame → Type 0
Bounded frame = length frame.payload ≤ max_inbound_frame_bytes

read_rest-Ends : (header : Bytes) → Ends Bounded 0 (read_rest header)
unfolding read_rest
read_rest-Ends header =
    bind-Ends Anything Bounded 0 0 0 (payload_size (get_or header 1 0 % 128)) checked
      (payload_size-Ends (get_or header 1 0 % 128))
      (λ size _.
        bind-Ends (Fits size) Bounded 0 0 0 (check_size size) (λ _. paid size)
          (check_size-Ends size)
          (λ _ fits.
            bind-Ends (Sized size) Bounded 0 0 0 (read_payload masked size) made
              (read_payload-Ends masked size)
              (λ payload h.
                pure-Ends Bounded (inbound_frame header payload) (omega (arith, h, fits)))
              (omega arith))
          (omega arith))
      (omega arith)
  where
    masked : Bool
    masked = leb 128 (get_or header 1 0)

    made : Bytes → Action InboundFrame
    made payload = pure (inbound_frame header payload)

    paid : ℕ → Action InboundFrame
    paid size = read_payload masked size >>= made

    checked : ℕ → Action InboundFrame
    checked size = check_size size >>= λ _. paid size

pub read_frame-Ends : Ends Bounded 2 read_frame
unfolding read_frame
read_frame-Ends =
    bind-Ends (λ bytes. length bytes ≡ 2) Bounded 2 0 2 (recv_exact 2) read_rest (recv_exact-Ends 2)
      (λ header _. read_rest-Ends header) (omega arith)
