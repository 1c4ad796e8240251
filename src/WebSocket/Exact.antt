-- ===== src/WebSocket/Exact.antt =====
-- recv_exact of src/transport/websocket_client.cpp: what arrives in pieces is read as one text.
use zoal_atc.Common.{
  ℕ, zero, suc, ◌+◌, ◌-◌, ◌≤◌, ◌<◌, min, ◌≡◌, refl, sym, ap, ◌∙◌, true, List, [], ◌∷◌, ◌++◌, some,
  arith, Bytes, length, take, drop, append_assoc, append-nil, length-append, length-take, take-drop,
}
use zoal_atc.Endpoint.{Parsed, success}
use zoal_atc.WebSocket.Link.{Link, arrived, recv_socket, left_over, flat}
use zoal_atc.WebSocket.Client.{
  Client, Action, pure, continue, ◌>>=◌, close_locked, close_with, read_error, io_chunk, recv_loop,
  recv_exact,
}

-- A client that is connected, with what can arrive.
abbrev pub with_segments : Client → Link → List (ℕ × Bytes) → Client
with_segments c link segments = record c {
  socket = some (record link { segments = segments });
  connected = true;
}

flat-left_over :
    (bytes : Bytes) (segments : List (ℕ × Bytes))
    → flat (left_over bytes segments) ≡ bytes ++ flat segments
flat-left_over [] segments = refl
flat-left_over (b ∷ bytes) segments = refl

-- A read gives a beginning of what is to arrive, neither empty nor longer than asked for.
pub recv_socket-arrived :
    (chunk : ℕ) (segments : List (ℕ × Bytes))
    → 0 < chunk
    → 0 < length (flat segments)
    → (bytes : Bytes) × (rest : List (ℕ × Bytes)) × (recv_socket chunk segments
        ≡ arrived bytes rest)
      × (flat segments ≡ bytes ++ flat rest)
      × (0 < length bytes)
      × (length bytes ≤ chunk)
recv_socket-arrived chunk [] h k = absurd (omega arith)
recv_socket-arrived chunk ((b, more) ∷ segments) h k = (
  take chunk (b ∷ more),
  left_over (drop chunk (b ∷ more)) segments,
  refl,
  cut,
  omega (arith, length-take chunk (b ∷ more)),
  omega (arith, length-take chunk (b ∷ more)),
)
  where
    cut :
        flat ((b, more) ∷ segments)
        ≡ take chunk (b ∷ more) ++ flat (left_over (drop chunk (b ∷ more)) segments)
    cut =
        rw
          (
            flat-left_over (drop chunk (b ∷ more)) segments,
            sym (append_assoc (take chunk (b ∷ more)) (drop chunk (b ∷ more)) (flat segments)),
            take-drop chunk (b ∷ more),
          )
          refl

-- Of two ways to cut a text, the shorter beginning begins the longer one.
shorter_beginning :
    (xs ys zs ws : Bytes)
    → xs ++ ys ≡ zs ++ ws
    → length xs ≤ length zs
    → (more : Bytes) × (zs ≡ xs ++ more) × (ys ≡ more ++ ws)
shorter_beginning [] ys zs ws e h = (zs, refl, e)
shorter_beginning (x ∷ xs) ys [] ws e h = absurd (omega arith)
shorter_beginning (x ∷ xs) ys (z ∷ zs) ws e h =
    let tails : xs ++ ys ≡ zs ++ ws = cc in
    let heads : x ≡ z = cc in
    let le : length xs ≤ length zs = omega arith in
    let (more, f, g) = shorter_beginning xs ys zs ws tails le in (more, (rw (f, heads) refl), g)

-- A round of the loop that receives something.
recv_loop-arrived :
    (c : Client) (link : Link) (fuel size : ℕ) (before : Bytes) (segments : List (ℕ × Bytes))
    (bytes : Bytes) (left : List (ℕ × Bytes))
    → recv_socket (min (suc size) io_chunk) segments ≡ arrived bytes left
    → recv_loop (suc fuel) (suc size) before (with_segments c link segments)
      ≡ recv_loop fuel (suc size - length bytes) (before ++ bytes) (with_segments c link left)
unfolding recv_loop
recv_loop-arrived c link fuel size before segments bytes left r = rw (r, recv_loop) refl

recv_loop-goes_on :
    (c : Client) (link : Link) (fuel t : ℕ) (text before bytes more : Bytes)
    (segments left last : List (ℕ × Bytes))
    → recv_socket (min (suc (length text)) io_chunk) segments ≡ arrived bytes left
    → t ∷ text ≡ bytes ++ more
    → recv_loop fuel (length more) (before ++ bytes) (with_segments c link left)
      ≡ (with_segments c link last, success ((before ++ bytes) ++ more))
    → recv_loop (suc fuel) (suc (length text)) before (with_segments c link segments)
      ≡ (with_segments c link last, success (before ++ t ∷ text))
recv_loop-goes_on c link fuel t text before bytes more segments left last r g n =
    let total : suc (length text) ≡ length bytes + length more =
      ap length g ∙ length-append bytes more in
    let size : suc (length text) - length bytes ≡ length more = omega (arith, total) in
    recv_loop-arrived c link fuel (length text) before segments bytes left r
    ∙ rw (size, g, sym (append_assoc before bytes more)) n

-- Where `text` is to arrive, the loop reads it whole and no further.
recv_loop-reads :
    (c : Client) (link : Link) (rest : Bytes) (fuel : ℕ) (text before : Bytes)
    (segments : List (ℕ × Bytes))
    → length text ≤ fuel
    → flat segments ≡ text ++ rest
    → (left : List (ℕ × Bytes)) × (flat left ≡ rest)
      × (recv_loop fuel (length text) before (with_segments c link segments)
          ≡ (with_segments c link left, success (before ++ text)))
recv_loop-reads c link rest fuel [] before segments h e = (
  segments,
  e,
  unfold recv_loop in
      ap (λ (got : Bytes). (with_segments c link segments, success got)) (sym (append-nil before)),
)
recv_loop-reads c link rest zero (t ∷ text) before segments h e = absurd (omega arith)
recv_loop-reads c link rest (suc fuel) (t ∷ text) before segments h e =
    let chunk = min (suc (length text)) io_chunk in
    let (bytes, left, r, f, lo, hi) =
      recv_socket-arrived chunk segments (omega arith) (rw e (omega arith)) in
    let (more, g, k) =
      shorter_beginning bytes (flat left) (t ∷ text) rest (sym f ∙ e) (omega (arith, hi)) in
    let total : suc (length text) ≡ length bytes + length more =
      ap length g ∙ length-append bytes more in
    let le : length more ≤ fuel = omega (arith, total, lo) in
    let (last, m, n) = recv_loop-reads c link rest fuel more (before ++ bytes) left le k in
    (last, m, recv_loop-goes_on c link fuel t text before bytes more segments left last r g n)

-- Where fewer bytes than asked for are to arrive, the connection is closed with what ends them.
recv_loop-ends :
    (c : Client) (link : Link) (fuel size : ℕ) (before : Bytes) (segments : List (ℕ × Bytes))
    → size ≤ fuel
    → length (flat segments) < size
    → recv_loop fuel size before (with_segments c link segments)
      ≡ close_with (read_error link.ending) c
recv_loop-ends c link fuel zero before segments h k = absurd (omega arith)
recv_loop-ends c link zero (suc size) before segments h k = absurd (omega arith)
recv_loop-ends c link (suc fuel) (suc size) before [] h k =
    unfold recv_loop close_with close_locked in refl
recv_loop-ends c link (suc fuel) (suc size) before (segment ∷ segments) h k =
    let chunk = min (suc size) io_chunk in
    let (bytes, left, r, f, lo, hi) =
      recv_socket-arrived chunk (segment ∷ segments) (omega arith) (omega arith) in
    let total : length (flat (segment ∷ segments)) ≡ length bytes + length (flat left) =
      ap length f ∙ length-append bytes (flat left) in
    recv_loop-arrived c link fuel size before (segment ∷ segments) bytes left r
    ∙ recv_loop-ends c link fuel (suc size - length bytes) (before ++ bytes) left
        (omega (arith, lo)) (omega (arith, lo, hi, total))

-- An operation that takes `text` off what is to arrive next, in segments of whatever sizes, gives
-- `value`, and changes nothing else.
abbrev pub Reads {ℓ} : {A : Type ℓ} → Action A → Bytes → A → Type ℓ
Reads m text value =
    (c : Client) (link : Link) (segments : List (ℕ × Bytes)) (rest : Bytes)
    → flat segments ≡ text ++ rest
    → (left : List (ℕ × Bytes)) × (flat left ≡ rest)
      × (m (with_segments c link segments) ≡ (with_segments c link left, success value))

pub pure-Reads {ℓ} : {A : Type ℓ} (value : A) → Reads (pure value) [] value
pure-Reads value c link segments rest e = (segments, e, refl)

pub continue-then {ℓ κ} :
    {A : Type ℓ} {B : Type κ} (r : Client × Parsed A) (f : A → Action B) (c : Client) (a : A)
    → r ≡ (c, success a)
    → continue r f ≡ f a c
continue-then r f c a e = rw e refl

pub bind-Reads {ℓ κ} :
    {A : Type ℓ} {B : Type κ} (m : Action A) (f : A → Action B) (first second : Bytes) (a : A)
    (b : B)
    → Reads m first a
    → Reads (f a) second b
    → Reads (m >>= f) (first ++ second) b
bind-Reads m f first second a b p q c link segments rest e =
    let (middle, g, h) = p c link segments (second ++ rest) (e ∙ append_assoc first second rest) in
    let (left, k, n) = q c link middle rest g in
    (
      left,
      k,
      continue-then (m (with_segments c link segments)) f (with_segments c link middle) a h ∙ n,
    )

-- A read of as many bytes as there are in `text`, where these are to arrive next in segments of
-- whatever sizes, gives `text`, and leaves what follows it to arrive.
pub recv_exact-Reads : (text : Bytes) → Reads (recv_exact (length text)) text text
unfolding recv_exact
recv_exact-Reads text c link segments rest e =
    recv_loop-reads c link rest (length text) text [] segments (omega arith) e

-- A read of more bytes than are to arrive closes the connection, and fails with what ended them.
pub recv_exact-ends :
    (c : Client) (link : Link) (segments : List (ℕ × Bytes)) (size : ℕ)
    → length (flat segments) < size
    → recv_exact size (with_segments c link segments) ≡ close_with (read_error link.ending) c
unfolding recv_exact
recv_exact-ends c link segments size h = recv_loop-ends c link size size [] segments (omega arith) h
