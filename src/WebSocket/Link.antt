-- ===== src/WebSocket/Link.antt =====
-- What the socket of src/transport/websocket_client.cpp is connected to. The system's `recv` and
-- `send` are not code of the repository: the bytes that arrive come in segments of any size, then the
-- peer closes or the connection breaks, and a write takes as much as the system says.
use zoal_atc.Common.{ℕ, suc, List, [], ◌∷◌, ◌++◌, Bytes, take, drop, min}

-- How the arriving bytes end.
pub data Ending : Type 0 where
  closed : Ending
  broken : Bytes → Ending

-- One answer of `send`: up to that many bytes and one, or an error with its message.
pub data Write : Type 0 where
  takes : ℕ → Write
  refuses : Bytes → Write

-- A segment is its first byte and the others. `sent` is what has been written. Once the list of
-- answers is used up each write takes all it is given.
pub record Link : Type 0 where
  pub segments : List (ℕ × Bytes)
  pub ending : Ending
  pub writes : List Write
  pub sent : Bytes

-- What is left of a segment in front of the others.
abbrev pub left_over : Bytes → List (ℕ × Bytes) → List (ℕ × Bytes)
left_over [] segments = segments
left_over (b ∷ more) segments = (b, more) ∷ segments

-- What `recv` gives.
pub data Arrival : Type 0 where
  arrived : Bytes → List (ℕ × Bytes) → Arrival
  nothing : Arrival

-- `recv` of at most `chunk` bytes.
abbrev pub recv_socket : ℕ → List (ℕ × Bytes) → Arrival
recv_socket chunk [] = nothing
recv_socket chunk ((b, more) ∷ segments) =
    arrived (take chunk (b ∷ more)) (left_over (drop chunk (b ∷ more)) segments)

-- How many bytes `send` of a chunk takes, and the answers left.
pub data Sending : Type 0 where
  took : ℕ → List Write → Sending
  refused : Bytes → List Write → Sending

abbrev pub send_socket : ℕ → List Write → Sending
send_socket chunk [] = took chunk []
send_socket chunk (takes n ∷ writes) = took (min (suc n) chunk) writes
send_socket chunk (refuses message ∷ writes) = refused message writes

-- All the bytes that are still to arrive, whatever their segments.
abbrev pub flat : List (ℕ × Bytes) → Bytes
flat [] = []
flat ((b, more) ∷ segments) = (b ∷ more) ++ flat segments
