-- ===== src/Endpoint/Segments.antt =====
-- How a request is cut into packets: the plain description that `send` is proved against.
use comp6461_computer_networ.Base.{ℕ, zero, suc, ◌+◌, ◌*◌, ◌≤◌, ◌<◌, ◌≡◌, refl, ap, ◌∙◌, arith}
use comp6461_computer_networ.Base.{Option, none, List, [], ◌∷◌, ◌++◌, length, take, drop, concat}
use comp6461_computer_networ.Base.{All, take-append-drop, take_all, length-take, length-drop}
use comp6461_computer_networ.Base.{length-append, Bool-cases, inl, inr, leb}
use comp6461_computer_networ.Packet.{UdpAddr, Packet, max_payload}
use comp6461_computer_networ.Packet.PacketType
use comp6461_computer_networ.Endpoint.{control, slice_payload}

-- Pieces of 1013 bytes, the last one shorter. The fuel need not pass the number of bytes.
unfoldable pub chunks : ℕ → List ℕ → List (List ℕ)
chunks zero bytes = []
chunks (suc fuel) [] = []
chunks (suc fuel) (b ∷ bytes) =
    take max_payload (b ∷ bytes) ∷ chunks fuel (drop max_payload (b ∷ bytes))

-- A DATA packet for each piece, numbered from `seq` on, and the DELIVER packet behind them.
abbrev pub content_packet : Option UdpAddr → ℕ → List ℕ → Packet
content_packet to seq payload = record {
  type = PacketType.data_type;
  seq_num = seq;
  to_addr = to;
  from_addr = none;
  payload = payload;
}

unfoldable pub data_packets : Option UdpAddr → ℕ → List (List ℕ) → List Packet
data_packets to seq [] = []
data_packets to seq (c ∷ cs) = content_packet to seq c ∷ data_packets to (seq + 1) cs

unfoldable pub request_chunks : List ℕ → List (List ℕ)
request_chunks req = chunks (length req) req

unfoldable pub request_packets : Option UdpAddr → ℕ → List ℕ → List Packet
unfolding request_chunks
request_packets to seq req =
    data_packets to seq (request_chunks req)
    ++ (control PacketType.deliver (seq + length (request_chunks req)) to ∷ [])

pub chunks_step :
    (fuel : ℕ) (bytes : List ℕ)
    → 0 < length bytes
    → chunks (suc fuel) bytes ≡ take max_payload bytes ∷ chunks fuel (drop max_payload bytes)
unfolding chunks
chunks_step fuel [] h = absurd (omega arith)
chunks_step fuel (b ∷ bytes) h = refl

pub chunks_end : (fuel : ℕ) (bytes : List ℕ) → length bytes ≡ 0 → chunks fuel bytes ≡ []
unfolding chunks
chunks_end zero bytes h = refl
chunks_end (suc fuel) [] h = refl
chunks_end (suc fuel) (b ∷ bytes) h = absurd (omega arith)

pub slice_payload_lem :
    (req : List ℕ) (start : ℕ) → slice_payload req start ≡ take max_payload (drop start req)
slice_payload_lem req start = elim (Bool-cases (leb (length req) (start + max_payload))) [
  | inl last ↦
      rw last (rw (take_all max_payload (drop start req) (ground (arith, length-drop start req))))
  | inr more ↦ rw more
]

-- The pieces put together are the request.
pub concat-chunks :
    (fuel : ℕ) (bytes : List ℕ) → length bytes ≤ fuel → concat (chunks fuel bytes) ≡ bytes
unfolding chunks
concat-chunks zero [] h = refl
concat-chunks zero (b ∷ bytes) h = absurd (omega arith)
concat-chunks (suc fuel) [] h = refl
concat-chunks (suc fuel) (b ∷ bytes) h =
    ap (λ (rest : List ℕ). take max_payload (b ∷ bytes) ++ rest)
      (concat-chunks fuel (drop max_payload (b ∷ bytes))
        (omega (arith, length-drop max_payload (b ∷ bytes))))
    ∙ take-append-drop max_payload (b ∷ bytes)

abbrev pub IsPiece : List ℕ → Type 0
IsPiece c = (0 < length c) × (length c ≤ max_payload)

-- Every piece has 1 to 1013 bytes.
pub chunks-IsPiece : (fuel : ℕ) (bytes : List ℕ) → All IsPiece (chunks fuel bytes)
unfolding chunks
chunks-IsPiece zero bytes = tt
chunks-IsPiece (suc fuel) [] = tt
chunks-IsPiece (suc fuel) (b ∷ bytes) = (
  (
    omega (arith, length-take max_payload (b ∷ bytes)),
    omega (arith, length-take max_payload (b ∷ bytes)),
  ),
  chunks-IsPiece fuel (drop max_payload (b ∷ bytes)),
)

-- Their number is the length over 1013, rounded up.
pub length-chunks :
    (fuel : ℕ) (bytes : List ℕ)
    → length bytes ≤ fuel
    → (length bytes ≤ length (chunks fuel bytes) * max_payload)
      × (length (chunks fuel bytes) * max_payload < length bytes + max_payload)
unfolding chunks
length-chunks zero [] h = omega arith
length-chunks zero (b ∷ bytes) h = absurd (omega arith)
length-chunks (suc fuel) [] h = omega arith
length-chunks (suc fuel) (b ∷ bytes) h =
    let rest =
      length-chunks fuel (drop max_payload (b ∷ bytes))
        (omega (arith, length-drop max_payload (b ∷ bytes))) in
    omega (arith, rest, length-drop max_payload (b ∷ bytes))

pub length-data_packets :
    (to : Option UdpAddr) (seq : ℕ) (cs : List (List ℕ))
    → length (data_packets to seq cs) ≡ length cs
unfolding data_packets
length-data_packets to seq [] = refl
length-data_packets to seq (c ∷ cs) = ap suc (length-data_packets to (seq + 1) cs)

-- A request of at most 1022 times 1013 bytes has at most 1022 pieces.
pub length-request_chunks :
    (req : List ℕ) → length req ≤ 1022 * max_payload → length (request_chunks req) ≤ 1022
unfolding request_chunks
length-request_chunks req h = omega (arith, length-chunks (length req) req)

pub length-request_packets :
    (to : Option UdpAddr) (seq : ℕ) (req : List ℕ)
    → length (request_packets to seq req) ≡ suc (length (request_chunks req))
unfolding request_packets
length-request_packets to seq req =
    length-append (data_packets to seq (request_chunks req)) _
    ∙ omega (arith, length-data_packets to seq (request_chunks req))
