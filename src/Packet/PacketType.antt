-- ===== src/Packet/PacketType.antt =====
-- lab3/lib/packet.go: the values of the type byte. `data_type` is DATA.
use comp6461_computer_networ.Base.{ℕ}

abbrev pub data_type : ℕ
data_type = 0

abbrev pub syn : ℕ
syn = 1

abbrev pub ack : ℕ
ack = 2

abbrev pub synack : ℕ
synack = 3

abbrev pub fin : ℕ
fin = 4

abbrev pub deliver : ℕ
deliver = 5
