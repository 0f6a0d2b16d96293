-- ===== src/Log.antt =====
-- src/log.rs: the names of packets for the program's log.
pub mod Printable
mod Tests
use raknet_shim.Prelude.{
  ℕ, ◌+◌, ◌/◌, ◌%◌, List, [], ◌∷◌, ◌++◌, length, Option, none, some, get_elem?, ltb, leb, ◌==◌,
  if◌then◌else◌, Outcome, ok, panic, ◌>>=◌,
}
use raknet_shim.Prelude.Text.{bytes_of}
use raknet_shim.Packet.{Packet}

-- An index into a slice.
abbrev pub at : List ℕ → ℕ → Outcome ℕ
at bytes i = elim (get_elem? bytes i) [ some b ↦ ok b | none ↦ panic ]

-- What `{}` makes of a `u8`.
pub decimal : ℕ → List ℕ
decimal n =
    if ltb n 10
    then (48 + n) ∷ []
    else if ltb n 100
    then (48 + n / 10) ∷ (48 + n % 10) ∷ []
    else (48 + n / 100) ∷ (48 + n / 10 % 10) ∷ (48 + n % 10) ∷ []

-- A `match` on a byte, whose arms are texts: the arms, and what stands at `_`.
pub name_of : List (ℕ × List ℕ) → List ℕ → ℕ → List ℕ
name_of [] otherwise b = otherwise
name_of ((k, name) ∷ names) otherwise b = if b == k then name else name_of names otherwise b

abbrev pub system_names : List (ℕ × List ℕ)
system_names =
    (0, bytes_of "InternalPing")
    ∷ (3, bytes_of "ConnectedPong")
    ∷ (4, bytes_of "ConnectionRequest")
    ∷ (14, bytes_of "ConnectionRequestAccepted")
    ∷ (17, bytes_of "NewIncomingConnection")
    ∷ (19, bytes_of "DisconnectNotification")
    ∷ (36, bytes_of "ReplicaManagerConstruction")
    ∷ (37, bytes_of "ReplicaManagerDestruction")
    ∷ (39, bytes_of "ReplicaManagerSerialize")
    ∷ []

abbrev pub world_names : List (ℕ × List ℕ)
world_names =
    (1, bytes_of "SessionInfo")
    ∷ (2, bytes_of "CharacterListRequest")
    ∷ (4, bytes_of "EnterWorld")
    ∷ (5, bytes_of "GameMessage")
    ∷ (15, bytes_of "Routing")
    ∷ (19, bytes_of "LoadComplete")
    ∷ (22, bytes_of "PositionUpdate")
    ∷ (23, bytes_of "Mail")
    ∷ (25, bytes_of "StringCheck")
    ∷ []

abbrev pub client_names : List (ℕ × List ℕ)
client_names =
    (0, bytes_of "LoginResponse")
    ∷ (2, bytes_of "LoadWorld")
    ∷ (4, bytes_of "CharacterData")
    ∷ (6, bytes_of "CharacterList")
    ∷ (12, bytes_of "GameMessage")
    ∷ (14, bytes_of "GeneralChatMessage")
    ∷ (49, bytes_of "Mail")
    ∷ (59, bytes_of "Moderation")
    ∷ []

-- `format!("53-{}-0-{}", kind, id)`; two arms have a space in front.
pub numbered : ℕ → ℕ → List ℕ
numbered kind id = bytes_of "53-" ++ (decimal kind ++ (bytes_of "-0-" ++ decimal id))

abbrev pub spaced : ℕ → ℕ → List ℕ
spaced kind id = 32 ∷ numbered kind id

-- `match packet.data[1]`, and in its arms `match packet.data[3]`
pub game_name : ℕ → ℕ → List ℕ
game_name kind id =
    if kind == 0
    then name_of ((0, bytes_of "Handshake") ∷ []) (numbered kind id) id
    else if kind == 1
    then name_of ((0, bytes_of "LoginRequest") ∷ []) (spaced kind id) id
    else if kind == 2
    then name_of ((1, bytes_of "GeneralChatMessage") ∷ []) (spaced kind id) id
    else if kind == 4
    then name_of world_names (numbered kind id) id
    else if kind == 5
    then name_of client_names (numbered kind id) id
    else numbered kind id

pub packet_name : Packet → Outcome (List ℕ)
packet_name packet =
    let len = length packet.bytes in
    if len == 0
    then ok (bytes_of "<Empty packet>")
    else (at packet.bytes 0 >>= λ id.
        if id == 83
        then (if leb 8 len
            then (at packet.bytes 1 >>= λ kind.
                at packet.bytes 3 >>= λ message. ok (game_name kind message))
            else ok (bytes_of "LU packet too short!"))
        else ok (name_of system_names (decimal id) id))
