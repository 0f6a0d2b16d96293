-- ===== src/Log/Tests.antt =====
-- The names of concrete packets.
use raknet_shim.Prelude.{◌≡◌, refl, [], ◌∷◌, ok, arith}
use raknet_shim.Prelude.Text.{bytes_of}
use raknet_shim.Packet.{Packet, reliable_ordered}
use raknet_shim.Log.{packet_name, game_name, name_of, numbered, decimal}
use raknet_shim.Log.Printable.{Names, packet_name-Names}

abbrev unknown : Packet
unknown = record { reliability = reliable_ordered; bytes = 83 ∷ 4 ∷ 0 ∷ 120 ∷ 0 ∷ 0 ∷ 0 ∷ 0 ∷ [] }

unknown_named : packet_name unknown ≡ ok (bytes_of "53-4-0-120")
unfolding packet_name game_name name_of numbered decimal
unknown_named = refl

packet_name-Names_example : Names (packet_name unknown)
packet_name-Names_example = packet_name-Names unknown (omega arith)
