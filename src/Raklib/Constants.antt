-- ===== src/Raklib/Constants.antt =====
-- include/mpmpes/raklib/RakLibConstants.hpp and the packet ids of src/raklib/Session.cpp.
use mpmpescore_cpp.Prelude.{ℕ, List, [], ◌∷◌}

-- `MAGIC`.
abbrev pub magic : List ℕ
magic =
    0x00 ∷ 0xff ∷ 0xff ∷ 0x00 ∷ 0xfe ∷ 0xfe ∷ 0xfe ∷ 0xfe ∷ 0xfd ∷ 0xfd ∷ 0xfd ∷ 0xfd ∷ 0x12 ∷ 0x34
    ∷ 0x56 ∷ 0x78 ∷ []

abbrev pub id_unconnected_ping : ℕ
id_unconnected_ping = 0x01

abbrev pub id_unconnected_ping_open_connections : ℕ
id_unconnected_ping_open_connections = 0x02

abbrev pub id_open_connection_request_1 : ℕ
id_open_connection_request_1 = 0x05

abbrev pub id_open_connection_reply_1 : ℕ
id_open_connection_reply_1 = 0x06

abbrev pub id_open_connection_request_2 : ℕ
id_open_connection_request_2 = 0x07

abbrev pub id_open_connection_reply_2 : ℕ
id_open_connection_reply_2 = 0x08

abbrev pub id_unconnected_pong : ℕ
id_unconnected_pong = 0x1c

abbrev pub id_nack : ℕ
id_nack = 0xa0

abbrev pub id_ack : ℕ
id_ack = 0xc0

-- `kIdClientConnect` and its neighbours.
abbrev pub id_client_connect : ℕ
id_client_connect = 0x09

abbrev pub id_server_handshake : ℕ
id_server_handshake = 0x10

abbrev pub id_client_handshake : ℕ
id_client_handshake = 0x13

abbrev pub id_client_disconnect : ℕ
id_client_disconnect = 0x15

abbrev pub id_connected_ping : ℕ
id_connected_ping = 0x00

abbrev pub id_connected_pong : ℕ
id_connected_pong = 0x03
