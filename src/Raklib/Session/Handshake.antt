-- ===== src/Raklib/Session/Handshake.antt =====
-- The replies that src/raklib/Session.cpp builds: addresses, the server handshake, the second reply
-- of an open connection.
use mpmpescore_cpp.Prelude.{
  ℕ, zero, suc, ◌+◌, ◌-◌, ◌*◌, ◌%◌, ◌^◌, Bool, ltb, ◌&&◌, ◌||◌, Option, none, some, [], ◌∷◌, leb,
  ◌==◌, if◌then◌else◌, ◌>>=◌,
}
use mpmpescore_cpp.Binary.{Bytes}
use mpmpescore_cpp.Binary.Stream.{BinaryStream, empty, put, put_byte, put_short, put_long}
use mpmpescore_cpp.Raklib.Constants.{magic, id_server_handshake, id_open_connection_reply_2}
use mpmpescore_cpp.Raklib.Session.{Session}
use mpmpescore_cpp.Raklib.Session.Send.{send_bytes}

-- sscanf: the white space before a number, its sign, its digits. The value is that of strtoul with 64
-- bits, which stops at the largest one, and its low 32 bits are kept.
abbrev is_space : ℕ → Bool
is_space c = (leb 9 c && leb c 13) || c == 32

abbrev is_digit : ℕ → Bool
is_digit c = leb b'0' c && leb c b'9'

unfoldable pub skip_spaces : Bytes → Bytes
skip_spaces [] = []
skip_spaces (c ∷ cs) = let rest = skip_spaces cs in if is_space c then rest else c ∷ cs

unfoldable pub scan_digits : ℕ → Bytes → ℕ × Bytes
scan_digits v [] = (v, [])
scan_digits v (c ∷ cs) =
    let more = scan_digits (v * 10 + (c - b'0')) cs in if is_digit c then more else (v, c ∷ cs)

unfoldable pub scan_number : Bytes → Option (ℕ × Bytes)
unfolding scan_digits
scan_number [] = none
scan_number (c ∷ cs) = if is_digit c then some (scan_digits 0 (c ∷ cs)) else none

abbrev narrow : Bool → ℕ × Bytes → ℕ × Bytes
narrow negative (v, cs) =
    (if ltb v (2 ^ 64) then (if negative then 2 ^ 64 - v else v) % 2 ^ 32 else 2 ^ 32 - 1, cs)

scan_signed : Bytes → Option (ℕ × Bytes)
unfolding scan_number
scan_signed [] = none
scan_signed (c ∷ cs) =
    let after_sign = if c == b'+' || c == b'-' then cs else c ∷ cs in
    scan_number after_sign >>= λ r. some (narrow (c == b'-') r)

-- `%u`.
unfoldable pub scan_u : Bytes → Option (ℕ × Bytes)
unfolding scan_signed skip_spaces
scan_u cs = scan_signed (skip_spaces cs)

unfoldable pub scan_dot : Bytes → Option Bytes
scan_dot [] = none
scan_dot (c ∷ cs) = if c == b'.' then some cs else none

-- `sscanf(s, "%u.%u.%u.%u", …) == 4`.
unfoldable pub scan_quad : Bytes → Option (ℕ × ℕ × ℕ × ℕ)
unfolding scan_u scan_dot
scan_quad cs = do
  (a, cs) ← scan_u cs
  cs ← scan_dot cs
  (b, cs) ← scan_u cs
  cs ← scan_dot cs
  (c, cs) ← scan_u cs
  cs ← scan_dot cs
  (d, cs) ← scan_u cs
  some (a, b, c, d)

-- `(~v) & 0xFF`.
abbrev pub inverted : ℕ → ℕ
inverted v = 255 - v % 256

abbrev put_quad : Option (ℕ × ℕ × ℕ × ℕ) → BinaryStream → BinaryStream
put_quad none out = put_byte 0xFF (put_byte 0xFF (put_byte 0xFF (put_byte 0xFF out)))
put_quad (some (a, b, c, d)) out =
    put_byte (inverted d)
      (put_byte (inverted c) (put_byte (inverted b) (put_byte (inverted a) out)))

unfoldable pub put_address : Bytes → ℕ → BinaryStream → BinaryStream
unfolding scan_quad put_byte put_short
put_address address port out = put_short port (put_quad (scan_quad address) (put_byte 4 out))

-- "127.0.0.1" and "0.0.0.0".
abbrev pub local_address : Bytes
local_address = b'1' ∷ b'2' ∷ b'7' ∷ b'.' ∷ b'0' ∷ b'.' ∷ b'0' ∷ b'.' ∷ b'1' ∷ []

abbrev pub any_address : Bytes
any_address = b'0' ∷ b'.' ∷ b'0' ∷ b'.' ∷ b'0' ∷ b'.' ∷ b'0' ∷ []

-- The loop over the ten system addresses: `rounds` are left, `i` is the next.
unfoldable pub put_system_addresses : ℕ → ℕ → BinaryStream → BinaryStream
unfolding put_address
put_system_addresses zero i out = out
put_system_addresses (suc rounds) i out =
    put_system_addresses rounds (i + 1)
      (put_address (if i == 0 then local_address else any_address) 0 out)

unfoldable pub encode_server_handshake : ℕ → Session → Bytes
unfolding put_system_addresses put_long
encode_server_handshake send_ping s =
    let out = put_byte id_server_handshake empty in
    let out = put_address s.endpoint.address s.endpoint.port out in
    let out = put_short 0 out in
    let out = put_system_addresses 10 0 out in
    let out = put_long send_ping out in (put_long ((send_ping + 1000) % 2 ^ 64) out).buffer

unfoldable pub send_open_connection_reply_2 : Session → Session
unfolding send_bytes
send_open_connection_reply_2 s =
    let out = put magic (put_byte id_open_connection_reply_2 empty) in
    let out = put_long s.server_id out in
    let out = put_address s.endpoint.address s.endpoint.port out in
    let out = put_short s.mtu_size out in send_bytes (put_byte 0 out).buffer s
