-- ===== src/Server/Bans.antt =====
-- include/mpmpes/server/Permission.hpp: bans by name, address and client. A std::map is an ascending
-- association list; texts and files are as in the list of operators.
pub mod Lookup
use mpmpescore_cpp.Prelude.{
  ℕ, ◌+◌, Bool, true, false, not, ◌&&◌, ◌||◌, Option, none, some, List, [], ◌∷◌, ◌++◌, ltb, leb,
  ◌==◌, if◌then◌else◌, is_empty, has_value, get_or, bytes_eq, map,
}
use mpmpescore_cpp.Binary.{Bytes}
use mpmpescore_cpp.Server.Permission.{
  to_lower_name, text_less, lines_of, trim_front, trim_back, is_comment,
}

-- A map from texts to texts.
abbrev pub Texts : Type 0
Texts = List (Bytes × Bytes)

abbrev pub text_find : Bytes → Texts → Option Bytes
text_find k [] = none
text_find k ((j, r) ∷ m) = if bytes_eq j k then some r else text_find k m

abbrev pub text_set : Bytes → Bytes → Texts → Texts
text_set k v [] = (k, v) ∷ []
text_set k v ((j, r) ∷ m) =
    let rest = text_set k v m in
    if text_less k j
    then (k, v) ∷ (j, r) ∷ m
    else (if bytes_eq j k then (j, v) ∷ m else (j, r) ∷ rest)

abbrev pub text_erase : Bytes → Texts → Texts
text_erase k [] = []
text_erase k ((j, r) ∷ m) =
    let rest = text_erase k m in if bytes_eq j k then rest else (j, r) ∷ rest

pub record BanList : Type 0 where
  pub names : Texts
  pub ips : Texts
  pub cids : Texts

pub data Kind : Type 0 where
  by_name by_ip by_cid : Kind

abbrev pub ip_text : Bytes
ip_text = b'i' ∷ b'p' ∷ []

abbrev pub cid_text : Bytes
cid_text = b'c' ∷ b'i' ∷ b'd' ∷ []

abbrev pub client_text : Bytes
client_text = b'c' ∷ b'l' ∷ b'i' ∷ b'e' ∷ b'n' ∷ b't' ∷ []

abbrev pub clientid_text : Bytes
clientid_text = b'c' ∷ b'l' ∷ b'i' ∷ b'e' ∷ b'n' ∷ b't' ∷ b'i' ∷ b'd' ∷ []

abbrev pub name_text : Bytes
name_text = b'n' ∷ b'a' ∷ b'm' ∷ b'e' ∷ []

abbrev pub kind_of : Bytes → Kind
kind_of kind =
    if bytes_eq kind ip_text
    then by_ip
    else (if bytes_eq kind cid_text || bytes_eq kind client_text || bytes_eq kind clientid_text
        then by_cid
        else by_name)

-- The bytes before the first `c`, and those behind it; `none` where there is no `c`.
abbrev pub split_at : ℕ → Bytes → Option (Bytes × Bytes)
split_at c [] = none
split_at c (b ∷ bs) =
    let rest = split_at c bs in
    if b == c then some ([], bs) else (elim rest as (λ _. Option (Bytes × Bytes)) [
      | none ↦ none
      | some (front, back) ↦ some (b ∷ front, back)
    ])

-- The kind of an entry and what stands behind the colon.
abbrev pub split_kind : Bytes → Kind × Bytes
split_kind line = elim (split_at b':' line) as (λ _. Kind × Bytes) [
  | none ↦ (by_name, line)
  | some (kind, rest) ↦ (kind_of (to_lower_name kind), trim_front rest)
]

-- The key of an entry and its reason.
abbrev pub split_reason : Bytes → Bytes × Bytes
split_reason rest = elim (split_at 32 rest) as (λ _. Bytes × Bytes) [
  | none ↦ (rest, [])
  | some (key, reason) ↦ (key, trim_front reason)
]

abbrev pub enter : Kind → Bytes → Bytes → BanList → BanList
enter by_name key reason bans = record bans { names = text_set key reason bans.names }
enter by_ip key reason bans = record bans { ips = text_set key reason bans.ips }
enter by_cid key reason bans = record bans { cids = text_set key reason bans.cids }

abbrev pub ban_line : Bytes → BanList → BanList
ban_line text bans =
    let line = trim_front (trim_back text) in
    let entry = split_kind line in
    let fields = split_reason entry.1 in
    if is_comment line
    then bans
    else (if is_empty entry.1
        then bans
        else (if is_empty fields.0
            then bans
            else enter entry.0 (to_lower_name fields.0) fields.1 bans))

abbrev pub ban_lines : List Bytes → BanList → BanList
ban_lines [] bans = bans
ban_lines (line ∷ lines) bans = ban_lines lines (ban_line line bans)

abbrev pub no_bans : BanList
no_bans = record { names = []; ips = []; cids = [] }

unfoldable pub load_bans : Option Bytes → BanList → BanList
load_bans none bans = no_bans
load_bans (some file) bans = ban_lines (lines_of file) no_bans

abbrev pub entry_lines : Bytes → Texts → Bytes
entry_lines kind [] = []
entry_lines kind ((k, r) ∷ m) =
    kind ++ (b':' ∷ (k ++ ((if is_empty r then [] else 32 ∷ r) ++ (10 ∷ entry_lines kind m))))

-- The four lines of comments at the top of the file.
abbrev pub bans_header : Bytes
bans_header =
    b'#' ∷ b' ' ∷ b'M' ∷ b'P' ∷ b'M' ∷ b'P' ∷ b'E' ∷ b'S' ∷ b'C' ∷ b'o' ∷ b'r' ∷ b'e' ∷ b'C' ∷ b'p'
    ∷ b'p' ∷ b' ' ∷ b'b' ∷ b'a' ∷ b'n' ∷ b's' ∷ 10 ∷ b'#' ∷ b' ' ∷ b'n' ∷ b'a' ∷ b'm' ∷ b'e' ∷ b':'
    ∷ b'<' ∷ b'p' ∷ b'l' ∷ b'a' ∷ b'y' ∷ b'e' ∷ b'r' ∷ b'>' ∷ b' ' ∷ b'[' ∷ b'r' ∷ b'e' ∷ b'a'
    ∷ b's' ∷ b'o' ∷ b'n' ∷ b']' ∷ 10 ∷ b'#' ∷ b' ' ∷ b'i' ∷ b'p' ∷ b':' ∷ b'<' ∷ b'a' ∷ b'd' ∷ b'd'
    ∷ b'r' ∷ b'e' ∷ b's' ∷ b's' ∷ b'>' ∷ b' ' ∷ b'[' ∷ b'r' ∷ b'e' ∷ b'a' ∷ b's' ∷ b'o' ∷ b'n'
    ∷ b']' ∷ 10 ∷ b'#' ∷ b' ' ∷ b'c' ∷ b'i' ∷ b'd' ∷ b':' ∷ b'<' ∷ b'c' ∷ b'l' ∷ b'i' ∷ b'e' ∷ b'n'
    ∷ b't' ∷ b'I' ∷ b'd' ∷ b'>' ∷ b' ' ∷ b'[' ∷ b'r' ∷ b'e' ∷ b'a' ∷ b's' ∷ b'o' ∷ b'n' ∷ b']' ∷ 10
    ∷ []

unfoldable pub save_bans : BanList → Bytes
save_bans bans =
    bans_header
    ++ (entry_lines name_text bans.names
        ++ (entry_lines ip_text bans.ips ++ entry_lines cid_text bans.cids))

unfoldable pub reason_for_name : Bytes → BanList → Option Bytes
reason_for_name name bans = text_find (to_lower_name name) bans.names

unfoldable pub reason_for_ip : Bytes → BanList → Option Bytes
reason_for_ip ip bans = text_find (to_lower_name ip) bans.ips

-- A client is given by the decimal text of its number.
unfoldable pub reason_for_cid : Bytes → BanList → Option Bytes
reason_for_cid cid bans = text_find cid bans.cids

unfoldable pub ban_name : Bytes → Bytes → BanList → BanList × Bool
ban_name name reason bans =
    if is_empty name
    then (bans, false)
    else (record bans { names = text_set (to_lower_name name) reason bans.names }, true)

unfoldable pub ban_ip : Bytes → Bytes → BanList → BanList × Bool
ban_ip ip reason bans =
    if is_empty ip
    then (bans, false)
    else (record bans { ips = text_set (to_lower_name ip) reason bans.ips }, true)

unfoldable pub ban_cid : Bytes → Bytes → BanList → BanList × Bool
ban_cid cid reason bans = (record bans { cids = text_set cid reason bans.cids }, true)

unfoldable pub unban_name : Bytes → BanList → BanList × Bool
unban_name name bans =
    let key = to_lower_name name in
    (record bans { names = text_erase key bans.names }, has_value (text_find key bans.names))

unfoldable pub unban_ip : Bytes → BanList → BanList × Bool
unban_ip ip bans =
    let key = to_lower_name ip in
    (record bans { ips = text_erase key bans.ips }, has_value (text_find key bans.ips))

unfoldable pub unban_cid : Bytes → BanList → BanList × Bool
unban_cid cid bans =
    (record bans { cids = text_erase cid bans.cids }, has_value (text_find cid bans.cids))
