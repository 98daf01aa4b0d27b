-- ===== src/Server/Permission.antt =====
-- include/mpmpes/server/Permission.hpp: operators and the levels of commands.
-- A text is a list of bytes. A std::set of texts is an ascending list. The file that is loaded is
-- `none` where it cannot be opened, and what is saved is the contents of the file. The locks and the
-- paths are left out.
pub mod Lookup
use mpmpescore_cpp.Prelude.{
  ℕ, ◌+◌, Bool, true, false, not, ◌&&◌, ◌||◌, Option, none, some, List, [], ◌∷◌, ◌++◌, ltb, leb,
  ◌==◌, if◌then◌else◌, is_empty, has_value, get_or, bytes_eq, map,
}
use mpmpescore_cpp.Binary.{Bytes}

pub data PermLevel : Type 0 where
  player op console : PermLevel

-- std::tolower in the C locale.
abbrev pub to_lower : ℕ → ℕ
to_lower c = if leb b'A' c && leb c b'Z' then c + 32 else c

abbrev pub to_lower_name : Bytes → Bytes
to_lower_name s = map to_lower s

-- The order of std::string.
abbrev pub text_less : Bytes → Bytes → Bool
text_less [] [] = false
text_less [] (y ∷ ys) = true
text_less (x ∷ xs) [] = false
text_less (x ∷ xs) (y ∷ ys) =
    let rest = text_less xs ys in if ltb x y then true else (if x == y then rest else false)

abbrev pub name_insert : Bytes → List Bytes → List Bytes
name_insert k [] = k ∷ []
name_insert k (n ∷ names) =
    let rest = name_insert k names in
    if text_less k n then k ∷ n ∷ names else (if bytes_eq n k then n ∷ names else n ∷ rest)

abbrev pub name_count : Bytes → List Bytes → Bool
name_count k [] = false
name_count k (n ∷ names) = bytes_eq n k || name_count k names

abbrev pub name_erase : Bytes → List Bytes → List Bytes
name_erase k [] = []
name_erase k (n ∷ names) = let rest = name_erase k names in if bytes_eq n k then rest else n ∷ rest

-- The lines that std::getline reads, and a character in front of them.
abbrev pub extend_line : ℕ → List Bytes → List Bytes
extend_line c [] = (c ∷ []) ∷ []
extend_line c (line ∷ lines) = (c ∷ line) ∷ lines

abbrev pub lines_of : Bytes → List Bytes
lines_of [] = []
lines_of (c ∷ cs) = let rest = lines_of cs in if c == 10 then [] ∷ rest else extend_line c rest

abbrev pub is_blank : ℕ → Bool
is_blank c = c == 32 || c == 9

abbrev pub trim_front : Bytes → Bytes
trim_front [] = []
trim_front (c ∷ cs) = let rest = trim_front cs in if is_blank c then rest else c ∷ cs

-- Blanks and carriage returns at the end.
abbrev pub trim_back : Bytes → Bytes
trim_back [] = []
trim_back (c ∷ cs) =
    let rest = trim_back cs in if is_empty rest && (c == 13 || is_blank c) then [] else c ∷ rest

-- `line.empty() || line[0] == '#'`.
abbrev pub is_comment : Bytes → Bool
is_comment line = is_empty line || get_or line 0 0 == b'#'

pub record OpsList : Type 0 where
  pub names : List Bytes

abbrev pub add_line : Bytes → List Bytes → List Bytes
add_line text names =
    let line = trim_front (trim_back text) in
    if is_comment line then names else name_insert (to_lower_name line) names

abbrev pub add_lines : List Bytes → List Bytes → List Bytes
add_lines [] names = names
add_lines (line ∷ lines) names = add_lines lines (add_line line names)

unfoldable pub load : Option Bytes → OpsList → OpsList
load none ops = record ops { names = [] }
load (some file) ops = record ops { names = add_lines (lines_of file) [] }

-- The comment at the top of the file.
abbrev pub ops_header : Bytes
ops_header =
    b'#' ∷ b' ' ∷ b'M' ∷ b'P' ∷ b'M' ∷ b'P' ∷ b'E' ∷ b'S' ∷ b'C' ∷ b'o' ∷ b'r' ∷ b'e' ∷ b'C' ∷ b'p'
    ∷ b'p' ∷ b' ' ∷ b'o' ∷ b'p' ∷ b'e' ∷ b'r' ∷ b'a' ∷ b't' ∷ b'o' ∷ b'r' ∷ b's' ∷ b' ' ∷ b'('
    ∷ b'o' ∷ b'n' ∷ b'e' ∷ b' ' ∷ b'n' ∷ b'a' ∷ b'm' ∷ b'e' ∷ b' ' ∷ b'p' ∷ b'e' ∷ b'r' ∷ b' '
    ∷ b'l' ∷ b'i' ∷ b'n' ∷ b'e' ∷ b')' ∷ []

abbrev pub name_lines : List Bytes → Bytes
name_lines [] = []
name_lines (n ∷ names) = n ++ (10 ∷ name_lines names)

unfoldable pub save : OpsList → Bytes
save ops = ops_header ++ (10 ∷ name_lines ops.names)

unfoldable pub is_op : Bytes → OpsList → Bool
is_op name ops = name_count (to_lower_name name) ops.names

-- The list, and whether the name was new.
unfoldable pub add_op : Bytes → OpsList → OpsList × Bool
add_op name ops =
    let key = to_lower_name name in
    if is_empty name
    then (ops, false)
    else (record ops { names = name_insert key ops.names }, not (name_count key ops.names))

unfoldable pub remove_op : Bytes → OpsList → OpsList × Bool
remove_op name ops =
    let key = to_lower_name name in
    (record ops { names = name_erase key ops.names }, name_count key ops.names)

-- The commands of everyone, and those of operators.
abbrev pub public_commands : List Bytes
public_commands =
    (b'h' ∷ b'e' ∷ b'l' ∷ b'p' ∷ [])
    ∷ (b'?' ∷ [])
    ∷ (b'l' ∷ b'i' ∷ b's' ∷ b't' ∷ [])
    ∷ (b'w' ∷ b'o' ∷ b'r' ∷ b'l' ∷ b'd' ∷ b's' ∷ [])
    ∷ (b's' ∷ b'p' ∷ b'a' ∷ b'w' ∷ b'n' ∷ [])
    ∷ (b'm' ∷ b'e' ∷ [])
    ∷ (b'v' ∷ b'e' ∷ b'r' ∷ [])
    ∷ (b'v' ∷ b'e' ∷ b'r' ∷ b's' ∷ b'i' ∷ b'o' ∷ b'n' ∷ [])
    ∷ []

abbrev pub op_commands : List Bytes
op_commands =
    (b'g' ∷ b'm' ∷ [])
    ∷ (b'g' ∷ b'a' ∷ b'm' ∷ b'e' ∷ b'm' ∷ b'o' ∷ b'd' ∷ b'e' ∷ [])
    ∷ (b'g' ∷ b'i' ∷ b'v' ∷ b'e' ∷ [])
    ∷ (b's' ∷ b'p' ∷ b'a' ∷ b'w' ∷ b'n' ∷ b'm' ∷ b'o' ∷ b'b' ∷ [])
    ∷ (b's' ∷ b'u' ∷ b'm' ∷ b'm' ∷ b'o' ∷ b'n' ∷ [])
    ∷ (b'c' ∷ b'l' ∷ b'e' ∷ b'a' ∷ b'r' ∷ [])
    ∷ (b'g' ∷ b'o' ∷ b't' ∷ b'o' ∷ [])
    ∷ (b'f' ∷ b'u' ∷ b'c' ∷ b'k' ∷ [])
    ∷ (b'o' ∷ b'p' ∷ [])
    ∷ (b'd' ∷ b'e' ∷ b'o' ∷ b'p' ∷ [])
    ∷ (b's' ∷ b't' ∷ b'o' ∷ b'p' ∷ [])
    ∷ (b'k' ∷ b'i' ∷ b'c' ∷ b'k' ∷ [])
    ∷ (b'b' ∷ b'a' ∷ b'n' ∷ [])
    ∷ (b'u' ∷ b'n' ∷ b'b' ∷ b'a' ∷ b'n' ∷ [])
    ∷ (b'p' ∷ b'a' ∷ b'r' ∷ b'd' ∷ b'o' ∷ b'n' ∷ [])
    ∷ (b'b' ∷ b'a' ∷ b'n' ∷ b'-' ∷ b'i' ∷ b'p' ∷ [])
    ∷ (b'b' ∷ b'a' ∷ b'n' ∷ b'i' ∷ b'p' ∷ [])
    ∷ (b'u' ∷ b'n' ∷ b'b' ∷ b'a' ∷ b'n' ∷ b'-' ∷ b'i' ∷ b'p' ∷ [])
    ∷ (b'p' ∷ b'a' ∷ b'r' ∷ b'd' ∷ b'o' ∷ b'n' ∷ b'-' ∷ b'i' ∷ b'p' ∷ [])
    ∷ (b'b' ∷ b'a' ∷ b'n' ∷ b'-' ∷ b'c' ∷ b'i' ∷ b'd' ∷ [])
    ∷ (b'b' ∷ b'a' ∷ b'n' ∷ b'c' ∷ b'i' ∷ b'd' ∷ [])
    ∷ (b'u' ∷ b'n' ∷ b'b' ∷ b'a' ∷ b'n' ∷ b'-' ∷ b'c' ∷ b'i' ∷ b'd' ∷ [])
    ∷ (b'p' ∷ b'a' ∷ b'r' ∷ b'd' ∷ b'o' ∷ b'n' ∷ b'-' ∷ b'c' ∷ b'i' ∷ b'd' ∷ [])
    ∷ (b'b' ∷ b'a' ∷ b'n' ∷ b'l' ∷ b'i' ∷ b's' ∷ b't' ∷ [])
    ∷ []

unfoldable pub command_required_level : Bytes → PermLevel
command_required_level cmd =
    if name_count cmd public_commands
    then player
    else (if name_count cmd op_commands then op else player)
