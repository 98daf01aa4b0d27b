-- ===== src/Server/Tests.antt =====
-- Runs of the rules of the server on small inputs.
use mpmpescore_cpp.Prelude.{◌≡◌, refl, ◌||◌, none, some, [], ◌∷◌, if◌then◌else◌, is_empty, bytes_eq}
use mpmpescore_cpp.Binary.{Bytes}
use mpmpescore_cpp.Server.Permission.{to_lower_name, OpsList, load, save, is_op, add_op}
use mpmpescore_cpp.Server.Bans.{
  no_bans, reason_for_name, reason_for_ip, reason_for_cid, ban_name, unban_name,
}
use mpmpescore_cpp.Server.Permission.Lookup.{is_op-add_op, IsSaved, is_op-load-save}
use mpmpescore_cpp.Server.Bans.Lookup.{reason_for_name-ban_name}

-- "bob" and "BoB".
abbrev lower_bob : Bytes
lower_bob = b'b' ∷ b'o' ∷ b'b' ∷ []

abbrev mixed_bob : Bytes
mixed_bob = b'B' ∷ b'o' ∷ b'B' ∷ []

abbrev one_op : OpsList
one_op = record { names = lower_bob ∷ [] }

is_op-add_op_example : is_op lower_bob (add_op mixed_bob one_op).0 ≡ (
    if is_empty mixed_bob
    then is_op lower_bob one_op
    else bytes_eq (to_lower_name mixed_bob) (to_lower_name lower_bob) || is_op lower_bob one_op)
is_op-add_op_example = is_op-add_op lower_bob mixed_bob one_op

bob-IsSaved : IsSaved lower_bob
bob-IsSaved = record {
  one_line = (refl, (refl, (refl, tt)));
  trimmed = refl;
  entry = refl;
  lower = refl;
}

is_op-load-save_example :
    is_op mixed_bob (load (some (save one_op)) one_op) ≡ is_op mixed_bob one_op
is_op-load-save_example = is_op-load-save mixed_bob one_op one_op (bob-IsSaved, tt)

reason_for_name-ban_name_example :
    (reason_for_name lower_bob (ban_name mixed_bob (b'x' ∷ []) no_bans).0 ≡ (
      if bytes_eq (to_lower_name mixed_bob) (to_lower_name lower_bob)
      then some (b'x' ∷ [])
      else reason_for_name lower_bob no_bans))
    × (reason_for_name lower_bob (unban_name mixed_bob (ban_name mixed_bob (b'x' ∷ []) no_bans).0).0
        ≡ (if bytes_eq (to_lower_name mixed_bob) (to_lower_name lower_bob)
            then none
            else reason_for_name lower_bob no_bans))
    × (reason_for_ip lower_bob (ban_name mixed_bob (b'x' ∷ []) no_bans).0
        ≡ reason_for_ip lower_bob no_bans)
    × (reason_for_cid lower_bob (ban_name mixed_bob (b'x' ∷ []) no_bans).0
        ≡ reason_for_cid lower_bob no_bans)
reason_for_name-ban_name_example =
    reason_for_name-ban_name lower_bob mixed_bob (b'x' ∷ []) no_bans refl
