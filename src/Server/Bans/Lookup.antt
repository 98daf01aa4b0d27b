-- ===== src/Server/Bans/Lookup.antt =====
-- What the bans of include/mpmpes/server/Permission.hpp answer after a change.
use mpmpescore_cpp.Prelude.{
  ◌≡◌, refl, ap, ◌∙◌, Bool, true, false, Option, none, some, [], ◌∷◌, if◌then◌else◌, is_empty,
  bytes_eq, arith, if_both,
}
use mpmpescore_cpp.Binary.{Bytes}
use mpmpescore_cpp.Server.Permission.{to_lower_name, text_less}
use mpmpescore_cpp.Server.Permission.Lookup.{same_key, other_key}
use mpmpescore_cpp.Server.Bans.{
  Texts, text_find, text_set, text_erase, BanList, reason_for_name, reason_for_ip, reason_for_cid,
  ban_name, unban_name,
}

text_find-set :
    (j k v : Bytes) (m : Texts)
    → text_find j (text_set k v m) ≡ (if bytes_eq k j then some v else text_find j m)
text_find-set j k v [] = refl
text_find-set j k v ((i, r) ∷ m) =
    choose (text_less k i) (bytes_eq i k) refl (text_find-set j k v m)
  where
    turn :
        (a b : Bool) (o p : Option Bytes)
        → (a ≡ true → b ≡ false)
        → (if a then o else (if b then p else text_find j m))
          ≡ (if b then p else (if a then o else text_find j m))
    turn true true o p f = let clash : true ≡ false = f refl in ground arith
    turn true false o p f = refl
    turn false b o p f = refl

    choose :
        (a b : Bool)
        → bytes_eq i k ≡ b
        → text_find j (text_set k v m) ≡ (if bytes_eq k j then some v else text_find j m)
        → text_find j
            (if a then (k, v) ∷ (i, r) ∷ m else (if b then (i, v) ∷ m else (i, r) ∷ text_set k v m))
          ≡ (if bytes_eq k j then some v else (if bytes_eq i j then some r else text_find j m))
    choose true b e h = refl
    choose false true e h = replaced (bytes_eq i j) (bytes_eq k j) (same_key i k j e)
      where
        replaced :
            (a b : Bool)
            → a ≡ b
            → (if a then some v else text_find j m)
              ≡ (if b then some v else (if a then some r else text_find j m))
        replaced true true e = refl
        replaced false false e = refl
        replaced true false e = ground arith
        replaced false true e = ground arith
    choose false false e h =
        ap (λ o. if bytes_eq i j then some r else o) h
        ∙ turn (bytes_eq i j) (bytes_eq k j) (some r) (some v) (other_key i k j e)

text_find-erase :
    (j k : Bytes) (m : Texts)
    → text_find j (text_erase k m) ≡ (if bytes_eq k j then none else text_find j m)
text_find-erase j k [] = if_both (λ o. none ≡ o) (bytes_eq k j) refl refl
text_find-erase j k ((i, r) ∷ m) = choose (bytes_eq i k) refl (text_find-erase j k m)
  where
    gone :
        (a b : Bool)
        → a ≡ b
        → (if b then none else text_find j m)
          ≡ (if b then none else (if a then some r else text_find j m))
    gone true true e = refl
    gone false false e = refl
    gone true false e = ground arith
    gone false true e = ground arith

    stays :
        (a b : Bool)
        → (a ≡ true → b ≡ false)
        → (if a then some r else (if b then none else text_find j m))
          ≡ (if b then none else (if a then some r else text_find j m))
    stays true true f = let clash : true ≡ false = f refl in ground arith
    stays true false f = refl
    stays false b f = refl

    choose :
        (b : Bool)
        → bytes_eq i k ≡ b
        → text_find j (text_erase k m) ≡ (if bytes_eq k j then none else text_find j m)
        → text_find j (if b then text_erase k m else (i, r) ∷ text_erase k m)
          ≡ (if bytes_eq k j then none else (if bytes_eq i j then some r else text_find j m))
    choose true e h = h ∙ gone (bytes_eq i j) (bytes_eq k j) (same_key i k j e)
    choose false e h =
        ap (λ o. if bytes_eq i j then some r else o) h
        ∙ stays (bytes_eq i j) (bytes_eq k j) (other_key i k j e)

-- A ban by a name that is not empty holds with its reason for every case of its letters and for no
-- other name, and no address or client is banned by it; lifting it again ends it for every case of
-- its letters.
pub reason_for_name-ban_name :
    (name banned reason : Bytes) (bans : BanList)
    → is_empty banned ≡ false
    → (reason_for_name name (ban_name banned reason bans).0 ≡ (
        if bytes_eq (to_lower_name banned) (to_lower_name name)
        then some reason
        else reason_for_name name bans))
      × (reason_for_name name (unban_name banned (ban_name banned reason bans).0).0 ≡ (
          if bytes_eq (to_lower_name banned) (to_lower_name name)
          then none
          else reason_for_name name bans))
      × (reason_for_ip name (ban_name banned reason bans).0 ≡ reason_for_ip name bans)
      × (reason_for_cid name (ban_name banned reason bans).0 ≡ reason_for_cid name bans)
unfolding reason_for_name ban_name unban_name reason_for_ip reason_for_cid
reason_for_name-ban_name name [] reason bans h = ground arith
reason_for_name-ban_name name (c ∷ cs) reason bans h = (
  text_find-set (to_lower_name name) key reason bans.names,
  text_find-erase (to_lower_name name) key (text_set key reason bans.names)
      ∙ ap (λ o. if bytes_eq key (to_lower_name name) then none else o)
          (text_find-set (to_lower_name name) key reason bans.names)
      ∙ twice (bytes_eq key (to_lower_name name)) (text_find (to_lower_name name) bans.names),
  refl,
  refl,
)
  where
    key : Bytes
    key = to_lower_name (c ∷ cs)

    twice :
        (b : Bool) (o : Option Bytes)
        → (if b then none else (if b then some reason else o)) ≡ (if b then none else o)
    twice true o = refl
    twice false o = refl
