-- ===== src/Raklib/SessionManager/Keys.antt =====
-- The keys of the session table of src/raklib/SessionManager.cpp tell endpoints apart.
use mpmpescore_cpp.Prelude.{
  ℕ, zero, suc, ◌+◌, ◌-◌, ◌*◌, ◌/◌, ◌%◌, ◌^◌, ◌<◌, ◌≡◌, refl, sym, ap, ◌∙◌, Bool, true, false, ◌&&◌,
  [], ◌∷◌, ◌++◌, arith, ltb, ◌==◌, bytes_eq, bytes_eq_lem, bytes_eq_refl, Bool-cases, inl, inr,
  elem, get_or, drop,
}
use mpmpescore_cpp.Binary.{Bytes}
use mpmpescore_cpp.Raklib.Session.{Endpoint}
use mpmpescore_cpp.Raklib.SessionManager.{to_string, key_of}

-- The number that digits stand for, behind `v`.
abbrev value : ℕ → Bytes → ℕ
value v [] = v
value v (c ∷ cs) = value (v * 10 + (c - b'0')) cs

value-append :
    (v : ℕ) (cs : Bytes) (c : ℕ) → value v (cs ++ (c ∷ [])) ≡ value v cs * 10 + (c - b'0')
value-append v [] c = refl
value-append v (d ∷ cs) c = value-append (v * 10 + (d - b'0')) cs c

value-to_string : (fuel v : ℕ) → v < 10 ^ fuel → value 0 (to_string fuel v) ≡ v
unfolding to_string
value-to_string zero v h = omega arith
value-to_string (suc fuel) v h = elim (Bool-cases (ltb v 10)) [
  | inl e ↦ rw e (omega arith)
  | inr e ↦ rw e (
      value-append 0 (to_string fuel (v / 10)) (b'0' + v % 10)
      ∙ omega (arith, value-to_string fuel (v / 10) (omega arith)))
]

elem-append :
    (k : ℕ) (cs : Bytes) (c : ℕ)
    → elem k cs ≡ false
    → (c == k) ≡ false
    → elem k (cs ++ (c ∷ [])) ≡ false
elem-append k [] c h e = ground arith
elem-append k (d ∷ cs) c h e = ground (arith, elem-append k cs c)

elem-to_string : (fuel v : ℕ) → elem b':' (to_string fuel v) ≡ false
unfolding to_string
elem-to_string zero v = refl
elem-to_string (suc fuel) v = elim (Bool-cases (ltb v 10)) [
  | inl e ↦ rw e (ground arith)
  | inr e ↦ rw e (
      elem-append b':' (to_string fuel (v / 10)) (b'0' + v % 10) (elem-to_string fuel (v / 10))
        (ground arith))
]

elem-mid : (k : ℕ) (cs rest : Bytes) → elem k (cs ++ (k ∷ rest)) ≡ true
elem-mid k [] rest = ground arith
elem-mid k (c ∷ cs) rest = ground (arith, elem-mid k cs rest)

-- What stands behind the last colon, and before it.
same_split :
    (xs ys s t : Bytes)
    → xs ++ (b':' ∷ s) ≡ ys ++ (b':' ∷ t)
    → elem b':' s ≡ false
    → elem b':' t ≡ false
    → (xs ≡ ys) × (s ≡ t)
same_split [] [] s t h p q = (refl, ap (drop 1) h)
same_split [] (c ∷ ys) s t h p q =
    let no : true ≡ false = sym (elem-mid b':' ys t) ∙ ap (elem b':') (sym (ap (drop 1) h)) ∙ p in
    absurd (ground arith)
same_split (c ∷ xs) [] s t h p q =
    let no : true ≡ false = sym (elem-mid b':' xs s) ∙ ap (elem b':') (ap (drop 1) h) ∙ q in
    absurd (ground arith)
same_split (c ∷ xs) (d ∷ ys) s t h p q =
    let (e, f) = same_split xs ys s t (ap (drop 1) h) p q in
    let first : c ≡ d = ap (λ l. get_or l 0 0) h in (rw (first, e) refl, f)

-- Endpoints have the same key exactly when they have the same address and the same port. A port has
-- 16 bits.
pub bytes_eq-key_of :
    (a b : Endpoint)
    → a.port < 2 ^ 16
    → b.port < 2 ^ 16
    → bytes_eq (key_of a) (key_of b) ≡ (bytes_eq a.address b.address && a.port == b.port)
unfolding key_of
bytes_eq-key_of a b p q = elim (Bool-cases (bytes_eq (key_of a) (key_of b))) [
  | inl e ↦
      let (address, digits) =
        same_split a.address b.address (to_string 5 a.port) (to_string 5 b.port)
          (bytes_eq_lem (key_of a) (key_of b) e) (elem-to_string 5 a.port)
          (elem-to_string 5 b.port) in
      let port : a.port ≡ b.port =
        sym (value-to_string 5 a.port (omega arith))
        ∙ ap (value 0) digits
        ∙ value-to_string 5 b.port (omega arith) in
      let same_port : (a.port == b.port) ≡ true = ground arith in
      let same_address : bytes_eq a.address b.address ≡ true =
        ap (bytes_eq a.address) (sym address) ∙ bytes_eq_refl a.address in
      rw (e, same_address, same_port) refl
  | inr e ↦
      e
      ∙ sym (
          different (bytes_eq a.address b.address) (a.port == b.port) (λ f g.
            let address = bytes_eq_lem a.address b.address f in
            let port : a.port ≡ b.port = ground arith in
            let same : key_of a ≡ key_of b =
              ap (λ x. x ++ (b':' ∷ to_string 5 a.port)) address
              ∙ ap (λ n. b.address ++ (b':' ∷ to_string 5 n)) port in
            sym (bytes_eq_refl (key_of a)) ∙ ap (bytes_eq (key_of a)) same ∙ e))
]
  where
    different : (x y : Bool) → (x ≡ true → y ≡ true → true ≡ false) → (x && y) ≡ false
    different true true f = f refl refl
    different true false f = refl
    different false y f = refl
