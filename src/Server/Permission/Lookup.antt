-- ===== src/Server/Permission/Lookup.antt =====
-- What the list of operators of include/mpmpes/server/Permission.hpp answers after a change,
-- and after it is saved and loaded.
use mpmpescore_cpp.Prelude.{
  ◌≡◌, refl, sym, ap, ◌∙◌, Bool, true, false, not, ◌&&◌, ◌||◌, some, List, [], ◌∷◌, ◌++◌, ◌==◌,
  if◌then◌else◌, is_empty, bytes_eq, bytes_eq_lem, bytes_eq_refl, All, arith, Bool-cases, inl, inr,
}
use mpmpescore_cpp.Binary.{Bytes}
use mpmpescore_cpp.Server.Permission.{
  to_lower_name, text_less, name_insert, name_count, name_erase, extend_line, lines_of, trim_front,
  trim_back, is_comment, OpsList, add_line, add_lines, load, ops_header, name_lines, save, is_op,
  add_op, remove_op,
}

pub same_key : (n k j : Bytes) → bytes_eq n k ≡ true → bytes_eq n j ≡ bytes_eq k j
same_key n k j e = ap (λ x. bytes_eq x j) (bytes_eq_lem n k e)

pub other_key : (n k j : Bytes) → bytes_eq n k ≡ false → bytes_eq n j ≡ true → bytes_eq k j ≡ false
other_key n k j e p = elim (Bool-cases (bytes_eq k j)) [
  | inl q ↦
      let clash : true ≡ false =
        sym (same_key n j k p ∙ ap (λ x. bytes_eq x k) (sym (bytes_eq_lem k j q)) ∙ bytes_eq_refl k)
        ∙ e in
      ground arith
  | inr q ↦ q
]

name_count-insert :
    (j k : Bytes) (names : List Bytes)
    → name_count j (name_insert k names) ≡ (bytes_eq k j || name_count j names)
name_count-insert j k [] = refl
name_count-insert j k (n ∷ names) =
    choose (text_less k n) (bytes_eq n k) refl (name_count-insert j k names)
  where
    choose :
        (a b : Bool)
        → bytes_eq n k ≡ b
        → name_count j (name_insert k names) ≡ (bytes_eq k j || name_count j names)
        → name_count j
            (if a then k ∷ n ∷ names else (if b then n ∷ names else n ∷ name_insert k names))
          ≡ (bytes_eq k j || (bytes_eq n j || name_count j names))
    choose true b e h = refl
    choose false true e h =
        absorb (bytes_eq n j) (bytes_eq k j) (name_count j names) (same_key n k j e)
      where
        absorb : (a b c : Bool) → a ≡ b → (a || c) ≡ (b || (a || c))
        absorb a b c e = ground arith
    choose false false e h =
        ap (λ x. bytes_eq n j || x) h ∙ swap (bytes_eq n j) (bytes_eq k j) (name_count j names)
      where
        swap : (a b c : Bool) → (a || (b || c)) ≡ (b || (a || c))
        swap a b c = ground arith

name_count-erase :
    (j k : Bytes) (names : List Bytes)
    → name_count j (name_erase k names) ≡ (not (bytes_eq k j) && name_count j names)
name_count-erase j k [] = ground arith
name_count-erase j k (n ∷ names) = choose (bytes_eq n k) refl (name_count-erase j k names)
  where
    gone : (a b c : Bool) → a ≡ b → (not b && c) ≡ (not b && (a || c))
    gone a b c e = ground arith

    stays : (a b c : Bool) → (a ≡ true → b ≡ false) → (a || (not b && c)) ≡ (not b && (a || c))
    stays a b c f = ground arith

    choose :
        (b : Bool)
        → bytes_eq n k ≡ b
        → name_count j (name_erase k names) ≡ (not (bytes_eq k j) && name_count j names)
        → name_count j (if b then name_erase k names else n ∷ name_erase k names)
          ≡ (not (bytes_eq k j) && (bytes_eq n j || name_count j names))
    choose true e h = h ∙ gone (bytes_eq n j) (bytes_eq k j) (name_count j names) (same_key n k j e)
    choose false e h =
        ap (λ x. bytes_eq n j || x) h
        ∙ stays (bytes_eq n j) (bytes_eq k j) (name_count j names) (other_key n k j e)

-- After `add_op` the name is an operator in any case of its letters, and all others are as before; an
-- empty name changes nothing.
pub is_op-add_op :
    (name added : Bytes) (ops : OpsList)
    → is_op name (add_op added ops).0 ≡ (
        if is_empty added
        then is_op name ops
        else bytes_eq (to_lower_name added) (to_lower_name name) || is_op name ops)
unfolding is_op add_op
is_op-add_op name [] ops = refl
is_op-add_op name (c ∷ cs) ops =
    name_count-insert (to_lower_name name) (to_lower_name (c ∷ cs)) ops.names

-- After `remove_op` the name is no operator in any case of its letters, and all others are as before.
pub is_op-remove_op :
    (name removed : Bytes) (ops : OpsList)
    → is_op name (remove_op removed ops).0
      ≡ (not (bytes_eq (to_lower_name removed) (to_lower_name name)) && is_op name ops)
unfolding is_op remove_op
is_op-remove_op name removed ops =
    name_count-erase (to_lower_name name) (to_lower_name removed) ops.names

-- A name that a line of the file can hold.
pub record IsSaved (n : Bytes) : Type 0 where
  pub one_line : All (λ c. (c == 10) ≡ false) n
  pub trimmed : trim_front (trim_back n) ≡ n
  pub entry : is_comment n ≡ false
  pub lower : to_lower_name n ≡ n

lines_of-line :
    (xs rest : Bytes)
    → All (λ c. (c == 10) ≡ false) xs
    → lines_of (xs ++ (10 ∷ rest)) ≡ xs ∷ lines_of rest
lines_of-line [] rest h = refl
lines_of-line (x ∷ xs) rest h =
    ap
      (λ b.
        if b
        then [] ∷ lines_of (xs ++ (10 ∷ rest))
        else extend_line x (lines_of (xs ++ (10 ∷ rest))))
      h.0
    ∙ ap (extend_line x) (lines_of-line xs rest h.1)

add_line-IsSaved :
    (n : Bytes) (names : List Bytes) → IsSaved n → add_line n names ≡ name_insert n names
add_line-IsSaved n names h =
    ap (λ line. if is_comment line then names else name_insert (to_lower_name line) names) h.trimmed
    ∙ ap (λ b. if b then names else name_insert (to_lower_name n) names) h.entry
    ∙ ap (λ k. name_insert k names) h.lower

count-name_lines :
    (j : Bytes) (ns names : List Bytes)
    → All IsSaved ns
    → name_count j (add_lines (lines_of (name_lines ns)) names)
      ≡ (name_count j ns || name_count j names)
count-name_lines j [] names h = refl
count-name_lines j (n ∷ ns) names h =
    ap (λ ls. name_count j (add_lines ls names)) (lines_of-line n (name_lines ns) h.0.one_line)
    ∙ ap (λ ms. name_count j (add_lines (lines_of (name_lines ns)) ms))
        (add_line-IsSaved n names h.0)
    ∙ count-name_lines j ns (name_insert n names) h.1
    ∙ ap (λ b. name_count j ns || b) (name_count-insert j n names)
    ∙ swap (name_count j ns) (bytes_eq n j) (name_count j names)
  where
    swap : (a b c : Bool) → (a || (b || c)) ≡ ((b || a) || c)
    swap a b c = ground arith

-- After the list is saved and loaded, the same names are operators, when each name is lower case and
-- stands on a line of its own as it is.
pub is_op-load-save :
    (name : Bytes) (ops before : OpsList)
    → All IsSaved ops.names
    → is_op name (load (some (save ops)) before) ≡ is_op name ops
unfolding is_op load save
is_op-load-save name ops before h =
    ap (λ ls. name_count (to_lower_name name) (add_lines ls []))
      (lines_of-line ops_header (name_lines ops.names) (ground arith))
    ∙ count-name_lines (to_lower_name name) ops.names [] h
    ∙ right (name_count (to_lower_name name) ops.names)
  where
    right : (b : Bool) → (b || false) ≡ b
    right b = ground arith
