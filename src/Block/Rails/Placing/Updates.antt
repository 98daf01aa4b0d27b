-- ===== src/Block/Rails/Placing/Updates.antt =====
-- The entries that placing a rail reports, in include/mpmpes/block/Rails.hpp.
use mpmpescore_cpp.Prelude.{
  ◌+◌, ◌≡◌, refl, sym, ap, ◌∙◌, Bool, true, false, ◌&&◌, ◌||◌, List, [], ◌∷◌, ◌++◌, ==_refl,
  if◌then◌else◌, subst, append-nil, All, append_assoc, arith,
}
use mpmpescore_cpp.Prelude.Int.{ℤ, pos_part, neg_part}
use mpmpescore_cpp.Block.Rails.{LevelOps, sides}
use mpmpescore_cpp.Block.Rails.Placing.{
  Position, Update, same_position, set_update, is_listed, update_or_push, recompute,
  touched_neighbours, first_pass, second_pass, settle,
}

abbrev pub positions : List Update → List Position
positions [] = []
positions (u ∷ us) = u.at ∷ positions us

positions-append : (us vs : List Update) → positions (us ++ vs) ≡ positions us ++ positions vs
positions-append [] vs = refl
positions-append (u ∷ us) vs = ap (λ ps. u.at ∷ ps) (positions-append us vs)

positions-set_update : (u : Update) (us : List Update) → positions (set_update u us) ≡ positions us
unfolding set_update
positions-set_update u [] = refl
positions-set_update u (v ∷ us) = choose (same_position v.at u.at) (positions-set_update u us)
  where
    choose :
        (b : Bool)
        → positions (set_update u us) ≡ positions us
        → positions (if b then record v { id = u.id; meta = u.meta } ∷ us else v ∷ set_update u us)
          ≡ v.at ∷ positions us
    choose true h = refl
    choose false h = ap (λ ps. v.at ∷ ps) h

abbrev has_position : Position → List Position → Bool
has_position p [] = false
has_position p (q ∷ ps) = same_position q p || has_position p ps

is_listed-positions :
    (p : Position) (us : List Update) → is_listed p us ≡ has_position p (positions us)
unfolding is_listed
is_listed-positions p [] = refl
is_listed-positions p (v ∷ us) = ap (λ b. same_position v.at p || b) (is_listed-positions p us)

positions-update_or_push :
    (u : Update) (us : List Update)
    → has_position u.at (positions us) ≡ true
    → positions (update_or_push u us) ≡ positions us
unfolding update_or_push
positions-update_or_push u us h =
    ap (λ b. positions (if b then set_update u us else us ++ (u ∷ [])))
      (is_listed-positions u.at us ∙ h)
    ∙ positions-set_update u us

same_position_refl : (p : Position) → same_position p p ≡ true
same_position_refl p =
    all_true _ _ _ (==_refl (pos_part p.0 + neg_part p.0)) (==_refl (pos_part p.1 + neg_part p.1))
      (==_refl (pos_part p.2 + neg_part p.2))
  where
    all_true : (a b c : Bool) → a ≡ true → b ≡ true → c ≡ true → (a && (b && c)) ≡ true
    all_true a b c e f g = ground arith

has_position-append :
    (p : Position) (qs ps : List Position)
    → has_position p ps ≡ true
    → has_position p (qs ++ ps) ≡ true
has_position-append p [] ps h = h
has_position-append p (q ∷ qs) ps h = weaken (same_position q p) _ (has_position-append p qs ps h)
  where
    weaken : (a b : Bool) → b ≡ true → (a || b) ≡ true
    weaken a b e = ground arith

-- Every position of the second list is one of the first list's.
abbrev Covers : List Position → List Position → Type 0
Covers ps qs = All (λ p. has_position p ps ≡ true) qs

Covers-append : (front ps qs : List Position) → Covers ps qs → Covers (front ++ ps) qs
Covers-append front ps [] h = tt
Covers-append front ps (q ∷ qs) h =
    (has_position-append q front ps h.0, Covers-append front ps qs h.1)

Covers-refl : (ps : List Position) → Covers ps ps
Covers-refl [] = tt
Covers-refl (p ∷ ps) = (found, Covers-append (p ∷ []) ps ps (Covers-refl ps))
  where
    found : (same_position p p || has_position p ps) ≡ true
    found = ap (λ b. b || has_position p ps) (same_position_refl p)

module _ {World : Type 0} (ops : LevelOps World) where
  at-recompute : (p : Position) (world : World) → (recompute ops p world).1.at ≡ p
  unfolding recompute
  at-recompute p world = refl

  positions-first_pass :
      (ps : List Position) (world : World) (us : List Update)
      → positions (first_pass ops ps world us).1 ≡ positions us ++ ps
  unfolding first_pass
  positions-first_pass [] world us = sym (append-nil (positions us))
  positions-first_pass (p ∷ ps) world us =
      positions-first_pass ps (recompute ops p world).0 (us ++ ((recompute ops p world).1 ∷ []))
      ∙ ap (λ qs. qs ++ ps)
          (positions-append us ((recompute ops p world).1 ∷ [])
            ∙ ap (λ q. positions us ++ (q ∷ [])) (at-recompute p world))
      ∙ append_assoc (positions us) (p ∷ []) ps

  positions-second_pass :
      (ps : List Position) (world : World) (us : List Update)
      → Covers (positions us) ps
      → positions (second_pass ops ps world us).1 ≡ positions us
  unfolding second_pass
  positions-second_pass [] world us h = refl
  positions-second_pass (p ∷ ps) world us h =
      positions-second_pass ps (recompute ops p world).0 _
        (subst (λ qs. Covers qs ps) (sym same) h.1)
      ∙ same
    where
      same : positions (update_or_push (recompute ops p world).1 us) ≡ positions us
      same =
          positions-update_or_push (recompute ops p world).1 us
            (subst (λ q. has_position q (positions us) ≡ true) (sym (at-recompute p world)) h.0)

  -- The entries after a new rail has settled are for the positions reported before, then the rail, then
  -- each touched neighbour, in this order: the second and the third pass add none.
  pub positions-settle :
      (x y z : ℤ) (world : World) (us : List Update)
      → positions (settle ops x y z world us).1
        ≡ positions us ++ ((x, y, z) ∷ touched_neighbours ops sides world x y z)
  unfolding settle
  positions-settle x y z world us =
      positions-set_update _ _
      ∙ positions-second_pass neighbours pass.0 pass.1 (
          subst (λ qs. Covers qs neighbours) (sym first)
            (Covers-append (positions us) ((x, y, z) ∷ neighbours) neighbours
              (Covers-append ((x, y, z) ∷ []) neighbours neighbours (Covers-refl neighbours))))
      ∙ first
    where
      neighbours : List Position
      neighbours = touched_neighbours ops sides world x y z

      pass : World × List Update
      pass = first_pass ops ((x, y, z) ∷ neighbours) world us

      first : positions pass.1 ≡ positions us ++ ((x, y, z) ∷ neighbours)
      first = positions-first_pass ((x, y, z) ∷ neighbours) world us
