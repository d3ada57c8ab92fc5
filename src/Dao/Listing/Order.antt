-- ===== src/Dao/Listing/Order.antt =====
-- The rows of a page in any order are the same rows.
use passport.Base.{
  ℕ, suc, ◌≡◌, refl, ap, ◌∙◌, Bool, true, false, List, [], ◌∷◌, ◌||◌, leb, if◌then◌else◌, All,
  exists, length, arith,
}
use passport.Protos.{User}
use passport.Dao.Listing.{insert_ranked, in_order}

module _ (rank : ℕ → ℕ) where
  length-insert_ranked :
      (u : User) (us : List User) → length (insert_ranked rank u us) ≡ suc (length us)
  unfolding insert_ranked
  length-insert_ranked u [] = refl
  length-insert_ranked u (v ∷ us) = ground (arith, length-insert_ranked u us)

  pub length-in_order : (us : List User) → length (in_order rank us) ≡ length us
  unfolding in_order
  length-in_order [] = refl
  length-in_order (u ∷ us) =
      length-insert_ranked u (in_order rank us) ∙ ap (λ n. suc n) (length-in_order us)

  exists-insert_ranked :
      (p : User → Bool) (u : User) (us : List User)
      → exists p (insert_ranked rank u us) ≡ (p u || exists p us)
  unfolding insert_ranked
  exists-insert_ranked p u [] = refl
  exists-insert_ranked p u (v ∷ us) = ground (arith, exists-insert_ranked p u us)

  pub exists-in_order :
      (p : User → Bool) (us : List User) → exists p (in_order rank us) ≡ exists p us
  unfolding in_order
  exists-in_order p [] = refl
  exists-in_order p (u ∷ us) =
      exists-insert_ranked p u (in_order rank us) ∙ ap (λ b. p u || b) (exists-in_order p us)

  insert_ranked-All :
      (Q : User → Type 0) (u : User) (us : List User)
      → Q u
      → All Q us
      → All Q (insert_ranked rank u us)
  unfolding insert_ranked
  insert_ranked-All Q u [] h hs = (h, tt)
  insert_ranked-All Q u (v ∷ us) h hs =
      if-All (leb (rank u.uid) (rank v.uid)) (u ∷ v ∷ us) (v ∷ insert_ranked rank u us) (h, hs)
        (hs.0, insert_ranked-All Q u us h hs.1)
    where
      if-All : (b : Bool) (xs ys : List User) → All Q xs → All Q ys → All Q (if b then xs else ys)
      if-All true xs ys hx hy = hx
      if-All false xs ys hx hy = hy

  pub in_order-All : (Q : User → Type 0) (us : List User) → All Q us → All Q (in_order rank us)
  unfolding in_order
  in_order-All Q [] h = tt
  in_order-All Q (u ∷ us) h = insert_ranked-All Q u (in_order rank us) h.0 (in_order-All Q us h.1)
