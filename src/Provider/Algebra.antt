-- ===== src/Provider/Algebra.antt =====
-- Multi-scalar products over the points of `External`, by the laws of the group.
use thinwallet.Prelude.{
  ℕ, zero, suc, List, [], ◌∷◌, ◌++◌, ◌+◌, ◌%◌, ◌^◌, ◌<◌, ◌≤◌, ◌≡◌, refl, sym, ap, ◌∙◌, length,
  arith, map,
}
use thinwallet.Prelude.Bytes.{Bytes}
use thinwallet.External.{External, GroupLaws}
use thinwallet.Field.{DomainMetadata, derive_mask_scalar}
use thinwallet.Token.Generate.{mask_row, corrections}
use thinwallet.Provider.Stream.{mask_from}
use thinwallet.Provider.Finish.{recover}
use thinwallet.Wire.Server.Rows.{range}

pub u32_small : (n : ℕ) → n < 2 ^ 32 → n % 2 ^ 32 ≡ n
u32_small n h = omega arith

module _ (X : External) (G : GroupLaws X) where
  open X use {Point, Scalar}

  infixl 20 ◌⊕◌
  abbrev ◌⊕◌ : Point → Point → Point
  a ⊕ b = X.add_point a b

  pub add-identity : (a : Point) → a ⊕ X.identity ≡ a
  add-identity a = G.add_point_comm a X.identity ∙ G.identity-add a

  -- Two sums of two are rearranged.
  pub add-interchange : (a b c d : Point) → (a ⊕ b) ⊕ (c ⊕ d) ≡ (a ⊕ c) ⊕ (b ⊕ d)
  add-interchange a b c d =
      G.add_point_assoc a b (c ⊕ d)
      ∙ ap (λ t. a ⊕ t)
          (sym (G.add_point_assoc b c d)
            ∙ ap (λ t. t ⊕ d) (G.add_point_comm b c)
            ∙ G.add_point_assoc c b d)
      ∙ sym (G.add_point_assoc a c (b ⊕ d))

  pub msm-append :
      (ss : List Scalar) (ps : List Point) (ts : List Scalar) (qs : List Point)
      → length ss ≡ length ps
      → X.msm (ss ++ ts) (ps ++ qs) ≡ X.msm ss ps ⊕ X.msm ts qs
  msm-append [] [] ts qs h =
      sym (ap (λ t. t ⊕ X.msm ts qs) G.msm-nil ∙ G.identity-add (X.msm ts qs))
  msm-append [] (p ∷ ps) ts qs h = absurd (omega arith)
  msm-append (s ∷ ss) [] ts qs h = absurd (omega arith)
  msm-append (s ∷ ss) (p ∷ ps) ts qs h =
      G.msm-cons s (ss ++ ts) p (ps ++ qs)
      ∙ ap (λ t. X.msm (s ∷ []) (p ∷ []) ⊕ t) (msm-append ss ps ts qs (omega arith))
      ∙ sym (G.add_point_assoc (X.msm (s ∷ []) (p ∷ [])) (X.msm ss ps) (X.msm ts qs))
      ∙ ap (λ t. t ⊕ X.msm ts qs) (sym (G.msm-cons s ss p ps))

  -- The product of a masked row is that of the row and that of its masks.
  pub msm-mask_from :
      (seed : Bytes) (meta : DomainMetadata) (row col : ℕ) (ss : List Scalar) (ps : List Point)
      → row < 2 ^ 32
      → col + length ss ≤ 2 ^ 32
      → length ss ≡ length ps
      → X.msm (mask_from X seed meta row col ss) ps
        ≡ X.msm ss ps ⊕ X.msm (mask_row X seed meta row col (length ss)) ps
  unfolding mask_from mask_row
  msm-mask_from seed meta row col [] [] r c h =
      sym (ap (λ t. t ⊕ X.msm [] []) G.msm-nil ∙ G.identity-add (X.msm [] []))
  msm-mask_from seed meta row col [] (p ∷ ps) r c h = absurd (omega arith)
  msm-mask_from seed meta row col (s ∷ ss) [] r c h = absurd (omega arith)
  msm-mask_from seed meta row col (s ∷ ss) (p ∷ ps) r c h =
      let mask = derive_mask_scalar X seed meta row col 0 in
      let rest = msm-mask_from seed meta row (suc col) ss ps r (omega arith) (omega arith) in
      let wire = mask_from X seed meta row (suc col) ss in
      let masks = mask_row X seed meta row (suc col) (length ss) in
      rw (u32_small row r, u32_small col (omega arith))
        (G.msm-cons (X.add_scalar s mask) wire p ps
          ∙ ap (λ t. t ⊕ X.msm wire ps) (G.add-term s mask p)
          ∙ ap (λ t. (X.msm (s ∷ []) (p ∷ []) ⊕ X.msm (mask ∷ []) (p ∷ [])) ⊕ t) rest
          ∙ add-interchange (X.msm (s ∷ []) (p ∷ [])) (X.msm (mask ∷ []) (p ∷ [])) (X.msm ss ps)
              (X.msm masks ps)
          ∙ ap (λ t. t ⊕ (X.msm (mask ∷ []) (p ∷ []) ⊕ X.msm masks ps)) (sym (G.msm-cons s ss p ps))
          ∙ ap (λ t. X.msm (s ∷ ss) (p ∷ ps) ⊕ t) (sym (G.msm-cons mask masks p ps)))

  -- Taking the corrections off leaves the other summands.
  pub recover-corrections :
      (seed : Bytes) (meta : DomainMetadata) (bases : List Point) (m k n : ℕ) (f : ℕ → Point)
      → recover X
          (map (λ i. f i ⊕ X.msm (mask_row X seed meta i 0 m) bases) (range k n))
          (corrections X seed meta bases m k n)
        ≡ map f (range k n)
  unfolding range recover corrections
  recover-corrections seed meta bases m k zero f = refl
  recover-corrections seed meta bases m k (suc n) f =
      ap
        (λ t.
          t
          ∷ recover X (map (λ i. f i ⊕ X.msm (mask_row X seed meta i 0 m) bases) (range (suc k) n))
              (corrections X seed meta bases m (suc k) n))
        (G.add-sub (f k) (X.msm (mask_row X seed meta k 0 m) bases))
      ∙ ap (λ t. f k ∷ t) (recover-corrections seed meta bases m (suc k) n f)
