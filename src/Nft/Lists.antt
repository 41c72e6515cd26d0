-- ===== src/Nft/Lists.antt =====
-- Whether a page lists a token (the searches of src/etl/NFTHelpers.cpp), said without the code.
use clio_migrator.Prelude.{
  ℕ, ◌≡◌, ◌≢◌, inl, inr, List, [], ◌∷◌, Bool, true, false, ◌==◌, arith, Bool-cases, subst,
}
use clio_migrator.Outcome.{returns, returns-injective, >>=-eq-returns}
use clio_migrator.Ripple.{Ripple, sf_nftoken_id}
use clio_migrator.Nft.Data.{has_token}

module _ (r : Ripple) (token_id : ℕ) where
  open r use {StObject, get_field_h256}

  -- The token is that of an element and of none before it, or of no element.
  pub data Lists : List StObject → Bool → Type 0 where
    nowhere : Lists [] false
    here :
        {nfts : List StObject} (nft : StObject)
        → get_field_h256 nft sf_nftoken_id ≡ returns token_id
        → Lists (nft ∷ nfts) true
    further :
        {nfts : List StObject} {listed : Bool} (nft : StObject) (other : ℕ)
        → get_field_h256 nft sf_nftoken_id ≡ returns other
        → other ≢ token_id
        → Lists nfts listed
        → Lists (nft ∷ nfts) listed

  pub has_token-Lists :
      (nfts : List StObject) (listed : Bool)
      → has_token r token_id nfts ≡ returns listed
      → Lists nfts listed
  unfolding has_token
  has_token-Lists [] listed h = subst (Lists []) (returns-injective false listed h) nowhere
  has_token-Lists (nft ∷ nfts) listed h =
      let (id, e, h₁) = >>=-eq-returns (get_field_h256 nft sf_nftoken_id) _ h in
      elim (Bool-cases (id == token_id)) [
        | inl b ↦
            let same : id ≡ token_id = ground (arith, b) in
            subst (Lists (nft ∷ nfts)) (returns-injective true listed (rw b at h₁))
              (here nft (subst (λ i. get_field_h256 nft sf_nftoken_id ≡ returns i) same e))
        | inr b ↦
            further nft id e (λ s. absurd (ground (arith, b, s)))
              (has_token-Lists nfts listed (rw b at h₁))
      ]
