-- ===== src/Nft/Mint/Added.antt =====
-- Which token a mint is taken to have added (getNFTokenMintData of src/etl/NFTHelpers.cpp).
use clio_migrator.Prelude.{
  ℕ, ◌-◌, ◌≡◌, refl, subst, sym, ◌∙◌, ap, List, [], ◌∷◌, Option, none, some, arith, ltb, ◌==◌,
  if◌then◌else◌, count, ◌↔◌,
}
use clio_migrator.Types.{Blob}
use clio_migrator.Outcome.{returns, >>=-eq-returns}
use clio_migrator.Ripple.{Ripple, sf_uri}
use clio_migrator.Nft.Data.{NftData, transactions_data, minted_data}
use clio_migrator.Nft.Algorithms.{
  sort, set_difference, count-set_difference, sort-Ascends, count-sort,
}
use clio_migrator.Nft.Mint.Gathers.{Gathers}
use clio_migrator.Nft.Mint.Loop.{mint_nodes_iff}
use clio_migrator.Nft.Mint.{MintIds, no_ids, mint_nodes, mint_result, get_nftoken_mint_data}

-- The pages list the token `t` once more after the transaction than before it, and no other token
-- more often than before.
abbrev pub IsAdded : ℕ → List ℕ → List ℕ → Type 0
IsAdded t prev final = (x : ℕ) → count x final - count x prev ≡ (if x == t then 1 else 0)

single : (t : ℕ) (l : List ℕ) → ((x : ℕ) → count x l ≡ (if x == t then 1 else 0)) → l ≡ t ∷ []
single t [] h = absurd (ground (arith, h t))
single t (y ∷ []) h = ground (arith, h y)
single t (y ∷ z ∷ l) h = absurd (ground (arith, h y, h z))

difference : MintIds → List ℕ
difference a = set_difference (sort ltb a.final_ids) (sort ltb a.prev_ids)

count-difference :
    (x : ℕ) (a : MintIds) → count x (difference a) ≡ count x a.final_ids - count x a.prev_ids
unfolding difference
count-difference x a = omega (
  arith,
  count-set_difference x 0 0 (sort ltb a.final_ids) (sort ltb a.prev_ids) (sort-Ascends a.final_ids)
      (sort-Ascends a.prev_ids),
  count-sort x a.final_ids,
  count-sort x a.prev_ids,
)

difference-IsAdded :
    (t : ℕ) (a : MintIds) → IsAdded t a.prev_ids a.final_ids → difference a ≡ t ∷ []
difference-IsAdded t a h = single t (difference a) (λ x. count-difference x a ∙ h x)

IsAdded-difference :
    (t : ℕ) (a : MintIds) → difference a ≡ t ∷ [] → IsAdded t a.prev_ids a.final_ids
IsAdded-difference t a e x = sym (count-difference x a) ∙ ap (count x) e

module _ (r : Ripple) where
  open r use {StObject, TxMeta, get_nodes, get_field_vl, get_transaction_id}

  -- The result of a mint of the token `t` for the owner `o`.
  abbrev pub minted : TxMeta → StObject → ℕ → ℕ → Blob → NftData
  minted meta tx t o uri =
      (transactions_data r t meta (get_transaction_id tx) ∷ [], some (minted_data r t o uri meta))

  pub result_cases :
      (meta : TxMeta) (tx : StObject) (ids : List ℕ) (owner : Option ℕ) (d : NftData)
      → mint_result r meta tx ids owner ≡ returns d
      → (t : ℕ) × (o : ℕ) × (uri : Blob) × (ids ≡ t ∷ [])
        × (owner ≡ some o)
        × (get_field_vl tx sf_uri ≡ returns uri)
        × (d ≡ minted meta tx t o uri)
  unfolding mint_result
  result_cases meta tx (t ∷ []) (some o) d h =
      let (uri, e, q) = >>=-eq-returns (get_field_vl tx sf_uri) _ h in
      (t, o, uri, refl, refl, e, ground arith)
  result_cases meta tx [] owner d h = cc
  result_cases meta tx (t ∷ []) none d h = cc
  result_cases meta tx (t ∷ u ∷ ids) owner d h = cc

  -- A mint returns exactly one link and one record: those of the one token that the pages list once
  -- more after the transaction than before it, for the account of the first page that the
  -- transaction touched, with the URI of the transaction. It returns them when the pages can be
  -- read and list exactly one token more, and the URI can be read, and only then.
  pub mint_returns :
      (meta : TxMeta) (tx : StObject) (d : NftData)
      → (get_nftoken_mint_data r meta tx ≡ returns d) ↔ (
          (prev : List ℕ) × (final : List ℕ) × (t : ℕ) × (o : ℕ) × (uri : Blob) × Gathers r none
            (get_nodes meta)
            prev
            final
            (some o)
          × IsAdded t prev final
          × (get_field_vl tx sf_uri ≡ returns uri)
          × (d ≡ minted meta tx t o uri))
  unfolding get_nftoken_mint_data difference
  mint_returns meta tx d = (
    (λ h.
        let (a, gathered, h₁) = >>=-eq-returns (mint_nodes r (get_nodes meta) no_ids) _ h in
        let (t, o, uri, e, p, q, s) = result_cases meta tx (difference a) a.owner d h₁ in
        (
          a.prev_ids,
          a.final_ids,
          t,
          o,
          uri,
          subst (Gathers r none (get_nodes meta) a.prev_ids a.final_ids) p
              ((mint_nodes_iff r (get_nodes meta) a).0 gathered),
          IsAdded-difference t a e,
          q,
          s,
        )),
    (λ (prev, final, t, o, uri, g, h, q, s).
        let a : MintIds = record { prev_ids = prev; final_ids = final; owner = some o } in
        rw ((mint_nodes_iff r (get_nodes meta) a).1 g)
          (rw (difference-IsAdded t a h, mint_result) (rw (q, s)))),
  )
