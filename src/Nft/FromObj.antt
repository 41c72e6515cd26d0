-- ===== src/Nft/FromObj.antt =====
-- The NFTs of a ledger object (getNFTDataFromObj of src/etl/NFTHelpers.cpp).
use clio_migrator.Prelude.{
  ℕ, ◌≡◌, ◌≢◌, ◌⊎◌, subst, inl, inr, List, [], ◌∷◌, Bool-cases, arith, ◌==◌, if◌then◌else◌,
}
use clio_migrator.Types.{Blob}
use clio_migrator.Outcome.{Outcome, returns, ◌>>=◌, traverse, >>=-eq-returns, returns-injective}
use clio_migrator.Ripple.{Ripple, sf_ledger_entry_type, sf_nftokens, sf_nftoken_id, sf_uri}
use clio_migrator.Nft.Data.{NftsData, page_data}

module _ (r : Ripple) where
  open r use {
    StObject, get_field_u16, get_field_h256, get_field_vl, get_field_array, account_from_void,
    parse_st_ledger_entry, lt_nftoken_page,
  }

  unfoldable pub token_data : ℕ → ℕ → StObject → Outcome NftsData
  token_data seq owner node = do
    token_id ← get_field_h256 node sf_nftoken_id
    uri ← get_field_vl node sf_uri
    returns (page_data token_id seq owner uri)

  unfoldable pub page_tokens : ℕ → ℕ → StObject → Outcome (List NftsData)
  unfolding token_data
  page_tokens seq owner sle = do
    nodes ← get_field_array sle sf_nftokens
    traverse (token_data seq owner) nodes

  -- `key` is the 32 bytes of the object's key, as a number.
  unfoldable pub get_nft_data_from_obj : ℕ → ℕ → Blob → Outcome (List NftsData)
  unfolding page_tokens
  get_nft_data_from_obj seq key blob = do
    sle ← parse_st_ledger_entry blob key
    entry_type ← get_field_u16 sle sf_ledger_entry_type
    if entry_type == lt_nftoken_page
        then page_tokens seq (account_from_void key) sle
        else returns []

  -- A record for each object of a page, in order: its ID and URI, the page's owner, the ledger.
  abbrev pub Describes : ℕ → ℕ → List StObject → List NftsData → Type 0
  Describes seq owner [] [] = Unit {0}
  Describes seq owner (node ∷ nodes) (d ∷ ds) =
      ((token_id : ℕ) × (uri : Blob) × (get_field_h256 node sf_nftoken_id ≡ returns token_id)
        × (get_field_vl node sf_uri ≡ returns uri)
        × (d ≡ page_data token_id seq owner uri))
      × Describes seq owner nodes ds
  Describes seq owner _ _ = ⊥

  tokens-Describes :
      (seq owner : ℕ) (nodes : List StObject) (ds : List NftsData)
      → traverse (token_data seq owner) nodes ≡ returns ds
      → Describes seq owner nodes ds
  unfolding token_data
  tokens-Describes seq owner [] [] h = tt
  tokens-Describes seq owner [] (d ∷ ds) h = absurd (ground arith)
  tokens-Describes seq owner (node ∷ nodes) ds h =
      let (d', e, h') = >>=-eq-returns (token_data seq owner node) _ h in
      let (ds', f, g) = >>=-eq-returns (traverse (token_data seq owner) nodes) _ h' in
      let (id, p, k) = >>=-eq-returns (get_field_h256 node sf_nftoken_id) _ e in
      let (uri, q, l) = >>=-eq-returns (get_field_vl node sf_uri) _ k in
      let same : (d' ∷ ds') ≡ ds = returns-injective _ _ g in
      subst (Describes seq owner (node ∷ nodes)) same
        ((id, uri, p, q, ground arith), tokens-Describes seq owner nodes ds' f)

  -- A ledger object gives a record for each token that it lists if it is an NFTokenPage, owned by
  -- the account in its key, with the URI always set; any other object gives none.
  pub obj_tokens :
      (seq key : ℕ) (blob : Blob) (ds : List NftsData)
      → get_nft_data_from_obj seq key blob ≡ returns ds
      → (sle : StObject) × (entry_type : ℕ) × (parse_st_ledger_entry blob key ≡ returns sle)
        × (get_field_u16 sle sf_ledger_entry_type ≡ returns entry_type)
        × (((entry_type ≢ lt_nftoken_page) × (ds ≡ []))
            ⊎ ((entry_type ≡ lt_nftoken_page)
                × ((nodes : List StObject) × (get_field_array sle sf_nftokens ≡ returns nodes)
                    × Describes seq (account_from_void key) nodes ds)))
  unfolding get_nft_data_from_obj
  obj_tokens seq key blob ds h =
      let (sle, e, h') = >>=-eq-returns (parse_st_ledger_entry blob key) _ h in
      let (entry_type, f, g) = >>=-eq-returns (get_field_u16 sle sf_ledger_entry_type) _ h' in
      (
        sle,
        entry_type,
        e,
        f,
        elim (Bool-cases (entry_type == lt_nftoken_page)) [
          | inl p ↦
              let (nodes, q, k) =
                >>=-eq-returns (get_field_array sle sf_nftokens) _ (rw (p, page_tokens) at g) in
              inr
                (ground arith, (nodes, q, tokens-Describes seq (account_from_void key) nodes ds k))
          | inr p ↦ inl (ground arith, ground arith)
        ],
      )
