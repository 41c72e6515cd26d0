-- ===== src/Nft/Mint.antt =====
-- NFTokenMint transactions (getNFTokenMintData of src/etl/NFTHelpers.cpp).
pub mod Gathers
pub mod Loop
pub mod Added
use clio_migrator.Prelude.{
  ℕ, List, [], ◌∷◌, ◌++◌, Bool, true, false, not, Option, none, some, ltb, ◌==◌, if◌then◌else◌, map,
}
use clio_migrator.Outcome.{Outcome, returns, throws, unexpected_mint_data, ◌>>=◌, traverse}
use clio_migrator.Ripple.{
  Ripple, is_created, sf_ledger_entry_type, sf_ledger_index, sf_new_fields, sf_previous_fields,
  sf_final_fields, sf_nftokens, sf_nftoken_id, sf_uri,
}
use clio_migrator.Nft.Data.{NftData, transactions_data, minted_data}
use clio_migrator.Nft.Algorithms.{sort, set_difference}

-- The locals that the loop over the nodes fills.
pub record MintIds : Type 0 where
  pub prev_ids : List ℕ
  pub final_ids : List ℕ
  pub owner : Option ℕ

abbrev pub no_ids : MintIds
no_ids = record { prev_ids = []; final_ids = []; owner = none }

module _ (r : Ripple) where
  open r use {
    StObject, TxMeta, get_field_u16, get_field_h256, get_field_vl, get_field_array, peek_at_field,
    is_field_present, get_f_name, get_transaction_id, get_nodes, account_from_void, lt_nftoken_page,
  }

  unfoldable pub token_ids : List StObject → Outcome (List ℕ)
  token_ids = traverse (λ nft. get_field_h256 nft sf_nftoken_id)

  -- The IDs of the tokens that the object under a field of the node lists.
  unfoldable pub ids_under : StObject → Outcome (List ℕ)
  unfolding token_ids
  ids_under fields = do nfts ← get_field_array fields sf_nftokens; token_ids nfts

  unfoldable pub first_owner : StObject → Option ℕ → Outcome ℕ
  first_owner node none = do
    index ← get_field_h256 node sf_ledger_index
    returns (account_from_void index)
  first_owner node (some o) = returns o

  unfoldable pub created_page : StObject → ℕ → MintIds → Outcome MintIds
  unfolding ids_under
  created_page node owner a = do
    fields ← peek_at_field node sf_new_fields
    ids ← ids_under fields
    returns (record a { final_ids = a.final_ids ++ ids; owner = some owner })

  unfoldable pub changed_tokens : StObject → StObject → ℕ → MintIds → Outcome MintIds
  unfolding ids_under
  changed_tokens node previous owner a = do
    prev ← ids_under previous
    fields ← peek_at_field node sf_final_fields
    final ← ids_under fields
    returns (record {
      prev_ids = a.prev_ids ++ prev;
      final_ids = a.final_ids ++ final;
      owner = some owner;
    })

  unfoldable pub modified_page : StObject → ℕ → MintIds → Outcome MintIds
  unfolding changed_tokens
  modified_page node owner a = do
    previous ← peek_at_field node sf_previous_fields
    if is_field_present previous sf_nftokens
        then changed_tokens node previous owner a
        else returns (record a { owner = some owner })

  unfoldable pub mint_page : StObject → MintIds → Outcome MintIds
  unfolding first_owner created_page modified_page
  mint_page node a = do
    owner ← first_owner node a.owner
    if is_created (get_f_name node) then created_page node owner a else modified_page node owner a

  -- One round of the loop over the nodes.
  unfoldable pub mint_node : StObject → MintIds → Outcome MintIds
  unfolding mint_page
  mint_node node a = do
    entry_type ← get_field_u16 node sf_ledger_entry_type
    if entry_type == lt_nftoken_page then mint_page node a else returns a

  unfoldable pub mint_nodes : List StObject → MintIds → Outcome MintIds
  unfolding mint_node
  mint_nodes [] a = returns a
  mint_nodes (node ∷ nodes) a = do a' ← mint_node node a; mint_nodes nodes a'

  -- What follows the loop: the one token that was added.
  unfoldable pub mint_result : TxMeta → StObject → List ℕ → Option ℕ → Outcome NftData
  mint_result meta tx (token_id ∷ []) (some owner) = do
    uri ← get_field_vl tx sf_uri
    returns (
      transactions_data r token_id meta (get_transaction_id tx) ∷ [],
      some (minted_data r token_id owner uri meta),
    )
  mint_result meta tx _ _ = throws (unexpected_mint_data (get_transaction_id tx))

  unfoldable pub get_nftoken_mint_data : TxMeta → StObject → Outcome NftData
  unfolding mint_nodes mint_result
  get_nftoken_mint_data meta tx = do
    a ← mint_nodes (get_nodes meta) no_ids
    mint_result meta tx (set_difference (sort ltb a.final_ids) (sort ltb a.prev_ids)) a.owner
