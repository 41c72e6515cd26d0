-- ===== src/Nft/Data.antt =====
-- The records that are written for an NFT (src/backend/DBHelpers.h): a link from a transaction to a
-- token, and the state of a token at a ledger.
use clio_migrator.Prelude.{
  ℕ, Bool, true, false, Option, none, some, List, [], ◌∷◌, if◌then◌else◌, ◌==◌,
}
use clio_migrator.Types.{Blob}
use clio_migrator.Outcome.{Outcome, returns, ◌>>=◌}
use clio_migrator.Ripple.{Ripple, sf_nftoken_id}

pub record NftTransactionsData : Type 0 where
  pub token_id : ℕ
  pub ledger_sequence : ℕ
  pub transaction_index : ℕ
  pub tx_hash : ℕ

pub record NftsData : Type 0 where
  pub token_id : ℕ
  pub ledger_sequence : ℕ
  pub transaction_index : Option ℕ
  pub owner : ℕ
  pub uri : Option Blob
  pub is_burned : Bool

-- What the helpers return: `std::pair<std::vector<NFTTransactionsData>, std::optional<NFTsData>>`.
abbrev pub NftData : Type 0
NftData = List NftTransactionsData × Option NftsData

module _ (r : Ripple) where
  open r use {StObject, TxMeta, get_lgr_seq, get_index, get_field_h256}

  abbrev pub transactions_data : ℕ → TxMeta → ℕ → NftTransactionsData
  transactions_data token_id meta tx_hash = record {
    token_id = token_id;
    ledger_sequence = get_lgr_seq meta;
    transaction_index = get_index meta;
    tx_hash = tx_hash;
  }

  -- The constructor for NFTokenMint transactions.
  abbrev pub minted_data : ℕ → ℕ → Blob → TxMeta → NftsData
  minted_data token_id owner uri meta = record {
    token_id = token_id;
    ledger_sequence = get_lgr_seq meta;
    transaction_index = some (get_index meta);
    owner = owner;
    uri = some uri;
    is_burned = false;
  }

  -- The constructor for NFTokenBurn and NFTokenAcceptOffer transactions.
  abbrev pub moved_data : ℕ → ℕ → TxMeta → Bool → NftsData
  moved_data token_id owner meta is_burned = record {
    token_id = token_id;
    ledger_sequence = get_lgr_seq meta;
    transaction_index = some (get_index meta);
    owner = owner;
    uri = none;
    is_burned = is_burned;
  }

  -- `std::find_if` for the object with a token's ID: whether there is one.
  unfoldable pub has_token : ℕ → List StObject → Outcome Bool
  has_token token_id [] = returns false
  has_token token_id (nft ∷ nfts) =
      let rest = has_token token_id nfts in
      do id ← get_field_h256 nft sf_nftoken_id; if id == token_id then returns true else rest

-- The constructor for the objects of an NFTokenPage.
abbrev pub page_data : ℕ → ℕ → ℕ → Blob → NftsData
page_data token_id ledger_sequence owner uri = record {
  token_id = token_id;
  ledger_sequence = ledger_sequence;
  transaction_index = none;
  owner = owner;
  uri = some uri;
  is_burned = false;
}
