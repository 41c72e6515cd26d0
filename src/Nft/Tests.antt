-- ===== src/Nft/Tests.antt =====
-- The helpers of src/etl/NFTHelpers.cpp on small inputs.
use clio_migrator.Prelude.{
  ℕ, ◌≡◌, ◌≢◌, ◌⊎◌, ◌↔◌, refl, List, [], ◌∷◌, true, false, none, some, arith,
}
use clio_migrator.Types.{Blob}
use clio_migrator.Outcome.{returns}
use clio_migrator.Ripple.{
  sf_ledger_entry_type, sf_nftokens, sf_ledger_index, sf_nftoken_id, sf_nftoken_buy_offer,
  sf_nftoken_sell_offer, sf_uri,
}
use clio_migrator.Nft.Data.{NftData, transactions_data, moved_data, has_token, NftsData, page_data}
use clio_migrator.Nft.Algorithms.{sort, insert_sorted, set_difference, unique}
use clio_migrator.Nft.Mint.{get_nftoken_mint_data}
use clio_migrator.Nft.Mint.Added.{IsAdded, minted, mint_returns}
use clio_migrator.Nft.Burn.{get_nftoken_burn_data, held_token}
use clio_migrator.Nft.Burn.Owner.{FirstHolder, burn_returns}
use clio_migrator.Nft.Mint.Gathers.{Gathers}
use clio_migrator.Nft.AcceptOffer.{get_nftoken_accept_offer_data, accepted}
use clio_migrator.Nft.AcceptOffer.Owner.{IsOffer, Offers, FirstBuyer, accept_returns}
use clio_migrator.Nft.Offers.{
  cancelled_tokens, links, get_nftoken_cancel_offer_data, cancel_repeats, comes_before,
}
use clio_migrator.Nft.FromTx.{get_nft_data_from_tx}
use clio_migrator.Nft.FromObj.{get_nft_data_from_obj, Describes, obj_tokens}
use clio_migrator.Nft.Sample.{
  sample, mint_tx, burn_tx, accept_tx, cancel_tx, deleted_page, mint_meta, burn_meta, accept_meta,
  cancel_meta,
}

program : Unit {0}
unfolding get_nftoken_mint_data get_nftoken_burn_data get_nftoken_accept_offer_data
    get_nftoken_cancel_offer_data get_nft_data_from_tx get_nft_data_from_obj set_difference sort
    insert_sorted has_token unique
program = tt

abbrev mint_d : NftData
mint_d = minted sample mint_meta mint_tx 701 1500 (4 ∷ [])

mint_returns_example : (get_nftoken_mint_data sample mint_meta mint_tx ≡ returns mint_d) ↔ (
    (prev : List ℕ) × (final : List ℕ) × (t : ℕ) × (o : ℕ) × (uri : Blob) × Gathers sample none
      (sample.get_nodes mint_meta)
      prev
      final
      (some o)
    × IsAdded t prev final
    × (sample.get_field_vl mint_tx sf_uri ≡ returns uri)
    × (mint_d ≡ minted sample mint_meta mint_tx t o uri))
mint_returns_example = mint_returns sample mint_meta mint_tx mint_d

mint_run : get_nftoken_mint_data sample mint_meta mint_tx ≡ returns mint_d
unfolding program
mint_run = refl

abbrev burn_d : NftData
burn_d = (
  transactions_data sample 700 burn_meta 77 ∷ [],
  some (moved_data sample 700 1500 burn_meta true),
)

burn_run : get_nftoken_burn_data sample burn_meta burn_tx ≡ returns burn_d
unfolding program
burn_run = refl

burn_returns_example :
    (token_id : ℕ) × (node : sample.StObject) × (index : ℕ) × (sample.get_field_h256 burn_tx
        sf_nftoken_id
      ≡ returns token_id)
    × FirstHolder sample token_id (sample.get_nodes burn_meta) node
    × (sample.get_field_h256 node sf_ledger_index ≡ returns index)
    × (burn_d ≡ (
      transactions_data sample token_id burn_meta (sample.get_transaction_id burn_tx) ∷ [],
      some (moved_data sample token_id (sample.account_from_void index) burn_meta true),
    ))
burn_returns_example = burn_returns sample burn_meta burn_tx burn_d burn_run

-- A deleted page whose previous fields are given, but list no tokens.
deleted_page_skipped : held_token sample 700 deleted_page ≡ returns false
unfolding program
deleted_page_skipped = refl

abbrev accept_d : NftData
accept_d = accepted sample accept_meta accept_tx 701 1501

accept_run : get_nftoken_accept_offer_data sample accept_meta accept_tx ≡ returns accept_d
unfolding program
accept_run = refl

accept_returns_example :
    (offer : sample.StObject) × (token_id : ℕ) × (owner : ℕ) × (accept_d
      ≡ accepted sample accept_meta accept_tx token_id owner)
    × (((sample.is_field_present accept_tx sf_nftoken_buy_offer ≡ true)
          × IsOffer sample accept_tx sf_nftoken_buy_offer (sample.get_nodes accept_meta) offer
          × Offers sample offer token_id owner)
        ⊎ ((seller : ℕ) × (sample.is_field_present accept_tx sf_nftoken_buy_offer ≡ false)
            × IsOffer sample accept_tx sf_nftoken_sell_offer (sample.get_nodes accept_meta) offer
            × Offers sample offer token_id seller
            × FirstBuyer sample token_id seller owner (sample.get_nodes accept_meta)))
accept_returns_example = accept_returns sample accept_meta accept_tx accept_d accept_run

cancelled : cancelled_tokens sample (sample.get_nodes cancel_meta) ≡ returns (700 ∷ 701 ∷ 700 ∷ [])
unfolding program
cancelled = refl

sorted_links :
    sample.std_sort comes_before (links sample cancel_meta cancel_tx (700 ∷ 701 ∷ 700 ∷ []))
    ≡ links sample cancel_meta cancel_tx (700 ∷ 701 ∷ 700 ∷ [])
unfolding program links
sorted_links = refl

cancel_repeats_run :
    get_nftoken_cancel_offer_data sample cancel_meta cancel_tx
    ≡ returns (links sample cancel_meta cancel_tx (700 ∷ 701 ∷ 700 ∷ []), none)
cancel_repeats_run =
    cancel_repeats sample cancel_meta cancel_tx 700 701 (λ e. absurd (omega (arith, e))) cancelled
      sorted_links

abbrev page_records : List NftsData
page_records = page_data 700 5 1003 (4 ∷ []) ∷ page_data 701 5 1003 (4 ∷ []) ∷ []

from_obj_run : get_nft_data_from_obj sample 5 3 (1 ∷ []) ≡ returns page_records
unfolding program
from_obj_run = refl

obj_tokens_example :
    (sle : sample.StObject) × (entry_type : ℕ) × (sample.parse_st_ledger_entry (1 ∷ []) 3
      ≡ returns sle)
    × (sample.get_field_u16 sle sf_ledger_entry_type ≡ returns entry_type)
    × (((entry_type ≢ sample.lt_nftoken_page) × (page_records ≡ []))
        ⊎ ((entry_type ≡ sample.lt_nftoken_page)
            × ((nodes : List sample.StObject) × (sample.get_field_array sle sf_nftokens
                  ≡ returns nodes)
                × Describes sample 5 (sample.account_from_void 3) nodes page_records)))
obj_tokens_example = obj_tokens sample 5 3 (1 ∷ []) page_records from_obj_run
