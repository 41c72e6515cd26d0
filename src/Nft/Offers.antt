-- ===== src/Nft/Offers.antt =====
-- NFTokenCancelOffer and NFTokenCreateOffer transactions (getNFTokenCancelOfferData and
-- getNFTokenCreateOfferData of src/etl/NFTHelpers.cpp).
use clio_migrator.Prelude.{
  ℕ, ◌≡◌, ◌≢◌, refl, List, [], ◌∷◌, Bool, ◌&&◌, Option, none, some, arith, ltb, ◌==◌, if◌then◌else◌,
  map,
}
use clio_migrator.Outcome.{Outcome, returns, ◌>>=◌}
use clio_migrator.Ripple.{Ripple, sf_ledger_entry_type, sf_final_fields, sf_nftoken_id}
use clio_migrator.Nft.Data.{NftData, NftTransactionsData, transactions_data}
use clio_migrator.Nft.Algorithms.{unique, unique-map}

-- The comparison that the links are sorted by.
abbrev pub comes_before : NftTransactionsData → NftTransactionsData → Bool
comes_before a b = ltb a.token_id b.token_id && ltb a.transaction_index b.transaction_index

-- The comparison by which links count as the same.
abbrev pub is_same_link : NftTransactionsData → NftTransactionsData → Bool
is_same_link a b = a.token_id == b.token_id && a.transaction_index == b.transaction_index

three_apart : (a b : ℕ) → a ≢ b → unique (λ x y. x == y) (a ∷ b ∷ a ∷ []) ≡ a ∷ b ∷ a ∷ []
unfolding unique
three_apart a b n = ground arith

module _ (r : Ripple) where
  open r use {
    StObject, TxMeta, get_field_u16, get_field_h256, peek_at_field, get_transaction_id, get_nodes,
    lt_nftoken_offer, std_sort,
  }

  -- The token of a cancelled offer; `none` for a node that is no offer. One round of the loop.
  unfoldable pub cancelled_token : StObject → Outcome (Option ℕ)
  cancelled_token node = do
    entry_type ← get_field_u16 node sf_ledger_entry_type
    if entry_type == lt_nftoken_offer
        then (do
          final ← peek_at_field node sf_final_fields
          token_id ← get_field_h256 final sf_nftoken_id
          returns (some token_id))
        else returns none

  abbrev pub prepend : Option ℕ → List ℕ → List ℕ
  prepend none ids = ids
  prepend (some id) ids = id ∷ ids

  unfoldable pub cancelled_tokens : List StObject → Outcome (List ℕ)
  unfolding cancelled_token
  cancelled_tokens [] = returns []
  cancelled_tokens (node ∷ nodes) = do
    token_id ← cancelled_token node
    token_ids ← cancelled_tokens nodes
    returns (prepend token_id token_ids)

  unfoldable pub links : TxMeta → StObject → List ℕ → List NftTransactionsData
  links meta tx = map (λ id. transactions_data r id meta (get_transaction_id tx))

  unfoldable pub get_nftoken_cancel_offer_data : TxMeta → StObject → Outcome NftData
  unfolding cancelled_tokens links
  get_nftoken_cancel_offer_data meta tx = do
    token_ids ← cancelled_tokens (get_nodes meta)
    returns (unique is_same_link (std_sort comes_before (links meta tx token_ids)), none)

  unfoldable pub get_nftoken_create_offer_data : TxMeta → StObject → Outcome NftData
  get_nftoken_create_offer_data meta tx = do
    token_id ← get_field_h256 tx sf_nftoken_id
    returns (transactions_data r token_id meta (get_transaction_id tx) ∷ [], none)

  -- The tokens without those that repeat their left neighbour.
  abbrev pub drop_repeats : List ℕ → List ℕ
  drop_repeats = unique (λ a b. a == b)

  same_token :
      (meta : TxMeta) (hash a b : ℕ)
      → is_same_link (transactions_data r a meta hash) (transactions_data r b meta hash) ≡ (a == b)
  same_token meta hash a b = ground arith

  links-unique :
      (meta : TxMeta) (tx : StObject) (ids : List ℕ)
      → unique is_same_link (links meta tx ids) ≡ links meta tx (drop_repeats ids)
  unfolding links
  links-unique meta tx ids =
      unique-map is_same_link (λ a b. a == b) _ (same_token meta (get_transaction_id tx)) ids

  -- So the links are not free of repetitions: where offers for `a`, another token `b`, and `a` again
  -- keep their order, there are three.
  pub cancel_repeats :
      (meta : TxMeta) (tx : StObject) (a b : ℕ)
      → a ≢ b
      → cancelled_tokens (get_nodes meta) ≡ returns (a ∷ b ∷ a ∷ [])
      → std_sort comes_before (links meta tx (a ∷ b ∷ a ∷ [])) ≡ links meta tx (a ∷ b ∷ a ∷ [])
      → get_nftoken_cancel_offer_data meta tx ≡ returns (links meta tx (a ∷ b ∷ a ∷ []), none)
  unfolding get_nftoken_cancel_offer_data
  cancel_repeats meta tx a b n e s =
      rw (e, s, links-unique meta tx (a ∷ b ∷ a ∷ []), three_apart a b n) refl
