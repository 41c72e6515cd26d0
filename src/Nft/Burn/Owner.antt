-- ===== src/Nft/Burn/Owner.antt =====
-- Whom a burned token is taken to have belonged to (getNFTokenBurnData of src/etl/NFTHelpers.cpp).
use clio_migrator.Prelude.{
  ℕ, ◌≡◌, ◌≢◌, ◌⊎◌, refl, sym, inl, inr, List, [], ◌∷◌, Bool, true, false, Option, some, ◌==◌,
  arith, Bool-cases, subst,
}
use clio_migrator.Outcome.{returns, returns-injective, >>=-eq-returns}
use clio_migrator.Ripple.{
  Ripple, is_created, is_deleted, sf_ledger_entry_type, sf_ledger_index, sf_previous_fields,
  sf_final_fields, sf_nftokens, sf_nftoken_id,
}
use clio_migrator.Nft.Data.{NftData, transactions_data, moved_data}
use clio_migrator.Nft.Lists.{Lists, has_token-Lists}
use clio_migrator.Nft.Burn.{
  previous_tokens, lists_token, held_token, burn_owner, get_nftoken_burn_data,
}

module _ (r : Ripple) (token_id : ℕ) where
  open r use {
    StObject, TxMeta, get_field_u16, get_field_h256, get_field_array, peek_at_field,
    is_field_present, get_f_name, get_transaction_id, get_nodes, account_from_void, lt_nftoken_page,
  }

  -- The tokens that a page held before the transaction: those of its previous fields, where these
  -- are given, or those of the final fields of a deleted page; a page for which neither is told has
  -- not changed its tokens.
  pub data Before (node : StObject) : Bool → Type 0 where
    previous :
        {held : Bool} (fields : StObject) (nfts : List StObject)
        → is_field_present node sf_previous_fields ≡ true
        → peek_at_field node sf_previous_fields ≡ returns fields
        → is_field_present fields sf_nftokens ≡ true
        → get_field_array fields sf_nftokens ≡ returns nfts
        → Lists r token_id nfts held
        → Before node held
    previous_without :
        (fields : StObject)
        → is_field_present node sf_previous_fields ≡ true
        → peek_at_field node sf_previous_fields ≡ returns fields
        → is_field_present fields sf_nftokens ≡ false
        → Before node false
    deleted :
        {held : Bool} (fields : StObject) (nfts : List StObject)
        → is_field_present node sf_previous_fields ≡ false
        → is_deleted (get_f_name node) ≡ true
        → peek_at_field node sf_final_fields ≡ returns fields
        → get_field_array fields sf_nftokens ≡ returns nfts
        → Lists r token_id nfts held
        → Before node held
    unchanged :
        is_field_present node sf_previous_fields ≡ false
        → is_deleted (get_f_name node) ≡ false
        → Before node false

  -- Whether a node is a page, not created by the transaction, that held the token before it.
  pub data Held (node : StObject) : Bool → Type 0 where
    other_object :
        (entry_type : ℕ)
        → get_field_u16 node sf_ledger_entry_type ≡ returns entry_type
        → entry_type ≢ lt_nftoken_page
        → Held node false
    created : is_created (get_f_name node) ≡ true → Held node false
    page :
        {held : Bool}
        → get_field_u16 node sf_ledger_entry_type ≡ returns lt_nftoken_page
        → is_created (get_f_name node) ≡ false
        → Before node held
        → Held node held

  -- The nodes up to the first that held the token.
  abbrev pub FirstHolder : List StObject → StObject → Type 0
  FirstHolder [] node = ⊥
  FirstHolder (n ∷ nodes) node =
      ((n ≡ node) × Held n true) ⊎ (Held n false × FirstHolder nodes node)

  tokens-Before :
      (node : StObject) (tokens : Option (List StObject)) (held : Bool)
      → previous_tokens r node ≡ returns tokens
      → lists_token r token_id tokens ≡ returns held
      → Before node held
  unfolding previous_tokens lists_token
  tokens-Before node tokens held h l =
      elim (Bool-cases (is_field_present node sf_previous_fields)) [
        | inl b ↦
            let (fields, e, h₁) =
              >>=-eq-returns (peek_at_field node sf_previous_fields) _ (rw b at h) in
            elim (Bool-cases (is_field_present fields sf_nftokens)) [
              | inl c ↦
                  let (nfts, f, h₂) =
                    >>=-eq-returns (get_field_array fields sf_nftokens) _ (rw c at h₁) in
                  previous fields nfts b e c f (
                    has_token-Lists r token_id nfts held (
                      subst (λ o. lists_token r token_id o ≡ returns held)
                        (sym (returns-injective _ _ h₂)) l))
              | inr c ↦
                  subst (Before node)
                    (returns-injective false held (
                      subst (λ o. lists_token r token_id o ≡ returns held)
                        (sym (returns-injective _ _ (rw c at h₁))) l))
                    (previous_without fields b e c)
            ]
        | inr b ↦ elim (Bool-cases (is_deleted (get_f_name node))) [
          | inl d ↦
              let (fields, e, h₁) =
                >>=-eq-returns (peek_at_field node sf_final_fields) _ (rw (b, d) at h) in
              let (nfts, f, h₂) = >>=-eq-returns (get_field_array fields sf_nftokens) _ h₁ in
              deleted fields nfts b d e f (
                has_token-Lists r token_id nfts held (
                  subst (λ o. lists_token r token_id o ≡ returns held)
                    (sym (returns-injective _ _ h₂)) l))
          | inr d ↦
              subst (Before node)
                (returns-injective false held (
                  subst (λ o. lists_token r token_id o ≡ returns held)
                    (sym (returns-injective _ _ (rw (b, d) at h))) l))
                (unchanged b d)
        ]
      ]

  held_token-Held :
      (node : StObject) (held : Bool) → held_token r token_id node ≡ returns held → Held node held
  unfolding held_token
  held_token-Held node held h =
      let (entry_type, e, h₁) = >>=-eq-returns (get_field_u16 node sf_ledger_entry_type) _ h in
      elim (Bool-cases (entry_type == lt_nftoken_page)) [
        | inr b ↦
            subst (Held node) (returns-injective false held (rw b at h₁))
              (other_object entry_type e (λ s. absurd (ground (arith, b, s))))
        | inl b ↦ elim (Bool-cases (is_created (get_f_name node))) [
          | inl c ↦ subst (Held node) (returns-injective false held (rw (b, c) at h₁)) (created c)
          | inr c ↦
              let same : entry_type ≡ lt_nftoken_page = ground (arith, b) in
              let (tokens, f, h₂) = >>=-eq-returns (previous_tokens r node) _ (rw (b, c) at h₁) in
              page (subst (λ t. get_field_u16 node sf_ledger_entry_type ≡ returns t) same e) c
                (tokens-Before node tokens held f h₂)
        ]
      ]

  burn_owner-FirstHolder :
      (tx_id : ℕ) (nodes : List StObject) (o : ℕ)
      → burn_owner r tx_id token_id nodes ≡ returns o
      → (node : StObject) × (index : ℕ) × FirstHolder nodes node
        × (get_field_h256 node sf_ledger_index ≡ returns index)
        × (o ≡ account_from_void index)
  unfolding burn_owner
  burn_owner-FirstHolder tx_id [] o h = cc
  burn_owner-FirstHolder tx_id (n ∷ nodes) o h =
      let (held, e, h₁) = >>=-eq-returns (held_token r token_id n) _ h in
      elim (Bool-cases held) [
        | inl b ↦
            let (index, p, h₂) = >>=-eq-returns (get_field_h256 n sf_ledger_index) _ (rw b at h₁) in
            (
              n,
              index,
              inl (refl, subst (Held n) b (held_token-Held n held e)),
              p,
              sym (returns-injective _ _ h₂),
            )
        | inr b ↦
            let (node, index, f, p, q) = burn_owner-FirstHolder tx_id nodes o (rw b at h₁) in
            (node, index, inr (subst (Held n) b (held_token-Held n held e), f), p, q)
      ]

module _ (r : Ripple) where
  open r use {StObject, TxMeta, get_field_h256, get_transaction_id, get_nodes, account_from_void}

  -- A burn that returns gives one link and one record, which is marked as burned and sets no URI. The
  -- token is that of the transaction, and the owner is the account in the index of the first page
  -- that held the token before the transaction: by its previous fields, or, if it was deleted and
  -- has none, by its final fields.
  pub burn_returns :
      (meta : TxMeta) (tx : StObject) (d : NftData)
      → get_nftoken_burn_data r meta tx ≡ returns d
      → (token_id : ℕ) × (node : StObject) × (index : ℕ) × (get_field_h256 tx sf_nftoken_id
          ≡ returns token_id)
        × FirstHolder r token_id (get_nodes meta) node
        × (get_field_h256 node sf_ledger_index ≡ returns index)
        × (d ≡ (
          transactions_data r token_id meta (get_transaction_id tx) ∷ [],
          some (moved_data r token_id (account_from_void index) meta true),
        ))
  unfolding get_nftoken_burn_data
  burn_returns meta tx d h =
      let (token_id, e, h') = >>=-eq-returns (get_field_h256 tx sf_nftoken_id) _ h in
      let (owner, p, q) =
        >>=-eq-returns (burn_owner r (get_transaction_id tx) token_id (get_nodes meta)) _ h' in
      let (node, index, f, g, s) =
        burn_owner-FirstHolder r token_id (get_transaction_id tx) (get_nodes meta) owner p in
      (token_id, node, index, e, f, g, ground arith)
