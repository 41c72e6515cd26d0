-- ===== src/Nft/AcceptOffer/Owner.antt =====
-- Who owns a token after an offer for it is accepted (getNFTokenAcceptOfferData of
-- src/etl/NFTHelpers.cpp).
use clio_migrator.Prelude.{
  ℕ, ◌≡◌, ◌≢◌, ◌⊎◌, inl, inr, sym, subst, Bool-cases, arith, List, [], ◌∷◌, Bool, true, false,
  Option, none, some, ◌==◌,
}
use clio_migrator.Outcome.{Outcome, returns, >>=-eq-returns, returns-injective}
use clio_migrator.Ripple.{
  Ripple, SField, is_created, is_deleted, sf_ledger_entry_type, sf_ledger_index, sf_new_fields,
  sf_final_fields, sf_nftokens, sf_nftoken_id, sf_owner, sf_nftoken_buy_offer,
  sf_nftoken_sell_offer,
}
use clio_migrator.Nft.Data.{NftData, has_token}
use clio_migrator.Nft.Lists.{Lists, has_token-Lists}
use clio_migrator.Nft.AcceptOffer.{
  find_offer, offered_token, offer_owner, current_tokens, page_buyer, find_buyer, accepted,
  accept_buy_offer, accept_sell_offer, get_nftoken_accept_offer_data,
}

module _ (r : Ripple) where
  open r use {
    StObject, TxMeta, get_field_u16, get_field_h256, get_account_id, get_field_array, peek_at_field,
    is_field_present, get_f_name, get_transaction_id, get_nodes, account_from_void, lt_nftoken_page,
  }

  -- The first node with the index that a field of the transaction names.
  abbrev pub IsOffer : StObject → SField → List StObject → StObject → Type 0
  IsOffer tx field [] offer = ⊥
  IsOffer tx field (node ∷ nodes) offer =
      (index : ℕ) × (named : ℕ) × (get_field_h256 node sf_ledger_index ≡ returns index)
      × (get_field_h256 tx field ≡ returns named)
      × (((index ≡ named) × (node ≡ offer)) ⊎ ((index ≢ named) × IsOffer tx field nodes offer))

  -- The token and the owner in the final fields of an offer.
  abbrev pub Offers : StObject → ℕ → ℕ → Type 0
  Offers offer token_id owner =
      (final : StObject) × (peek_at_field offer sf_final_fields ≡ returns final)
      × (get_field_h256 final sf_nftoken_id ≡ returns token_id)
      × (get_account_id final sf_owner ≡ returns owner)

  -- Whether a page lists the token after the transaction: by its new fields if it was created, else
  -- by its final fields.
  pub data After (token_id : ℕ) (node : StObject) : Bool → Type 0 where
    created :
        {listed : Bool} (fields : StObject) (nfts : List StObject)
        → is_created (get_f_name node) ≡ true
        → peek_at_field node sf_new_fields ≡ returns fields
        → get_field_array fields sf_nftokens ≡ returns nfts
        → Lists r token_id nfts listed
        → After token_id node listed
    modified :
        {listed : Bool} (fields : StObject) (nfts : List StObject)
        → is_created (get_f_name node) ≡ false
        → peek_at_field node sf_final_fields ≡ returns fields
        → get_field_array fields sf_nftokens ≡ returns nfts
        → Lists r token_id nfts listed
        → After token_id node listed

  -- The account, not the seller, whose page the node is, where it lists the token.
  pub data Buys (token_id seller : ℕ) (node : StObject) : Option ℕ → Type 0 where
    other_object :
        (entry_type : ℕ)
        → get_field_u16 node sf_ledger_entry_type ≡ returns entry_type
        → entry_type ≢ lt_nftoken_page
        → Buys token_id seller node none
    deleted : is_deleted (get_f_name node) ≡ true → Buys token_id seller node none
    of_seller :
        (index : ℕ)
        → get_field_h256 node sf_ledger_index ≡ returns index
        → account_from_void index ≡ seller
        → Buys token_id seller node none
    not_listed :
        (index : ℕ)
        → get_field_h256 node sf_ledger_index ≡ returns index
        → After token_id node false
        → Buys token_id seller node none
    listed :
        (index : ℕ)
        → get_field_u16 node sf_ledger_entry_type ≡ returns lt_nftoken_page
        → is_deleted (get_f_name node) ≡ false
        → get_field_h256 node sf_ledger_index ≡ returns index
        → account_from_void index ≢ seller
        → After token_id node true
        → Buys token_id seller node (some (account_from_void index))

  -- The owner of the first such page.
  abbrev pub FirstBuyer : ℕ → ℕ → ℕ → List StObject → Type 0
  FirstBuyer token_id seller owner [] = ⊥
  FirstBuyer token_id seller owner (node ∷ nodes) =
      Buys token_id seller node (some owner)
      ⊎ (Buys token_id seller node none × FirstBuyer token_id seller owner nodes)

  find_offer-IsOffer :
      (tx : StObject) (field : SField) (nodes : List StObject) (offer : StObject)
      → find_offer r tx field nodes ≡ returns offer
      → IsOffer tx field nodes offer
  unfolding find_offer
  find_offer-IsOffer tx field [] offer h = cc
  find_offer-IsOffer tx field (node ∷ nodes) offer h =
      let (index, e, h₁) = >>=-eq-returns (get_field_h256 node sf_ledger_index) _ h in
      let (named, f, h₂) = >>=-eq-returns (get_field_h256 tx field) _ h₁ in
      (
        index,
        named,
        e,
        f,
        elim (Bool-cases (index == named)) [
          | inl b ↦ inl (ground (arith, b), returns-injective _ _ (rw b at h₂))
          | inr b ↦ inr (
            (λ s. absurd (ground (arith, b, s))),
            find_offer-IsOffer tx field nodes offer (rw b at h₂),
          )
        ],
      )

  current-After :
      (token_id : ℕ) (node : StObject) (nfts : List StObject) (held : Bool)
      → current_tokens r node ≡ returns nfts
      → has_token r token_id nfts ≡ returns held
      → After token_id node held
  unfolding current_tokens
  current-After token_id node nfts held h l = elim (Bool-cases (is_created (get_f_name node))) [
    | inl b ↦
        let (fields, e, f) = >>=-eq-returns (peek_at_field node sf_new_fields) _ (rw b at h) in
        created fields nfts b e f (has_token-Lists r token_id nfts held l)
    | inr b ↦
        let (fields, e, f) = >>=-eq-returns (peek_at_field node sf_final_fields) _ (rw b at h) in
        modified fields nfts b e f (has_token-Lists r token_id nfts held l)
  ]

  page_buyer-Buys :
      (token_id seller : ℕ) (node : StObject) (buyer : Option ℕ)
      → page_buyer r token_id seller node ≡ returns buyer
      → Buys token_id seller node buyer
  unfolding page_buyer
  page_buyer-Buys token_id seller node buyer h =
      let (entry_type, e, h₁) = >>=-eq-returns (get_field_u16 node sf_ledger_entry_type) _ h in
      elim (Bool-cases (entry_type == lt_nftoken_page)) [
        | inr b ↦
            subst (Buys token_id seller node) (returns-injective none buyer (rw b at h₁))
              (other_object entry_type e (λ s. absurd (ground (arith, b, s))))
        | inl b ↦ elim (Bool-cases (is_deleted (get_f_name node))) [
          | inl c ↦
              subst (Buys token_id seller node) (returns-injective none buyer (rw (b, c) at h₁))
                (deleted c)
          | inr c ↦
              let same : entry_type ≡ lt_nftoken_page = ground (arith, b) in
              let page = subst (λ t. get_field_u16 node sf_ledger_entry_type ≡ returns t) same e in
              let (index, f, h₂) =
                >>=-eq-returns (get_field_h256 node sf_ledger_index) _ (rw (b, c) at h₁) in
              elim (Bool-cases (account_from_void index == seller)) [
                | inl d ↦
                    subst (Buys token_id seller node) (returns-injective none buyer (rw d at h₂))
                      (of_seller index f (ground (arith, d)))
                | inr d ↦
                    let (nfts, g, h₃) = >>=-eq-returns (current_tokens r node) _ (rw d at h₂) in
                    let (found, k, h₄) = >>=-eq-returns (has_token r token_id nfts) _ h₃ in
                    let held = current-After token_id node nfts found g k in
                    elim (Bool-cases found) [
                      | inl x ↦
                          subst (Buys token_id seller node) (returns-injective _ buyer (rw x at h₄))
                            (listed index page c f (λ s. absurd (ground (arith, d, s)))
                              (subst (After token_id node) x held))
                      | inr x ↦
                          subst (Buys token_id seller node) (returns-injective _ buyer (rw x at h₄))
                            (not_listed index f (subst (After token_id node) x held))
                    ]
              ]
        ]
      ]

  find_buyer-FirstBuyer :
      (tx_id token_id seller : ℕ) (nodes : List StObject) (owner : ℕ)
      → find_buyer r tx_id token_id seller nodes ≡ returns owner
      → FirstBuyer token_id seller owner nodes
  unfolding find_buyer
  find_buyer-FirstBuyer tx_id token_id seller [] owner h = cc
  find_buyer-FirstBuyer tx_id token_id seller (node ∷ nodes) owner h =
      let (buyer, e, h') = >>=-eq-returns (page_buyer r token_id seller node) _ h in
      branch buyer (page_buyer-Buys token_id seller node buyer e) h'
        (find_buyer-FirstBuyer tx_id token_id seller nodes owner)
    where
      branch :
          (buyer : Option ℕ)
          → Buys token_id seller node buyer
          → (elim buyer as (λ b. Outcome ℕ) [
            | none ↦ find_buyer r tx_id token_id seller nodes
            | some o ↦ returns o
          ])
            ≡ returns owner
          → (find_buyer r tx_id token_id seller nodes ≡ returns owner
              → FirstBuyer token_id seller owner nodes)
          → FirstBuyer token_id seller owner (node ∷ nodes)
      branch none b h' ih = inr (b, ih h')
      branch (some o) b h' ih =
          inl (subst (λ x. Buys token_id seller node (some x)) (returns-injective o owner h') b)

  offered :
      (offer : StObject) (token_id owner : ℕ)
      → offered_token r offer ≡ returns token_id
      → offer_owner r offer ≡ returns owner
      → Offers offer token_id owner
  unfolding offered_token offer_owner
  offered offer token_id owner t o =
      let (final, e, f) = >>=-eq-returns (peek_at_field offer sf_final_fields) _ t in
      (final, e, f, rw e at o)

  -- An accepted offer that returns gives one link and one record, not burned and without a URI, for
  -- the token in the final fields of the offer, which is the first node with the index that the
  -- transaction names. Where it names a buy offer, the owner is that of the offer; otherwise it is
  -- the account of the first page, not one of the seller's, that lists the token afterwards: a
  -- created page by its new fields, another one by its final fields.
  pub accept_returns :
      (meta : TxMeta) (tx : StObject) (d : NftData)
      → get_nftoken_accept_offer_data r meta tx ≡ returns d
      → (offer : StObject) × (token_id : ℕ) × (owner : ℕ) × (d ≡ accepted r meta tx token_id owner)
        × (((is_field_present tx sf_nftoken_buy_offer ≡ true)
              × IsOffer tx sf_nftoken_buy_offer (get_nodes meta) offer
              × Offers offer token_id owner)
            ⊎ ((seller : ℕ) × (is_field_present tx sf_nftoken_buy_offer ≡ false)
                × IsOffer tx sf_nftoken_sell_offer (get_nodes meta) offer
                × Offers offer token_id seller
                × FirstBuyer token_id seller owner (get_nodes meta)))
  unfolding get_nftoken_accept_offer_data
  accept_returns meta tx d h = elim (Bool-cases (is_field_present tx sf_nftoken_buy_offer)) [
    | inl b ↦
        let (offer, e, h₁) =
          >>=-eq-returns (find_offer r tx sf_nftoken_buy_offer (get_nodes meta)) _
            (rw (b, accept_buy_offer) at h) in
        let (token_id, f, h₂) = >>=-eq-returns (offered_token r offer) _ h₁ in
        let (owner, g, h₃) = >>=-eq-returns (offer_owner r offer) _ h₂ in
        (
          offer,
          token_id,
          owner,
          sym (returns-injective _ _ h₃),
          inl (b, find_offer-IsOffer tx _ _ offer e, offered offer token_id owner f g),
        )
    | inr b ↦
        let (offer, e, h₁) =
          >>=-eq-returns (find_offer r tx sf_nftoken_sell_offer (get_nodes meta)) _
            (rw (b, accept_sell_offer) at h) in
        let (token_id, f, h₂) = >>=-eq-returns (offered_token r offer) _ h₁ in
        let (seller, g, h₃) = >>=-eq-returns (offer_owner r offer) _ h₂ in
        let (owner, k, h₄) =
          >>=-eq-returns (find_buyer r (get_transaction_id tx) token_id seller (get_nodes meta)) _
            h₃ in
        (
          offer,
          token_id,
          owner,
          sym (returns-injective _ _ h₄),
          inr (
            seller,
            b,
            find_offer-IsOffer tx _ _ offer e,
            offered offer token_id seller f g,
            find_buyer-FirstBuyer (get_transaction_id tx) token_id seller (get_nodes meta) owner k,
          ),
        )
  ]
