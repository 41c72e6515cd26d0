-- ===== src/Nft/Mint/Gathers.antt =====
-- The tokens that the pages of a transaction list before and after it, and the owner of the first
-- page, said without the code (the loop of getNFTokenMintData of src/etl/NFTHelpers.cpp).
use clio_migrator.Prelude.{
  ℕ, ◌≡◌, ◌≢◌, refl, sym, ap, ◌∙◌, inl, inr, List, [], ◌∷◌, ◌++◌, append-nil, true, false, Option,
  none, some, Bool-cases, if◌then◌else◌,
}
use clio_migrator.Outcome.{Outcome, returns, traverse, returns-injective, >>=-eq-returns}
use clio_migrator.Ripple.{
  Ripple, is_created, sf_ledger_entry_type, sf_ledger_index, sf_new_fields, sf_previous_fields,
  sf_final_fields, sf_nftokens, sf_nftoken_id,
}
use clio_migrator.Nft.Mint.{
  MintIds, token_ids, ids_under, created_page, changed_tokens, modified_page,
}

module _ (r : Ripple) where
  open r use {
    StObject, get_field_u16, get_field_h256, get_field_array, peek_at_field, is_field_present,
    get_f_name, account_from_void, lt_nftoken_page,
  }

  -- The IDs of the tokens in the list of an object.
  abbrev pub HasIds : StObject → List ℕ → Type 0
  HasIds fields ids =
      (nfts : List StObject) × (get_field_array fields sf_nftokens ≡ returns nfts)
      × (traverse (λ nft. get_field_h256 nft sf_nftoken_id) nfts ≡ returns ids)

  -- The tokens of a page before and after: a created page has none before; one that was changed
  -- without a change of its tokens counts as having none.
  pub data PageIds (node : StObject) : List ℕ → List ℕ → Type 0 where
    created :
        {ids : List ℕ} (fields : StObject)
        → is_created (get_f_name node) ≡ true
        → peek_at_field node sf_new_fields ≡ returns fields
        → HasIds fields ids
        → PageIds node [] ids
    linked :
        (previous : StObject)
        → is_created (get_f_name node) ≡ false
        → peek_at_field node sf_previous_fields ≡ returns previous
        → is_field_present previous sf_nftokens ≡ false
        → PageIds node [] []
    changed :
        {prev final : List ℕ} (previous fields : StObject)
        → is_created (get_f_name node) ≡ false
        → peek_at_field node sf_previous_fields ≡ returns previous
        → is_field_present previous sf_nftokens ≡ true
        → HasIds previous prev
        → peek_at_field node sf_final_fields ≡ returns fields
        → HasIds fields final
        → PageIds node prev final

  -- What the nodes tell, from an owner found so far on: the tokens before and after, in order, and
  -- the owner, which is that of the first page.
  pub data Gathers : Option ℕ → List StObject → List ℕ → List ℕ → Option ℕ → Type 0 where
    none_left : {owner : Option ℕ} → Gathers owner [] [] [] owner
    other_object :
        {owner last : Option ℕ} {nodes : List StObject} {prev final : List ℕ} (node : StObject)
        (entry_type : ℕ)
        → get_field_u16 node sf_ledger_entry_type ≡ returns entry_type
        → entry_type ≢ lt_nftoken_page
        → Gathers owner nodes prev final last
        → Gathers owner (node ∷ nodes) prev final last
    first_page :
        {last : Option ℕ} {nodes : List StObject} {p f prev final : List ℕ} (node : StObject)
        (index : ℕ)
        → get_field_u16 node sf_ledger_entry_type ≡ returns lt_nftoken_page
        → get_field_h256 node sf_ledger_index ≡ returns index
        → PageIds node p f
        → Gathers (some (account_from_void index)) nodes prev final last
        → Gathers none (node ∷ nodes) (p ++ prev) (f ++ final) last
    next_page :
        {last : Option ℕ} {nodes : List StObject} {p f prev final : List ℕ} (node : StObject)
        (owner : ℕ)
        → get_field_u16 node sf_ledger_entry_type ≡ returns lt_nftoken_page
        → PageIds node p f
        → Gathers (some owner) nodes prev final last
        → Gathers (some owner) (node ∷ nodes) (p ++ prev) (f ++ final) last

  abbrev pub added : MintIds → List ℕ → List ℕ → Option ℕ → MintIds
  added a p f owner = record {
    prev_ids = a.prev_ids ++ p;
    final_ids = a.final_ids ++ f;
    owner = owner;
  }

  read_ids :
      (fields : StObject) (ids : List ℕ) → ids_under r fields ≡ returns ids → HasIds fields ids
  unfolding ids_under token_ids
  read_ids fields ids h =
      let (nfts, e, f) = >>=-eq-returns (get_field_array fields sf_nftokens) _ h in (nfts, e, f)

  HasIds-read :
      (fields : StObject) (ids : List ℕ) → HasIds fields ids → ids_under r fields ≡ returns ids
  unfolding ids_under token_ids
  HasIds-read fields ids (nfts, e, f) = rw e f

  -- What a page adds, for an owner known.
  abbrev pub page_with : StObject → ℕ → MintIds → Outcome MintIds
  page_with node owner a =
      if is_created (get_f_name node)
      then created_page r node owner a
      else modified_page r node owner a

  pub page-PageIds :
      (node : StObject) (owner : ℕ) (a b : MintIds)
      → page_with node owner a ≡ returns b
      → (p : List ℕ) × (f : List ℕ) × PageIds node p f × (b ≡ added a p f (some owner))
  unfolding created_page modified_page changed_tokens
  page-PageIds node owner a b h = elim (Bool-cases (is_created (get_f_name node))) [
    | inl c ↦
        let (fields, e, h₁) = >>=-eq-returns (peek_at_field node sf_new_fields) _ (rw c at h) in
        let (ids, f, h₂) = >>=-eq-returns (ids_under r fields) _ h₁ in
        (
          [],
          ids,
          created fields c e (read_ids fields ids f),
          sym (returns-injective _ b h₂)
              ∙ ap
                  (λ l. record { prev_ids = l; final_ids = a.final_ids ++ ids; owner = some owner })
                  (sym (append-nil a.prev_ids)),
        )
    | inr c ↦
        let (previous, e, h₁) =
          >>=-eq-returns (peek_at_field node sf_previous_fields) _ (rw c at h) in
        elim (Bool-cases (is_field_present previous sf_nftokens)) [
          | inl d ↦
              let (prev, f, h₂) = >>=-eq-returns (ids_under r previous) _ (rw d at h₁) in
              let (fields, g, h₃) = >>=-eq-returns (peek_at_field node sf_final_fields) _ h₂ in
              let (final, k, h₄) = >>=-eq-returns (ids_under r fields) _ h₃ in
              (
                prev,
                final,
                changed previous fields c e d (read_ids previous prev f) g
                    (read_ids fields final k),
                sym (returns-injective _ b h₄),
              )
          | inr d ↦ (
            [],
            [],
            linked previous c e d,
            sym (returns-injective _ b (rw d at h₁))
                ∙ ap (λ l. record { prev_ids = l; final_ids = a.final_ids; owner = some owner })
                    (sym (append-nil a.prev_ids))
                ∙ ap
                    (λ l. record { prev_ids = a.prev_ids ++ []; final_ids = l; owner = some owner })
                    (sym (append-nil a.final_ids)),
          )
        ]
  ]

  pub PageIds-page :
      {p f : List ℕ} (node : StObject) (owner : ℕ) (a : MintIds)
      → PageIds node p f
      → page_with node owner a ≡ returns (added a p f (some owner))
  unfolding created_page modified_page changed_tokens
  PageIds-page node owner a (created {ids} fields c e k) =
      rw (c, e, HasIds-read fields ids k)
        (ap
          (λ l.
            returns (record { prev_ids = l; final_ids = a.final_ids ++ ids; owner = some owner }))
          (sym (append-nil a.prev_ids)))
  PageIds-page node owner a (linked previous c e d) =
      rw (c, e, d)
        (ap (λ l. returns (record { prev_ids = l; final_ids = a.final_ids; owner = some owner }))
            (sym (append-nil a.prev_ids))
          ∙ ap
              (λ l.
                returns (record { prev_ids = a.prev_ids ++ []; final_ids = l; owner = some owner }))
              (sym (append-nil a.final_ids)))
  PageIds-page node owner a (changed {prev} {final} previous fields c e d k g l) =
      rw (c, e, d, HasIds-read previous prev k, g, HasIds-read fields final l) refl
