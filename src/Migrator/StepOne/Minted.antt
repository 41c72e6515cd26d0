-- ===== src/Migrator/StepOne/Minted.antt =====
-- The records that the first step takes from a list of transactions, said without the code
-- (doMigrationStepOne of src/main/main.cpp).
use clio_migrator.Prelude.{
  ℕ, ◌<◌, ◌≤◌, ◌≡◌, ◌≢◌, ◌↔◌, inl, inr, refl, ap, ◌∙◌, subst, List, [], ◌∷◌, ◌++◌, true, false,
  Option, none, some, ltb, arith, Bool-cases,
}
use clio_migrator.Types.{TransactionAndMetadata}
use clio_migrator.Outcome.{returns, value, returns-injective, >>=-eq-returns}
use clio_migrator.Ripple.{Ripple, TxType, nftoken_mint}
use clio_migrator.Nft.Data.{NftsData, NftTransactionsData}
use clio_migrator.Nft.FromTx.{get_nft_data_from_tx}
use clio_migrator.Migrator.StepOne.{is_mint, mint_data, tx_data, txs_data}

module _ (r : Ripple) (max_sequence : ℕ) where
  open r use {StObject, TxMeta, parse_st_tx, parse_tx_meta, get_txn_type, get_transaction_id}

  -- The records of the mints among transactions: a transaction after the last ledger adds none, and
  -- neither does one that is no mint.
  pub data Minted : List TransactionAndMetadata → List NftsData → Type 0 where
    none_left : Minted [] []
    after_range :
        {txs : List TransactionAndMetadata} {ds : List NftsData} (tx : TransactionAndMetadata)
        → max_sequence < tx.ledger_sequence
        → Minted txs ds
        → Minted (tx ∷ txs) ds
    no_mint :
        {txs : List TransactionAndMetadata} {ds : List NftsData} (tx : TransactionAndMetadata)
        (sttx : StObject)
        → tx.ledger_sequence ≤ max_sequence
        → parse_st_tx tx.transaction ≡ returns sttx
        → get_txn_type sttx ≢ nftoken_mint
        → Minted txs ds
        → Minted (tx ∷ txs) ds
    mint :
        {txs : List TransactionAndMetadata} {ds : List NftsData} (tx : TransactionAndMetadata)
        (sttx : StObject) (meta : TxMeta) (links : List NftTransactionsData) (nft : NftsData)
        → tx.ledger_sequence ≤ max_sequence
        → parse_st_tx tx.transaction ≡ returns sttx
        → get_txn_type sttx ≡ nftoken_mint
        → parse_tx_meta (get_transaction_id sttx) tx.ledger_sequence tx.metadata ≡ returns meta
        → get_nft_data_from_tx r meta sttx ≡ returns (links, some nft)
        → Minted txs ds
        → Minted (tx ∷ txs) (nft ∷ ds)

  mint_type : (t : TxType) → is_mint t ≡ true → t ≡ nftoken_mint
  mint_type TxType.nftoken_mint h = refl
  mint_type TxType.nftoken_burn h = cc
  mint_type TxType.nftoken_accept_offer h = cc
  mint_type TxType.nftoken_cancel_offer h = cc
  mint_type TxType.nftoken_create_offer h = cc
  mint_type (TxType.other_type n) h = cc

  other_type_lem : (t : TxType) → is_mint t ≡ false → t ≢ nftoken_mint
  other_type_lem t h e = let f = ap is_mint e in cc

  not_mint : (t : TxType) → t ≢ nftoken_mint → is_mint t ≡ false
  not_mint t h = elim (Bool-cases (is_mint t)) [ inl b ↦ absurd (h (mint_type t b)) | inr b ↦ b ]

  of_value : (o : Option NftsData) (nft : NftsData) → value o ≡ returns nft → o ≡ some nft
  of_value none nft h = cc
  of_value (some a) nft h = ap some (returns-injective a nft h)

  tx_data-Minted :
      (tx : TransactionAndMetadata) (txs : List TransactionAndMetadata) (ds es : List NftsData)
      → tx_data r max_sequence tx ≡ returns ds
      → Minted txs es
      → Minted (tx ∷ txs) (ds ++ es)
  unfolding tx_data mint_data
  tx_data-Minted tx txs ds es h m = elim (Bool-cases (ltb max_sequence tx.ledger_sequence)) [
    | inl b ↦
        subst (λ l. Minted (tx ∷ txs) (l ++ es)) (returns-injective [] ds (rw b at h))
          (after_range tx (ground (arith, b)) m)
    | inr b ↦
        let small : tx.ledger_sequence ≤ max_sequence = ground (arith, b) in
        let (sttx, e, h₁) = >>=-eq-returns (parse_st_tx tx.transaction) _ (rw b at h) in
        elim (Bool-cases (is_mint (get_txn_type sttx))) [
          | inl c ↦
              let (meta, f, h₂) =
                >>=-eq-returns
                  (parse_tx_meta (get_transaction_id sttx) tx.ledger_sequence tx.metadata) _
                  (rw c at h₁) in
              let (d, g, h₃) = >>=-eq-returns (get_nft_data_from_tx r meta sttx) _ h₂ in
              let (nft, v, h₄) = >>=-eq-returns (value d.1) _ h₃ in
              subst (λ l. Minted (tx ∷ txs) (l ++ es)) (returns-injective (nft ∷ []) ds h₄)
                (mint tx sttx meta d.0 nft small e (mint_type (get_txn_type sttx) c) f
                  (g ∙ ap (λ o. returns (d.0, o)) (of_value d.1 nft v)) m)
          | inr c ↦
              subst (λ l. Minted (tx ∷ txs) (l ++ es)) (returns-injective [] ds (rw c at h₁))
                (no_mint tx sttx small e (other_type_lem (get_txn_type sttx) c) m)
        ]
  ]

  txs_data-Minted :
      (txs : List TransactionAndMetadata) (ds : List NftsData)
      → txs_data r max_sequence txs ≡ returns ds
      → Minted txs ds
  unfolding txs_data
  txs_data-Minted [] ds h = subst (Minted []) (returns-injective [] ds h) none_left
  txs_data-Minted (tx ∷ txs) ds h =
      let (d, e, h₁) = >>=-eq-returns (tx_data r max_sequence tx) _ h in
      let (es, f, h₂) = >>=-eq-returns (txs_data r max_sequence txs) _ h₁ in
      subst (Minted (tx ∷ txs)) (returns-injective (d ++ es) ds h₂)
        (tx_data-Minted tx txs d es e (txs_data-Minted txs es f))

  Minted-txs_data :
      {txs : List TransactionAndMetadata} {ds : List NftsData}
      → Minted txs ds
      → txs_data r max_sequence txs ≡ returns ds
  unfolding txs_data tx_data mint_data
  Minted-txs_data none_left = refl
  Minted-txs_data (after_range tx l m) =
      let b : ltb max_sequence tx.ledger_sequence ≡ true = ground (arith, l) in
      rw (b, Minted-txs_data m) refl
  Minted-txs_data (no_mint tx sttx l e t m) =
      let b : ltb max_sequence tx.ledger_sequence ≡ false = ground (arith, l) in
      rw (b, e, not_mint (get_txn_type sttx) t, Minted-txs_data m) refl
  Minted-txs_data (mint tx sttx meta links nft l e t f g m) =
      let b : ltb max_sequence tx.ledger_sequence ≡ false = ground (arith, l) in
      rw (b, e, ap is_mint t, f, g, Minted-txs_data m) refl

  -- What the loop takes from the transactions of a list are exactly the records of the mints.
  pub txs_data_iff :
      (txs : List TransactionAndMetadata) (ds : List NftsData)
      → (txs_data r max_sequence txs ≡ returns ds) ↔ Minted txs ds
  txs_data_iff txs ds = (txs_data-Minted txs ds, Minted-txs_data)
