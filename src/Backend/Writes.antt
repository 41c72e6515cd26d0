-- ===== src/Backend/Writes.antt =====
-- Writes of NFTs (CassandraBackend::writeNFTs of src/backend/CassandraBackend.cpp). An asynchronous
-- write is retried until it is done, and `sync` waits for all of them; what is modelled is the rows.
use clio_migrator.Prelude.{◌≡◌, refl, List, [], ◌∷◌, ◌++◌, append_assoc, Option, none, some}
use clio_migrator.Types.{Blob}
use clio_migrator.Ripple.{Ripple}
use clio_migrator.Nft.Data.{NftsData}
use clio_migrator.Database.{Event, insert_nft, insert_issuer_nft, insert_nft_uri, synced, M, emit}

module _ (r : Ripple) where
  open r use {get_issuer, get_taxon}

  -- The rows of a token whose URI is known: the link from its issuer, and the URI.
  unfoldable pub uri_rows : NftsData → Option Blob → List Event
  uri_rows d none = []
  uri_rows d (some uri) =
      insert_issuer_nft (get_issuer d.token_id) (get_taxon d.token_id) d.token_id
      ∷ insert_nft_uri d.token_id d.ledger_sequence uri
      ∷ []

  unfoldable pub nft_rows : NftsData → List Event
  unfolding uri_rows
  nft_rows d = insert_nft d.token_id d.ledger_sequence d.owner d.is_burned ∷ uri_rows d d.uri

  unfoldable pub rows : List NftsData → List Event
  rows [] = []
  rows (d ∷ ds) = nft_rows d ++ rows ds

  unfoldable pub write_nfts : List NftsData → M (Unit {0})
  unfolding rows
  write_nfts ds = emit (rows ds)

  pub rows-append : (ds es : List NftsData) → rows (ds ++ es) ≡ rows ds ++ rows es
  unfolding rows
  rows-append [] es = refl
  rows-append (d ∷ ds) es = rw (rows-append ds es, append_assoc)

abbrev pub sync : M (Unit {0})
sync = emit (synced ∷ [])
