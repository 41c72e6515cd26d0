-- ===== src/Nft.antt =====
-- The NFT data that transactions and ledger objects carry (src/etl/NFTHelpers.cpp).
pub mod Data
pub mod Lists
pub mod Algorithms
pub mod Mint
pub mod Burn
pub mod AcceptOffer
pub mod Offers
pub mod FromTx
pub mod FromObj
pub mod Sample
mod Tests
