-- ===== src/Lib.antt =====
-- A model of the migration of NFT data in clio_migrator, with the parts of clio that it stands on.
--
-- The migrator (src/main/main.cpp) reads the tables of a Cassandra database page after page. Its
-- first step reads the transactions in nf_token_transactions and takes the tokens that mints
-- have made (src/etl/NFTHelpers.cpp); its second step walks over the initial ledger and takes the
-- tokens in its NFTokenPage objects; both write records in batches. A third step drops an old
-- table. The verifier (src/main/verify.cpp) walks over the last ledger and compares the URI of each
-- token with the one that was written. Reads that time out are tried again.
--
-- Files and the code they model:
--   Types          src/backend/Types.h: blobs, ledger objects, pages, the ledger range
--   Outcome        what a call comes back with: a value or one of the exceptions
--   Ripple         the ripple library, a parameter: objects and the accessors that the code uses,
--                  and std::sort where a comparison leaves the order open
--   Nft            src/etl/NFTHelpers.cpp: Mint, Burn, AcceptOffer and Offers for the types of
--                  transaction, FromTx and FromObj for getNFTDataFromTx and getNFTDataFromObj;
--                  Data for the records of src/backend/DBHelpers.h; Algorithms for std::sort,
--                  std::unique and std::set_difference; Lists, Mint.Gathers, Burn.Owner and
--                  AcceptOffer.Owner describe without the code what the pages tell
--   Cache          src/backend/SimpleCache.h and SimpleCache.cpp: each method is one step;
--                  Sorted is std::map as a sorted list, Background the loading of an older ledger
--                  while newer ones are applied
--   Database       the Cassandra server, a parameter: the answer to each prepared statement at each
--                  time; World is the state of a run, its log holds what was written
--   Backend        src/backend/BackendInterface.cpp and CassandraBackend.cpp: Reads for the reads
--                  through the cache and from the tables, Page for fetchLedgerPage, Writes for
--                  writeNFTs, LedgerWrites for the rows of a ledger, WriteQueue for the
--                  asynchronous writes with their retries and throttle, Paging for the
--                  transactions of an account or a token, Commit for finishWrites and the table
--                  ledger_range, OnlineDelete for doOnlineDelete; Ledger says what it is that the
--                  database holds a ledger, Serves what a computation returns
--   Etl            src/etl/ETLHelpers.h: the queue, the ledgers validated by the network, and the
--                  markers. NextLedger for what buildNextLedger and insertTransactions of
--                  src/etl/ReportingETL.cpp write: Rows holds the rows of the table successor,
--                  Objects, Neighbors and Entries the objects, the neighbours and the bases of books
--                  in rippled's answer, Changes and Exact what the loops leave, Transactions the
--                  records of tokens. Pipeline for the threads of runETLPipeline: Slots and Rounds say
--                  what the queues hold, Order and Joins how the pipeline runs and how it ends
--   Migrator       src/main/main.cpp: Retry for the doTry functions, Batch for doNFTWrite and
--                  maybeDoNFTWrite, StepOne, StepTwo and Migration for the steps; Log, Fetches
--                  and Returns hold what the proofs say of a run's log, its reads and its end;
--                  StepOne.Minted says which records are those of mints
--   Verifier       src/main/verify.cpp
--   DosGuard       BasicDOSGuard of src/webserver/DOSGuard.h
--   Rpc            Counters for src/rpc/Counters.h and src/rpc/Counters.cpp, WorkQueue for
--                  src/rpc/WorkQueue.h and src/rpc/WorkQueue.cpp
--
-- An operation that changes state takes it and gives the new one; code that reads the database is
-- a function of the world. Hashes, keys, accounts and IP addresses are numbers, blobs lists of
-- bytes. Counters wrap at their 32 or 64 bits.
--
-- Loops over pages and the loop that waits for the ledger range run on fuel, which a run that has
-- too little of it reports by an exception of its own. For the first step one round for each page
-- is enough; for the second one and for online deletion, a few more than the ledger has keys; for
-- the retries of an update of ledger_range, two rounds more than there are errors; for the pages
-- of transactions, one more than there are rows. The other loops are structural.
--
-- The threads that write, or use a queue, interleave as steps of a relation: a wait on a condition
-- variable is a guard of a step.
--
-- Not modelled: the driver of Cassandra and the ripple library, which are parameters; in the steps of
-- the migration an asynchronous write is an entry of the log, its retries are those of WriteQueue;
-- `main`, the configuration and logging; the server parts of clio (RPC handlers, ETL, subscriptions,
-- web server), which the migration does not run, except for the guard, the counters, the queue of
-- jobs, the helpers of the ETL, its pipeline and the building of a ledger. There the answer of
-- rippled is a record with the fields that the code reads (its class is generated), its header is
-- given as decoded, std::sort is a parameter where its comparison is not an order, and the commit
-- at the end is that of Backend.Commit.
pub mod Prelude
pub mod Types
pub mod Outcome
pub mod Ripple
pub mod Cache
pub mod Nft
pub mod Database
pub mod Backend
pub mod Migrator
pub mod Verifier
pub mod DosGuard
pub mod Etl
pub mod Rpc
