-- ===== src/Lib.antt =====
-- Konduit: payment channels between a consumer and an adaptor, held by a script on the Cardano chain.
--
-- The consumer pays by cheques. A cheque is locked under a hash, and the secret unlocks it. From time to
-- time the consumer squashes the cheques that are done into one signed body, which holds their total,
-- the greatest index, and the indexes below it that are not in it yet. The adaptor runs a server that keeps
-- the receipt of each channel (the last squash and the cheques after it) and the retainer (what stands on
-- chain). To be paid, the adaptor takes a step on chain with the receipt; the consumer adds, closes,
-- elapses or ends. A transaction library works out each step, and the script checks it.
-- A staged set of steps becomes one transaction, which is funded from the wallet of the one who builds it.
--
-- Files, and the code that they model:
--   Base         shared names, Boolean tests, lists, 64-bit words, results of fallible code; Maps is the
--                `BTreeMap` of the standard library, with Entries and Loops for its laws and for loops over it
--   Data         packages/konduit/data/src
--     Indexes      indexes.rs: the excluded indexes; Search, Range and Superset prove what they do
--     SquashBody   squash_body.rs: the body of a squash; Squashing, Risk and Creation
--     Duration, Cheque, Signed, Wire, Stage, Datum, Redeemer
--                  duration.rs; lock.rs, secret.rs, cheque_body.rs, cheque_signed.rs, locked.rs,
--                  unlocked.rs, cheque.rs; squash.rs and the functions try_verify; cbor_with and what
--                  is signed; used.rs, pending.rs, unpend.rs, stage.rs, constants.rs; datum.rs; the
--                  types of redeemer.rs
--     Encode, Decode
--                  the `cbor::Encode` and `cbor::Decode` of these types; Decode.Redeemer has those of
--                  squashes, cheques, steps and redeemers, Decode.Validity what they let through
--     Fits, RoundTrip
--                  what the Rust types hold; encoders and decoders together
--     Primitives   SHA-256, ed25519 and the CBOR writer of other packages, as parameters
--     Cbor         the reader of minicbor, as parameters (Reader), and what minicbor documents of the
--                  reader and the writer together (IsCbor); RoundTrip.Plain is a small format with
--                  these laws
--   Sdk          packages/cardano/sdk/src: Value (cardano/value.rs), the sums of lovelace and assets
--   Receipt      packages/konduit/tmp/src/receipt.rs: Secrets, Order, Replace, Amounts and Proposal prove
--                what its operations do, Prep has what it prepares for a step
--   Server       packages/konduit/server/src: Channel (channel.rs), with Verified, Funds and Retention; Db
--                (db.rs), the table of channels; Data (server/data.rs), what is checked before an
--                invoice is paid; Quote (server/data.rs), the quote before it, with Paid and Free; Admin
--                (admin/coiter.rs, admin/service.rs), the retainers that are taken over from the chain, with
--                Merged, Synced, Grouped, Offered, Latest and Retained, and the secrets that are taken to the
--                channels, Unlocks
--   Tx1          packages/konduit/tx/src: Variables (variables.rs, bounds.rs, step_to.rs, step_error.rs) and
--                Channel (channel.rs, stepped.rs), the first version of the steps; Agrees and Refused hold
--                it against Tx2 and against the script
--   Tx2          packages/konduit/tx2/src: Interval (interval.rs), Step (step.rs, currency.rs), and
--                channel.rs as Channel (what is prepared, add and sub), Closing, Pendings and Resolve
--     Fuel         fuel.rs: the outputs of the wallet that pay for the rest
--     Staged       staged_tx.rs: the steps on several channels in one transaction; Intents, Shape and
--                  Funding
--     Kernel       packages/kernel/lib/konduit/steps: the conditions of the script, as an independent
--                  description that the steps of Tx2 are held against; Evidence has what the script
--                  asks of cheques and of the order of their indexes, Sub and Respond its folds over the
--                  history and the cheques
--   Util         packages/util: Powdos (powdos/src), a proof of work, with Bits, Solving and Binding; Cobbl3
--                (cobbl3/src), session tokens, with Sessions
--
-- How the code is translated:
--   * An operation on `&mut self` takes the state and gives the new one. An error gives no state: each
--     caller throws the changed value away. The loops of the admin service, which write to the table as they
--     go, give the table that they reach, with the error. In Tx1 an error carries the channel, as in the source.
--   * The sums of u64 wrap at 2 ^ 64, as a release build does them (Cargo.toml sets no overflow checks);
--     usize has 64 bits. A theorem that reads a sum as a plain sum has the bound as a hypothesis.
--   * A duration is its count of nanoseconds; `Duration.add` panics where `time::Duration` does.
--   * The markers Verified and Unverified hold no data: what they stand for is the predicate `IsSigned`.
--   * `binary_search`, `sort_by_key`, `max_by_key` and the `BTreeMap` of `want_unlock` are functions on lists with
--     the results that the standard library documents.
--   * A `BTreeMap` is the list of its entries in the order of the keys, and a `BTreeSet` the list of its
--     elements. An `Input` is a byte string, so that inputs are ordered as such.
--   * The integers of the script have no bound: a difference stands on the other side of its equation. What it
--     serialises to check a signature is taken to be what Data.Wire writes.
--   * The rates of the server are floating-point numbers: the conversions to and from millisatoshi are parameters,
--     as is the answer of the Lightning node. The clock is an argument.
--   * An error of minicbor is one constructor for each message that the decoders give.
--   * The fuel of `write_chunks` of Data.Wire is the length of the bytes, of which each round takes at least
--     one; that of the loop of Data.RoundTrip.Plain is the length of what is left, of which each item takes
--     at least one byte; that of `select_loop` of Tx2.Fuel is one more than the number of outputs in the
--     wallet, of which each round takes one; that of `solve_from` of Util.Powdos is the number of nonces
--     that are tried.
--
-- Not modelled: the text forms of the data and its conversions to and from `PlutusData`; the transaction builder
-- of the SDK, its slots and addresses (a staged set of steps ends in the inputs, outputs, signers and
-- bounds that the builder is given); the transactions of the first version around its steps (the rest of
-- packages/konduit/tx); the entry point of the script, which reads the transaction and passes it to the steps;
-- the handlers of the server, its claims, and the failures of its storage but those that a sync of the retainers meets; the rest of the SDK, wallets,
-- connectors, clients and bindings; the exchange rates, HTTP client and problem details of packages/util.
pub mod Base
pub mod Data
pub mod Receipt
pub mod Sdk
pub mod Server
pub mod Tx1
pub mod Tx2
pub mod Util
