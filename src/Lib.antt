-- ===== src/Lib.antt =====
-- TickerSix in antt: the on-chain program programs/tickersix, which runs rated battles of lineups of
-- tokenised equities; crates/protocol, the pure rules that the services share; and the settlement
-- planner of the backend.
--
-- The program. An administrator publishes versioned policies and a registry of assets. A coordinator
-- drafts a market round with its deadlines, adds the assets of the registry, and freezes it. While the
-- round is scheduled or open for commitments the coordinator creates rated battles of two players, who
-- commit to a hashed lineup of six assets and later reveal it. Three attestors report the prices of each
-- asset at the start and at the end; a quorum of the reports gives the price of each phase, or the phase
-- is unavailable. The returns of the assets give each side its score, and the scores the result; a
-- battle can also end by forfeit or be voided. A round counts its battles and their results, and is
-- finalised when all of them are resolved.
--
-- The services. crates/protocol computes off the chain what the program computes on it (returns, scores,
-- commitments, the quorum of the reports, the message that an attestor signs), reads the decimal prices
-- of the market data, and pairs the players of the ranked queue and of the rounds of a league. The
-- planner reads a snapshot of a round and lists the calls of the program that it needs next.
--
-- The files:
--   Base, Store: numbers, lists, bits, signed integers, and accounts by address.
--   Errors: programs/tickersix/src/error.rs, and `Result` with `require!`.
--   Runtime, Accounts: what the program takes from Anchor and Solana.
--   State, Constants, Math: state.rs, constants.rs and math.rs of programs/tickersix/src.
--   Round: instructions/round.rs, one file for each group of instructions (Binding, Draft, Universe,
--   AddAsset, Lifecycle); Order, Assets and Final hold the theorems.
--   Battle: instructions/battle.rs (Create, Lineup, Settle, Close); Invariant, Effects, Commitment and
--   Admission hold the theorems.
--   Price: instructions/price.rs (Quorum, Reports, Phase, Submit); Quorum/Best, Quorum/Bounds, Resolved
--   and Finalized hold the theorems, Supplied and Signed what the report accounts and the Ed25519
--   instructions hold.
--   League, Admin: instructions/league.rs and instructions/admin.rs; League/Capacity and Admin/Versions
--   hold the theorems.
--   Program: lib.rs. Ledger is the state, a list of accounts for each type; Dispatch runs a call on it;
--   Effect is an abstract machine of four steps, Steps maps every call to one, and Counts and Reachable
--   derive what holds after any sequence of calls.
--   Outcome: Rust's `Result` with an error type of its own.
--   Protocol: crates/protocol/src/lib.rs. Ranked and Swiss are the pairings, Decimal the prices, Scores
--   the returns, scores, commitments and medians, Quorum the reports, and Evidence the hashes and the
--   message of a report. Ranked/Greedy, Swiss/Results, Decimal/Exact and Scores/Median hold theorems of
--   their own; Scores/Agree, Quorum/Agree and Evidence/Signed compare the services with the program.
--   Backend: Settlement and Settlement/Snapshot are backend/src/settlement.rs; Checked, Called and
--   Progress hold the theorems.
--   Tests: sample accounts and runs.
--
-- How code corresponds to the model. An instruction is a function from the accounts and arguments of
-- the call to the accounts that it writes, or a failure: `handle_x` is the handler of the source, and
-- `x` puts the constraints of `#[derive(Accounts)]` before it. A failed instruction changes nothing. An
-- account struct is a record with the fields of the source, an enum a data type. Unsigned integers are
-- numbers, an `i64` is a signed integer, and a checked operation tests the range of its type. A public
-- key, a hash and an array of 32 bytes are numbers, read big-endian. A text is the list of its UTF-8
-- bytes. The services index into the players that they pair; an index beyond them, at which Rust panics,
-- reads a value that stands for no player.
--
-- Parameters. `Runtime` holds the program's address, the derivation of addresses from seeds, and the
-- hash, none of which has its code in the repository; the theorems hold for every choice of them. The
-- services take the hash as an argument in the same way. The Ed25519 program has checked the
-- instructions that precede a report in its transaction.
--
-- Bounds and fuel. The loops of the program go over the accounts of a call, the six assets of a lineup,
-- or the subsets of at most three reports, 2 ^ n of them. Two functions of the services count down a
-- number: the loop of `pair_ranked`, which removes two players in each round, and the recursion of
-- `search_pairing`, whose calls each have two players fewer. Both start from the number of the players,
-- which is enough to remove all of them two at a time.
--
-- Not modelled: the Pyth settlement path (instructions/pyth.rs and its entry points), rent and payers,
-- the sizes of accounts; the Elo updates of crates/protocol and backend/src/rating.rs, which compute with
-- floating-point numbers; reading the planner's snapshot from a file; the other services under backend,
-- which work on a database or over HTTP; crates/market-data and crates/relay, which fetch and encode
-- data; and the web app.
pub mod Base
pub mod Errors
pub mod Outcome
pub mod Runtime
pub mod State
pub mod Constants
pub mod Math
pub mod Accounts
pub mod Round
pub mod Battle
pub mod Price
pub mod League
pub mod Admin
pub mod Store
pub mod Program
pub mod Protocol
pub mod Backend
pub mod Tests
