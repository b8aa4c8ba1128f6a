-- ===== src/Lib.antt =====
-- Verification of the Chancery client library and of the integration package.
--
-- Base58 (Letters, RoundTrip, Keys, Integration): typescript/src/Base58Codec.ts and
--   integration/typescript/src/base58.ts, `encodeBase58`, `decodeBase58`, `normalizePublicKey` and
--   the integration package's own decoder. A text is the list of its character codes.
-- Values: the values that the codec takes and gives (`unknown` in TypeScript), and the readings of
--   them at the top of typescript/src/BinaryCodec.ts.
-- Schema: the type schemas of typescript/src/ChancerySchema.ts.
-- Wire (Integers, Signed, Reading): the integers and `BinaryReader` of BinaryCodec.ts.
-- Records (StructLaws): `encodeStruct` and `decodeStruct`, over the codec of a field.
-- Codec (Laws, Primitives, Parts, Vectors, Present, RoundTrip, Inverse): `encodeType`, `decodeType`
--   and `zeroValueForType`.
-- Messages (Tables, Payload, Accounts, Events): typescript/src/ChanceryAccount.ts, and the data of
--   instructions (ChanceryInstruction.ts) and of events (ChanceryEvent.ts).
-- Settlement (Fees, Clean, Windows, Policies): typescript/src/client/ChanceryProtocol.ts, what a settlement
--   is quoted, the limits per window of time and the settlement policies.
-- Address (Search): typescript/src/ProgramAddress.ts, derived addresses and the Ed25519 test.
-- Tokens (Fees, Extensions): typescript/src/SplToken.ts, mints, accounts and Token-2022 extensions.
-- Transactions (Lookup, Message, Signing; Maps, Order, Aggregate, Payer,
--   Compiled):
--   typescript/src/SolanaTransaction.ts, from the accounts of the instructions to the bytes of a
--   message: `aggregateAccountMetas`, `orderStaticAccountMetas`, `placeAccountsInLookupTables`,
--   `compileMessageBytes`.
-- Squads (Message, Validate, Encode, Decode, Compile, Execute, Instructions; Reads, RoundTrip,
--   ShortVector, Parsed, Accepted, Standard): typescript/src/squads/SquadsCodec.ts, SquadsPda.ts,
--   SquadsInstruction.ts and SquadsVaultMessage.ts.
-- Client (Validation, Gates; AllIn, Cleared, Extensions): typescript/src/client/ChanceryClient.ts,
--   `computeSettlementEffectiveQuote` and the validations of an inspected settlement.
-- Execution (Lifecycle, Ordered, Reported): integration/typescript/src/settlement_execution.ts, the
--   stages of a prepared settlement over a port, whose effects are a state that its calls pass on.
-- Oracle (Rates): oracles/typescript/src/OracleSnapshot.ts.
-- Direct (Data, Accounts, Layout): integration/typescript/src/direct_settlement.ts and
--   market_maker_settlement.ts.
-- Common: Boolean tests, lists, results, integers and positional numbers (Radix).
-- Tests: runs at concrete inputs.
--
-- The codec calls the integers and the reader, a struct calls the codec of its fields, a message
-- calls a struct behind its discriminator; a settlement policy calls the derived addresses. A vault
-- message is parsed from the bytes of a compiled transaction message, the effective quote calls the
-- fee quote and the transfer fees, and a prepared settlement holds a direct instruction.
--
-- An error is the throw statement that is reached, without the text of its message. Functions that
-- a Uint8Array enters take a list of numbers, and a theorem that needs them below 256 says so.
-- Parameters: `atob`, the runtime's base64 decoder; `hash`, SHA-256; the UTF-8 encoder; the
-- generated schema; the program's address of a target; the execution port; the Ed25519
-- functions of node's `crypto`.
-- Types refer to one another by name, and a type that holds itself would exhaust the stack: the
-- codec recurs on the depth of names that it may follow, and the theorems hold at every depth. The
-- loop over a mint's extensions (Tokens.Extensions: Laid, Ended, Scan) runs on as many turns as the
-- data has bytes, and each turn takes at least 4 of them. A length below 2^53 takes at most 8 bytes
-- of 7 bits, so the loops of short vectors run on 8 turns. `modularPower` halves an exponent below
-- 2^256 at most 256 times. The other loops are structural.
-- The values of a policy's account are taken as numbers, of the types that the schema gives their
-- fields, in place of the record of `unknown` that the source reads them from.
--
-- The amounts that `computeFeeQuote` is given are natural numbers, since its caller passes what
-- `computeSettlementGrossOutput` returns, which refuses a negative amount.
--
-- A map with text keys is the list of its entries in insertion order, and a sort is the insertion
-- sort by the comparator.
--
-- Not modelled: keypair files, the asynchronous client, discovery, RPC and JSON input and
-- output, the command lines, and the packages in other languages.
pub mod Common
pub mod Base58
pub mod Values
pub mod Schema
pub mod Wire
pub mod Records
pub mod Codec
pub mod Execution
pub mod Transactions
pub mod Squads
pub mod Client
pub mod Direct
pub mod Oracle
pub mod Messages
pub mod Settlement
pub mod Address
pub mod Tokens
pub mod Tests
