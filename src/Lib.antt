-- ===== src/Lib.antt =====
-- Vadum: offline stablecoin payments on Solana. A merchant shows an intent as a QR code, the payer
-- signs the canonical transaction offline and shows the answer back, and the merchant submits it later.
--
-- Base.*: the shared helpers. Lists over the native ℕ, Boolean tests, ℤ (a JavaScript bigint),
--   Number (a JavaScript number: an integer, a fraction between two, NaN or an infinity) and Text
--   (a JavaScript string as its code units).
-- Core.Errors, Core.Types: packages/core/src/errors.ts and types.ts. A call that throws is an `err` of
--   Result; a `vadum_error` carries its code, and `foreign` is an error of a called library. The
--   detail object of a VadumError, which only its message shows, is not modelled.
-- Core.Kit: what @solana/kit and WebCrypto offer to the program, as parameters: the address and base58
--   codecs (Kit, with KitLaws for their documented behaviour), address derivation (Derivation), Ed25519
--   (Crypto). Core.RawKit is one codec that satisfies the laws, for the examples.
-- Core.Derive, Core.NonceReturn: packages/core/src/derive.ts, bytes.ts and nonce-return.ts.
-- Core.Mint: the mint compatibility of packages/core/src/validate.ts, `evaluateMint`. Json has the
--   `unknown` values it inspects; the cases of its `switch` are the constructors of ExtensionKind.
-- Core.Canonical: Message is packages/core/src/canonical.ts and nonce-provider.ts, Difference the
--   instruction whitelist of validate.ts, Sign and Wire are sign.ts. kit's message
--   compiler and decoder are parameters (Compiler, Decoder); an instruction is what its builder is given.
-- Client.MintCache: packages/client/src/mint.ts; what the network answers is an argument of a refresh.
-- Wire.Base45: packages/wire/src/base45.ts. `to_base45` is toBase45 and `from_base45` is fromBase45.
-- Wire.Codec: packages/wire/src/codec.ts. Flags has the flags and the length table, Header the checks of
--   a header in the order of the source, Payloads the encoder and decoder of each payload type. A
--   Uint8Array is a list of bytes; writing past its end is `err foreign` (a RangeError).
-- Client.Rpc: the five members of VadumRpc in packages/client/src/rpc.ts that the pool and the pre-check
--   use, as a parameter; within one call a member answers alike at each request.
-- Client.Network: its implementation, `createRpc`. Retry has `withRetry` (structural on the attempts
--   that are left), Confirm `broadcastAndPoll` and `sendPayment` (the polling loop is on fuel: 90
--   seconds in steps of two need 46 tests), Project `projectMint`, Requests the reads. What the node
--   answers is a function of the attempt, the clock one of the turn of the loop. Each request to the
--   node answers or fails; a confirmer of kit may never settle (`none`).
-- Client.Pool: packages/client/src/pool.ts, `createPool`. State has the ledger and the functions on it,
--   Memory the variable `current` and the stored ledger with the monad that carries them, Offline the
--   operations without a network, Chain the loops over slots that read the chain, Online the operations
--   that use them. Times are ℕ (milliseconds). Every operation is one transition from the memory
--   before to the memory after, whatever it answers; a write to the store may fail.
-- Client.NonceCheck: packages/client/src/nonce-check.ts, with the kinds of a verdict as constructors.
-- Client.Submit: packages/client/src/submit.ts. What the network answers and what an error prints are
--   parameters (Sender); the detail text of an outcome is left out.
-- Wire.Render: packages/wire/src/qr-encode.ts. The encoder of QR codes is a parameter.
-- Wire.Scan: packages/wire/src/qr-scan.ts. The state is the fields of `CameraScanner`; the loop of
--   `next` has no bound in the code and is on fuel, one step for each frame, with what the camera,
--   the detector and the image decoder answer in each turn as a function of the turn.
-- Client.Store: packages/client/src/store.ts. Shared.Limits, Shared.Format and Shared.Copy:
-- limits.ts, format.ts and errors.ts of apps/shared/src (the copy of a failure is its text, with
-- the code units of the literals).
-- Client.Queue: packages/client/src/queue.ts. State has the map of payments in its insertion order and
--   the sums over it, Accept the operations `accept` and `expire`, Drain `drain`, Load `load` and the
--   start of a queue over a store. What the queue uses of its runtime (SHA-256, number printing,
--   `localeCompare`) is a parameter. A drain is given, for each turn of its loop, what the network
--   answers, which writes succeed and which calls of `accept`, `expire` and `load` run at its awaits,
--   each to its end. Two drains at once are not modelled, nor are the awaits inside those calls.
-- Reference: packages/fixtures, the implementation that the committed test vectors come from. Wire and
--   Check are its wire.ts, Statement its nonce-return.ts, Base45 its base45.ts; a Reject of `check` is an
--   `err` with its code.
--
-- Loops are structural recursion, the polling of Client.Network and the frames of Wire.Scan apart:
-- `recover` and `create` count down the number of indices that are left, so that no fuel is chosen.
--
-- Not modelled: the apps and their user interface, the generator of the test vectors and scripts.
-- Calls of the pool that interleave at an await are not modelled: each call runs to its end before
-- the next one starts.

pub mod Base
pub mod Client
pub mod Core
pub mod Reference
pub mod Shared
pub mod Wire
