-- ===== src/Lib.antt =====
-- Verification of the self-made MPC wallet: a 2-of-3 threshold wallet on Sepolia, whose shares lie
-- with the browser (party A), the API server (party B) and a recovery server (party C).
--
-- Parts and files
--   NormalAb           apps/api/src/wallet/normal-ab-withdraw.ts: the normal (A+B) withdrawal that a
--                      wallet has in flight, and its settlement by one receipt lookup
--                      (settleOpenNormalAbOrThrow is settle_open_normal_ab_or_throw). Its proofs:
--                      NormalAb/Settled and, for what is written to a row, NormalAb/Outcomes.
--   OtpFailureTracker  apps/api/src/wallet/otp-failure-tracker.ts: failures and lockouts by user.
--   EmergencyRecovery  apps/api/src/wallet/emergency-recovery.service.ts: the gate of one-time
--                      passwords, and the moves ACTIVE, RECOVERY_PENDING, ACTIVE. It settles the
--                      normal withdrawal in flight before a wallet enters recovery.
--   Lifecycle          apps/api/src/wallet/wallet-lifecycle.ts.
--   EthTransfer        apps/api/src/mpc/eth-transfer.ts: the unsigned transactions of a withdrawal.
--   TxData, Texts      normalizeTxData of the same file; trim, capitals and decimal digits.
--   MpcCrypto          packages/mpc-crypto/src/: routing.ts (Routing) and ethereum.ts (Ethereum).
--   SignSession        the session record of apps/api/src/mpc/sign-orchestrator.service.ts.
--   SignOrchestrator   the sessions of that service, its rounds and its abort; its complete is in
--                      SignOrchestrator/Complete, with the signing itself in SignOrchestrator/Sign;
--                      its start in SignOrchestrator/Start (the request, the transaction) and
--                      SignOrchestrator/Begin (the whole), with the reuse of an idempotency key in
--                      SignOrchestrator/Reuse. The ids that a start makes are arguments.
--   EmergencyBc        apps/api/src/wallet/emergency-bc-withdraw.ts: the emergency (B+C) withdrawals
--                      in flight and their settlement; EmergencyBc/Settled, Closing and Outcomes
--                      have proofs.
--   Assets             the assets of apps/api/src/mpc/eth-transfer.ts.
--   RecoveryServer     apps/recovery/src/: the state of the Recovery Server, its shares
--                      (RecoveryServer/Shares), party C's signing (RecoveryServer/Sign) and key
--                      generation (RecoveryServer/Dkg). RecoveryServer/History has the history of
--                      its calls; Retired is about its shares, SignedDigest about what it signs.
--   RecoveryClient     apps/api/src/mpc/recovery-client.service.ts: the calls of it over a network
--                      that may lose a call or an answer.
--   DkgOrchestrator    apps/api/src/mpc/dkg-orchestrator.service.ts: party B's side of the key
--                      generation; its start, rounds and complete are in DkgOrchestrator/Rounds, the
--                      other files of the folder have proofs. The ids that it makes are arguments.
--   BcSignRelay        apps/api/src/mpc/bc-sign-relay.ts: party B's side of an emergency signature.
--   LastWithdraw       apps/api/src/wallet/emergency-last-withdraw.service.ts, on both servers
--                      (World): signPersistBroadcastWait in LastWithdraw/Sweep, the two assets in
--                      LastWithdraw/Assets, executeLastWithdraw in LastWithdraw/Execute; the other
--                      files of the folder have proofs.
--   SignWasm           what that service calls and the repository does not hold (SignEnv; for
--                      start, StartEnv).
--   MainDb             apps/api/prisma/schema.prisma: the tables as lists of rows, and the queries
--                      (MainDb/Rewrites compares a table before and after a call, row by row). The
--                      unique index of apps/api/prisma/migrations/ on wallets that are not retired
--                      stands with the one creation of a wallet, in DkgOrchestrator/Rounds.
--   Server             the state that the handlers share: the database and the maps in memory.
--   Prelude, Errors, Exec, Chained, Json, Chain: shared tests, lists and maps, exceptions, actions
--                      (Exec/Post has the rules to reason about them), JSON values, receipts.
--   Tests              the theorems at concrete inputs.
--
-- Conventions
--   A handler is a function from the state to a result and the state after it; an exception keeps
--   what was written before it, and a database transaction gives the database back. One handler is
--   one step: what other requests do while it waits for the database or the node is not modelled,
--   and one reading of the clock serves a call. Messages for people are left out of exceptions,
--   their class and code kept. Wei amounts, which the source keeps as bigint or as decimal text,
--   are natural numbers; a subtraction is made where the code has compared first. Loops are
--   structural recursion on lists; only the printing of decimal digits has fuel, one more than the
--   number, and print_decimal-to_decimal shows that any more gives the same text.
--   What other libraries do is a parameter: the node and ethers (Provider, GetReceipt,
--   RecoverAddress), the threshold protocol (SignWasm), Base64 with its round trip,
--   TotpService.verify, the ciphers of the shares, the network between the two servers (how each
--   call with its body is delivered). A raw transaction counts as broadcast once it is handed to the node.
--
-- Not modelled: the ciphers of the shares, the validation
-- of request bodies by the framework, authentication, the wallet views, the flows of the browser, the user interface, and the wiring of the framework.
pub mod Prelude
pub mod Errors
pub mod Exec
pub mod Json
pub mod MainDb
pub mod Lifecycle
pub mod Chain
pub mod NormalAb
pub mod MpcCrypto
pub mod OtpFailureTracker
pub mod SignSession
pub mod Server
pub mod RecoveryServer
pub mod RecoveryClient
pub mod BcSignRelay
pub mod LastWithdraw
pub mod DkgOrchestrator
pub mod TxData
pub mod Texts
pub mod Chained
pub mod EthTransfer
pub mod Assets
pub mod EmergencyBc
pub mod SignWasm
pub mod EmergencyRecovery
pub mod SignOrchestrator
mod Tests
