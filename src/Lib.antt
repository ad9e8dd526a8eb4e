-- ===== src/Lib.antt =====
-- The backend of the VPP blockchain, a system that awards participation points for surveys: a
-- participant opens a claim link at the end of a survey, signs a message with a wallet, and the
-- backend sends the transaction that books the points on a contract.
--
-- The parts, and the files that model them (paths from the root of the repository):
--   NonceStore    packages/backend/src/services/nonce-store.ts, the redeemed claim links on disk.
--                 `mark_used`, `release_nonce`, `is_used`, `get_used_count`, `load` and `save` are
--                 the functions markUsed, releaseNonce, isUsed, getUsedCount, load and save.
--                 NonceStore/Replay composes several server processes over one file.
--   Hmac          packages/backend/src/services/hmac.ts, claim tokens.
--   Errors        the error values that the backend reads, with the classifiers of
--                 packages/backend/src/lib/rpcRetry.ts and packages/backend/src/lib/log-reader.ts.
--   RpcRetry      packages/backend/src/lib/rpcRetry.ts, the retries around each read of the chain.
--   LogReader     packages/backend/src/lib/log-reader.ts, the class AdaptiveLogReader: readOnce is
--                 `read_once`, read is `read`, recordSuccess is `record_success`.
--   Chain         packages/backend/src/services/blockchain.ts, fees, balance and transactions.
--   Claim         packages/backend/src/routes/claim.ts, the two routes of the claim flow.
--                 Claim/World runs any number of claims over the processes of NonceStore/Replay.
--   Server        the programs of the request handlers: trees of the calls that a handler makes.
--   Base          numbers, lists, texts, sets, results and integers.
--   SurveyKeys    packages/backend/src/services/survey-keys.ts, the HMAC keys of the surveys.
--   Routes        packages/backend/src/routes/surveys.ts, admin.ts and wallets.ts, the handlers
--                 after the middleware that checks the administrator. Routes/Sends and
--                 Routes/Awards follow their transactions, Routes/Keys the key of a registration.
--                 Errors/Responses is packages/backend/src/middleware/errorHandler.ts.
--   Sessions      packages/backend/src/services/admin-session.ts, the sign-in message, login
--                 nonces and session tokens.
--   Events        packages/backend/src/services/json-file-event-store.ts, the cache of the events of
--                 the chain. Events/Sync is the machine of its runs: `sync`, then one step for each
--                 await of runLocked, runSync and syncWindow. Events/Queries are its reads, and
--                 Events/Source the requests that its queries make of LogReader; Events/Fallback is
--                 what packages/backend/src/services/blockchain.ts reads while the store is cold.
--   Auth          packages/backend/src/middleware/auth.ts, requireAdmin and requireAdminAction up to
--                 the await of the role and from it on, over the two maps of the process; Auth/SignIn
--                 is packages/backend/src/routes/auth.ts.
--   Reads         packages/backend/src/services/survey-cache.ts,
--                 packages/backend/src/lib/pagination.ts and packages/backend/src/routes/points.ts,
--                 the lists that anyone may read.
--   FileLock      packages/backend/src/lib/file-lock.ts, the lock under which the nonce store and the
--                 key store read and write their files, one step for each system call on the
--                 path of the lock; a step takes the calls on a process's own grave with it.
--   Status        packages/backend/src/services/balance-monitor.ts,
--                 packages/backend/src/routes/status.ts and packages/backend/src/routes/health.ts,
--                 what operators see.
--   ClaimPage     packages/frontend/src/pages/claim.tsx, the page that a claim link opens. Its
--                 `claim_request` is what Claim receives.
--   Wallet        packages/frontend/src/lib/wallet.ts and packages/frontend/src/hooks/use-wallet.ts, the
--                 wallet in the browser.
--   Cutover       packages/contracts/scripts/finish-cutover.ts with the role functions of
--                 packages/contracts/contracts/SurveyPointsV2.sol, the handover of the contract.
--   AdminLabels   packages/backend/src/services/admin-labels.ts, the names of administrators;
--                 AdminLabels/Rows is the list and the label route of
--                 packages/backend/src/routes/admin.ts.
--   BrowserReads  packages/frontend/src/hooks/use-blockchain.ts, the reads of the contract that a page makes.
--   RpcUrls       which RPCs packages/backend/src/services/blockchain.ts asks.
--
-- How they interact: a route of Claim checks its token with Hmac, reads the survey through Chain,
-- whose calls go through RpcRetry, marks the nonce in NonceStore and sends with Chain. Each call
-- that leaves the handler is a node of its program; what it answers is up to the environment.
--
-- The event store asks LogReader for the windows of its runs, and Reads takes its lists from it. A
-- route for administrators runs after Auth, which takes sessions from Sessions.
--
-- State. The disks and caches of the nonce store and of the key store are explicit state; a process
-- runs its synchronous functions to the end, and processes take turns. The log reader's
-- fields are a record; `read_once` is one request, and LogReader/Parallel runs any number at the same
-- time, one step for each answer. A set of strings is a list without repetition, a text the
-- list of its codes. Points are in hundredths.
--
-- Fuel. Only the loop of `read` runs on fuel: `enough_fuel` is the number of blocks times one more
-- than the largest span, plus the span, plus one, since each round passes a block or shrinks the
-- span. A run of a script of Cutover counts its transactions, as it may be stopped before any of
-- them. Everything else is structural.
--
-- The event store is a system of its fields and its runs. Its inputs may come in any order, each with
-- the time, the span of the log reader and whether the disk can be written. With a deployment block of
-- 0, the default of the configuration, a last synced block of 0 does not tell whether block 0 was read;
-- what is said of the mirror of the chain takes a deployment block above 0.
--
-- Parameters: Node's HMAC and base64url (`Primitives`, with the laws in `Documented`), ethers
-- (`Ethers`, `get_address`), the RPC providers (`Network`, and the answers of calls), host names of
-- URLs (`hostname`), `Number` of a text that is not a run of digits, what MetaMask hands over, the clock and the random numbers (answers of calls).
--
-- The nonce store and the key store run their critical sections as one step; FileLock is the lock that
-- they hold meanwhile.
--
-- Not modelled: the pages of the React frontend but the claim page, the Solidity contracts but for their
-- roles, the deployment scripts, logging, rate limits, HTTP headers, the files that are only rendered,
-- and the file-system calls below the stores.
pub mod Base
pub mod NonceStore
pub mod SurveyKeys
pub mod Errors
pub mod LogReader
pub mod Server
pub mod RpcRetry
pub mod Chain
pub mod Hmac
pub mod Claim
pub mod Routes
pub mod Sessions
pub mod Events
pub mod FileLock
pub mod Wallet
pub mod ClaimPage
pub mod Cutover
pub mod Status
pub mod AdminLabels
pub mod BrowserReads
pub mod RpcUrls
pub mod Auth
pub mod Reads
