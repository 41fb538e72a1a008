-- ===== src/Lib.antt =====
-- ARCHE, a proof-of-work coin with a layer of AI jobs that are paid in it, written in Python.
--
-- A node (node/node.py) keeps a chain (node/chain.py) and a pool of transactions. The chain takes
-- blocks (node/block.py, node/pow.py), checks their transactions (node/tx.py) against the set of
-- unspent outputs, commits them to a store (node/storage.py) in one batch, and switches to a branch
-- with more work. Blocks that come before their parent wait in the node. Peers (node/p2p.py) deliver
-- the messages, and a wallet (wallet/wallet.py) derives keys from a mnemonic. The constants are those
-- of coin_params.py. Above it, ai/job.py and ai/payment.py follow the jobs and the escrows that pay
-- for them, ai/contracts.py runs contracts on the results of jobs, ai/verification.py compares the
-- results and settles challenges, ai/worker.py and ai/reputation.py keep the workers and their
-- scores, ai/registry.py the models and agents/registry.py the agents, and ai/marketplace.py finds
-- the worker for a job; they hold transaction ids and do not touch the chain.
--
-- Files and code:
--   Params          coin_params.py: the constants and block_subsidy
--   Target          node/block.py, node/pow.py, node/chain.py: difficulty_to_bits, _target_to_bits,
--                   bits_to_target, calculate_next_bits, _block_work
--   Encoding        bytes.fromhex, bytes.hex, str of an integer, json.dumps of a text: what the
--                   sources use of them
--   Tx              node/tx.py: Transaction, UTXOSet; Tx/Validate is validate_transaction and
--                   Tx/Create is create_signed_tx
--   Block           node/block.py: Block, merkle_root; Block/Search is mine_block of node/pow.py
--   Chain           node/chain.py: the store, its batch and _commit; Chain/Validate is
--                   validate_block with its helpers, Chain/Reorg is add_block, _try_reorg,
--                   _rollback_to and _flush_utxo, Chain/Restart is _load_state
--                   and Chain/Rebuild _rebuild_utxo
--   Node            node/node.py: _handle_tx, and the parts of mine that choose the transactions
--                   and make the coinbase; Node/Blocks is _dispatch, _handle_block,
--                   _process_orphans and _serve_blocks, Node/Mine is the rest of mine,
--                   Node/Api is POST /tx
--   Peers           node/p2p.py: _RateLimiter; Peers/Session is PeerServer, Peers/Outbound is _Conn
--                   and PeerClient
--   Storage         node/storage.py: WriteBatch and JSONStore
--   Wallet          wallet/wallet.py: key derivation; Wallet/Mnemonic is generate_mnemonic and
--                   validate_mnemonic, Wallet/Base58 is Base58Check
--   Manager         what the managers of ai/ share: a store by id, and calls that read an entry,
--                   check it, and write it back or raise
--   Job             ai/job.py: AIJob and JobManager
--   Escrow          ai/payment.py: EscrowRecord and PaymentManager
--   Contract        ai/contracts.py: conditions and contracts; Contract/Engine is ContractEngine
--   Verification    ai/verification.py: hashes and proofs; Verification/Vote is RedundantVerifier,
--                   Verification/Challenge is ChallengeVerifier
--   Reputation      ai/reputation.py: the records; Reputation/Events is record_event and apply_decay
--   Worker          ai/worker.py: WorkerManager; Worker/Search is find_suitable_workers
--   Model           ai/registry.py: ModelRegistry
--   Market          ai/marketplace.py: get_quotes and submit_job
--   Agent           agents/registry.py: AIAgent and AgentRegistry
--   Prelude, Int, Dict, Float   tests on numbers, lists, integers, Python's dict and float
-- The other files hold proofs, and each Examples file runs the properties at concrete inputs.
--
-- Conventions:
--   * Code that raises returns `none`. What a call changed before it raised is not modelled on the
--     chain; the managers of ai/ return the store beside the result, since some of their calls write
--     before they raise. No action of a contract raises.
--   * Amounts, prices and times that come from messages are integers. Heights, indexes, sizes and
--     block timestamps are natural numbers: a negative one is not modelled. A message has all the
--     keys that the code reads by default.
--   * Floats are an interface, `Float`: the operations and comparisons the code uses, with the laws
--     of an order (`IsOrdered`) as a hypothesis, which finite doubles satisfy while nothing
--     overflows. Float/Twentieths is an instance. In Contract the numbers of the results are
--     integers; their conversion to floats, which can overflow, and the comparisons are an argument.
--   * Fields that no modelled code reads are left out of the records.
--   * The clock, the fresh ids of uuid4, random bytes, the size of a block's JSON text, str.lower,
--     SHA-256, RIPEMD-160, HMAC and the signatures of coincurve are arguments.
--   * The keys of the store have disjoint prefixes, so the chain's store is one dict for each prefix.
--     The files that the stores write are fields, and every write of them succeeds. At startup the
--     keys of the outputs are read back as texts; what json makes of an output is an argument.
--   * The rate limiter is one object of the module node/p2p.py; here it is a field of the server.
--   * Python's integers are unbounded; the 32-bit header fields are checked as struct.pack does.
--   * The decimal digits of n, its digits in base 58 and its length in bytes are found on fuel
--     n + 1, one more than they need. The loop of merkle_root runs on as much fuel as it has leaves;
--     a layer of more than one node shrinks. The calls of _process_orphans run on one more than
--     there are waiting blocks; each removes one. mine_block runs for the passes before its interrupt.
--
-- Not modelled: threads and locks, sockets and the framing of messages, the HTTP services
-- but for POST /tx, files and LevelDB, verify_logits, the listings and statistics of the marketplace
-- and the leaderboard, the saved wallet file, the explorer, the scripts, audit.py, and the
-- experimental modules.
pub mod Agent
pub mod Block
pub mod Chain
pub mod Contract
pub mod Dict
pub mod Encoding
pub mod Escrow
pub mod Float
pub mod Int
pub mod Job
pub mod Manager
pub mod Market
pub mod Model
pub mod Node
pub mod Params
pub mod Peers
pub mod Prelude
pub mod Reputation
pub mod Storage
pub mod Target
pub mod Tx
pub mod Verification
pub mod Wallet
pub mod Worker
