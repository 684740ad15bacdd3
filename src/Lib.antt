-- ===== src/Lib.antt =====
-- The explorer of the Qwertycoin block chain, in C++.
--
-- The explorer reads the chain through the node's library, asks the daemon over RPC for what the
-- library does not give, renders pages and JSON, and passes wallet requests on to the daemon. This
-- library models the parts that decide what is true of the numbers and of the remote answers that
-- are shown, and what is passed on:
--
-- Supply: src/supply_math.h (the records, append_supply_record, rollback_supply_records) and
-- src/SupplyIndex.cpp. Supply/Node has read_record, Supply/Index the class with persist,
-- update_once and publish, Supply/Index/Run its load, start, stop and run, Supply/Checkpoint the
-- text of the state file with Supply/Text for its fields. A vector of records is a list with its
-- back first. The node may change between any two calls, so a round is given a sequence of views
-- and each call looks at the next one. The disk's answers and the clock are given for each round.
-- Reward: src/epose_reward_view.h, make_epose_reward_view and its tests.
-- Address and Telemetry: src/epose_telemetry.h and src/epose_telemetry.cpp. Address has the host
-- names and addresses that may be contacted, Telemetry what follows, from the choice of one to
-- what is made of an answer. boost::asio and the HTTP client are parameters.
-- Rpc: src/rpccalls.h and src/rpccalls.cpp, the retry loop and the calls over it. What a
-- connection attempt and an invocation do is given for each attempt.
-- Emission: the totals of src/CurrentBlockchainStatus.cpp, in wrapping 64-bit arithmetic, and in
-- Emission/File the file that they are saved to and the rounds of the thread.
-- Pagination: src/pagination.h. Amount: src/exact_amount.h and src/hashrate.h.
-- Transaction: the sums and counts of src/tools.cpp and src/transaction_amounts.h. Time: its
-- timestamp_difference. Endpoint: src/epose_endpoint_view.h and src/epose_snapshot.h.
-- Gateway: src/wallet_rpc_policy.h and the wallet_rpc_handler of main.cpp over Rpc's
-- proxy_wallet_request. Gateway/Inflight has its counter under requests that interleave.
-- Mempool: src/MempoolStatus.h and src/MempoolStatus.cpp, over the calls of Rpc. Mempool has
-- read_mempool and the snapshots, Mempool/Network read_network_info, and Mempool/Loop the rounds of
-- the thread that calls them.
-- Api: the JSON of src/page.h over src/MicroCore.cpp. Api has the reading of the chain, find_tx and
-- get_tx_details, Api/Block json_block and json_rawblock, Api/Search json_transaction and
-- json_search, Api/Listing json_transactions (with Pagination) and json_mempool (with Mempool),
-- Api/Outputs json_outputsblocks and Api/Outputs/Single json_outputs. Each query of the chain looks
-- at the next of a sequence of views, so that a block may come or go between two queries. Api/Laws
-- is about that reading.
-- Snapshot: json_epose_snapshot of src/page.h with its three caches, over the anchors of Endpoint
-- and the checks of Telemetry. Snapshot/Views has what is shown of a node, Snapshot/Nodes the nodes
-- and the telemetry jobs, with the answers of the jobs given.
-- Observer: the pages of src/page.h about the observer itself, json_networkinfo, json_emission,
-- json_feeestimate and json_version, over Mempool, Supply, Amount and Rpc. Observer/Overview is
-- json_overview with its cache, Observer/Identity json_identity over Snapshot, and the /readyz route
-- of main.cpp. What other threads write is given for each moment, beside the views of the node.
-- Index: index2 of src/page.h, the front page and the lists of blocks, with Supply, Mempool and
-- Pagination, up to the rendering of its template. Index has its loop, which Index/Rows is
-- about, and Index/Page the whole page.
-- PostData: url_decode and parse_crow_post_data of src/tools.cpp, remove_bad_chars of src/tools.h,
-- and the /search and /checkandpush routes of main.cpp, up to the page that they call.
-- Base and Decimal are shared: lists, texts as bytes, machine words, and numbers as decimal text,
-- as the C++ library prints and reads them. Examples has concrete inputs.
--
-- A uint64_t and a uint128_t are natural numbers, and sums and products that may wrap are written
-- with their modulus. The loops are structural, or on a number of rounds that the caller gives:
-- extend_to has as many as there are records to read, the retry loop one or two, the search for a
-- unit six, the loop over blocks one for each block below its end, and the printing of n has n. A
-- page of json_transactions has as many rounds as its range has blocks, json_outputsblocks six, one
-- more than the blocks that it accepts, and json_epose_snapshot makes two attempts.
--
-- Not modelled: the HTML pages but for index2, its network panel, the templates, the pages
-- json_rawtransaction and json_detailedtransaction, the routes that only call a page and the options
-- (main.cpp, src/CmdLineOptions.cpp), the rest of src/MicroCore.cpp, the key derivations and the
-- other text helpers of src/tools.cpp, the texts that are made of floating point numbers, the
-- payment ids, what a failed response carries besides its message, and the vendored libraries. They
-- need code that is not in the repository, are input and
-- output alone, or are left for later.
pub mod Base
pub mod Decimal
pub mod Pagination
pub mod Amount
pub mod Address
pub mod Telemetry
pub mod Transaction
pub mod Supply
pub mod Reward
pub mod Rpc
pub mod Emission
pub mod Time
pub mod Endpoint
pub mod Gateway
pub mod Mempool
pub mod Api
pub mod Snapshot
pub mod Observer
pub mod PostData
pub mod Index
pub mod Examples
