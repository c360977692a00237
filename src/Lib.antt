-- ===== src/Lib.antt =====
-- A verification library of josuke, the tool that deploys, migrates and audits the facets of
-- delegating proxies.
--
-- Its parts and how they interact: `src/josuke/migration.py` writes the script that installs
-- delegates in a proxy's storage, and reads it back when a deployment is verified;
-- `src/josuke/delegate.py` keeps the registry of delegates that reading looks in;
-- `src/josuke/deploy.py` reuses what is deployed and computes the migration, `src/josuke/verify.py`
-- checks the ledger against the source and the chain, `src/josuke/accept.py` makes a proposed
-- deployment the current one and archives what it replaces, and `src/josuke/audit.py` scans the chain
-- for a proxy's logs and compares them with what the ledger records. `src/josuke/check.py` compares the
-- storage that facets and recorded deployments declare, and `src/josuke/ethjsonrpc.py` sends requests
-- to the node in batches.
--
-- Audit.antt and its children: `src/josuke/audit.py`.
--   Audit/Ranges: `_windows`. Audit/Narrow: `_narrow`. Audit/Merge: `_merged`.
--   Audit/Search: `find_deploy_block` and `_history_start`. Audit/Logs: `get_logs`, with a record of
--   its local variables as the state and one function per pass of its loops.
--   The node is a parameter: its answers, by round and by block. What the regular expressions find in
--   a message stands for the message.
-- Opcodes.antt: `push` of `src/josuke/opcodes.py` and the opcodes that the generated code uses.
--   Opcodes/Table: every opcode with its byte.
-- Migration.antt: `SetDelegate._block`, `Migration.encode` and `Migration.decode`, and the registry
--   `source_map`, which `Delegate.__init__` fills. A hexadecimal text stands for the bytes it spells.
-- Deployment.antt: the ledger's record of a deployment, and `existing_deployment`, `selector_owners`
--   and `current_selectors` of `src/josuke/deploy.py`. What a facet's source exposes is a parameter.
--   Deployment/Build, Claims and Built: `build_migration`, given what was read of the proxy's storage.
-- Selectors.antt and its children: the generated `selectors()` method of `src/josuke/erc8167.py`.
-- Storage.antt and its children: `slot_address` of `src/josuke/storage.py`; Storage/Trace: `_proxy_events`
--   and `_steered_by`; Storage/Walk: the search of `ProxyStorage.fetch`. The relay that calls the proxy is a
--   parameter, and so is a bound on the slots that the dispatches read.
-- Rehearsal.antt: `rehearse_migration` of `src/josuke/rehearsal.py`.
-- Verify.antt and its children: `verify_facets`, `verify_dispatch` and `verify_migration` of
--   `src/josuke/verify.py`, and `create_address` of `src/josuke/broadcast.py`. A check is the list of the
--   failures that it reports. The hash, the compiler, the replay and the chain are a record `World`.
-- Accept.antt and its children: `verify_migrated`, `accepted_state`, `history_entries`,
--   `retired_entries` and the ledger's change of `src/josuke/accept.py`, and `recorded_delegates` of
--   `src/josuke/audit.py`.
-- Rpc.antt and its children: `post_batch` of `src/josuke/ethjsonrpc.py`, with a record of its local
--   variables as the state and one function per pass, and `rpc_batch`. A node answers each POST. Rpc/Codes: `eth_get_code` and
--   `prefetch_code`.
-- Check.antt and its children: `src/josuke/check.py`. Check.antt: the nodes of `_shape`, `_fit`,
--   `_same_shape`. Check/Reads: what it is for a shape to read back as another. Check/Storage:
--   `Findings`, `_declarations`, `_check_storage`. Check/Compare and Dedupe: `_compare_storage`. Check/Recorded:
--   `_recorded_states`. Check/States: `_check_storage_history`. Check/Staged: `_differences`.
--   Check/Declared: `_check_declarations`. A message is kept as
--   the declarations that it prints.
-- Prelude.antt: the shared names and lemmas: lists with Python's slices, dicts, `sorted`, equality.
--
-- Fuel: the loops of the bisections have their range's width, the loop of `get_logs` twice its range's,
-- the loops of `decode` the length of the code, the loop of `post_batch` five passes for each request
-- and each unit of the limit, the recursion of `_fit` the number of pairs of nodes, the search of `fetch`
-- the bound on the slots. That each is enough is a theorem below, or a part of one.
--
-- Not modelled: transport, processes, files, printing; the node, the compiler and the signing
-- libraries, whose answers are parameters.
pub mod Prelude
pub mod Audit
pub mod Opcodes
pub mod Migration
pub mod Deployment
pub mod Storage
pub mod Verify
pub mod Accept
pub mod Selectors
pub mod Rpc
pub mod Check
pub mod Rehearsal
