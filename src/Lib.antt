-- ===== src/Lib.antt =====
-- The Purdue Analysis Facility (repository PurdueAF/purdue-af): a model of the Python services'
-- own logic, with the theorems that it satisfies.
--
-- - Common: shared names, Boolean tests, lists, dictionaries, texts, and functions and handlers
--   that may raise.
-- - Ray (apps/ray-train/gateway.py): the gateway that starts a Ray cluster for each user and job.
--   - Ray/Base: Flavor, Shape, User and Refused.
--   - Ray/Accounts: checked_account, read_accounts, token_account, refuse_account_name, cluster_name.
--   - Ray/Requested: whole, requested_size, requested_memory, requested_per_worker,
--     requested_workers and bearer_token; Ray/Settings: Gateway.caller, which makes a call's headers a
--     Shape.
--   - Ray/Paths: mounted_env, requested_env and data_paths, with posixpath.normpath and dirname.
--   - Ray/Cluster: cluster_template, worker_group, build_cluster's groups, cluster_owner,
--     refuse_others and owns: what the cluster's manifest says, and whose it is.
--   - Ray/Admit: Gateway.admit, free_gpus and held_gpus, which give a Shape its workers of each GPU
--     kind. The state is the grants.
--   - Ray/Existing: a cluster as it is found, with `runs`; Ray/Start: Gateway.start_cluster with
--     wait_until_gone and head_up, cluster_for and running. What is answered comes with the call, as
--     does each poll; one past the last is past the deadline.
--   - Ray/Reap: Gateway.reap_idle with busy, unprovisioned and delete: which clusters go. The state
--     is the fields of Gateway that a deletion changes.
--   - Ray/Jobs: reap_jobs' pass over one RayJob, with follow_on_head, free_workers, keep_logs and
--     stop_unprovisioned. The state is the gateway's fields and the log of the calls made.
--   - Ray/Nrp: Gateway.advance_nrp and what it calls: the reaper's pass over a job on NRP. The state
--     is the job's record, as Kubernetes has it, with the log of the calls made; Ray/NrpState has it.
-- - Agentic (docker/agentic-interface): the interface through which agents use the facility.
--   - Agentic/Regex: the regular expressions that the scoping writes, and what they match.
--   - Agentic/Scope: without_prefixes, Owned.object_names and matchers (promql_scope.py): which series
--     a caller's query may see. An expression is what its text is parsed to.
-- - Hub (apps/jupyterhub/jupyterhub/extraFiles): the scripts about GPU sessions.
--   - Hub/Gpus: refuse_gpu_spawn_if_unavailable and what it calls, free_gpus, and the hook for a stop
--     (gpu-availability.py). The state is the module's reservations and cache.
--   - Hub/Cull: cull_once and what it calls (cull-gpu-sessions.py). The state is the calls made.
-- - LlmProxy (apps/agentic-analysis/llm_proxy.py): the proxy that keeps agents within the fair use of
--   NRP's models. LlmProxy itself: Settings, Model, Backend and Role.
--   - LlmProxy/Samples: the quantile and median of timed samples.
--   - LlmProxy/Gate: Gate, admission to one model. The state is the gate's fields; Gate/Held has the
--     steps that threads take on it.
--   - LlmProxy/Reply: Reply's take and problem, with failure and _retry_after; LlmProxy/Message: its
--     message and chunks.
--   - LlmProxy/Pick: Proxy's estimate, room, usable and pick; LlmProxy/Exchange: its exchange;
--     LlmProxy/Forward: its forward, whose loop is over what is answered to each of its passes.
--   - LlmProxy/Load: load and _budget, over the tables of models.toml. Load/Fair has the forwarding with
--     what `load` gave.
--   - LlmProxy/Server: do_POST up to the sending on, and Server's admit, finished and drain. The state
--     is the server's fields; Server/Drained has the steps that requests and a restart take on it.
-- - ManagedBlock (docker/purdue-af/scripts/managed-block.py): render, apply_block and main, which keep
--   the managed part of an agent file. A text is its code points.
-- - MattermostAgent (apps/mattermost-agent/agent.py): the agent that answers on Mattermost.
--   - MattermostAgent/Linking: Linking's methods. The state is its dictionaries and its file; what the
--     Hub answers comes with the call. Linking/Origin has the steps that anyone's calls take.
--   - MattermostAgent/Limit: Agent.allowed.
--   - MattermostAgent/Posts: wanted, by_a_person, replies_to_bot and thread_messages.
--   - MattermostAgent/Answer: intent, command, call and answer, whose tool calls are logged.
-- - PixiSync (apps/af-utils/pixi-global-sync/sync-global-env.py): the daemon that keeps an installed
--   environment in sync. PixiSync itself: reconcile and deep_verify with what they call.
--   - PixiSync/Passes: the states that passes, verifications and others' edits make.
--   - PixiSync/Lock: FrozenHeartbeatObserver and acquire_lock, over what each look reads.
-- - Models (docker/supersonic-model-manager/model_manager): the manager of Triton's models.
--   - Models/Config: parse_config and its regular expressions (validation.py).
--   - Models/Artifacts: _expected_artifact and _infer_platform, with the tree and the report of a
--     validation; Models/Validation: validate_model_dir (validation.py).
--   - Models/Names: _validate_name, _safe_relpath, _is_junk, is_archive (repository.py).
--   - Models/Uploads: _extract_zip, _extract_tar, _install and delete_model (repository.py). The state
--     is what has been written of an archive, and the repository's models by name.
--
-- A handler that may raise gives an Outcome, beside its state where it has one. What Kubernetes,
-- Prometheus, the Hub and the clock answer are arguments; float() is a parameter that gives a
-- number, none, or one that is out of range. Loops are over lists, or over as many turns as the code
-- counts; LlmProxy/Forward/Ends says how many passes of a request are enough, LlmProxy/Load/Budget that
-- 22 tens are for a budget's three figures, up to contexts of 2 ^ 64.
-- Times are whole milliseconds, memory and shares of a GPU whole numbers of a fine unit.
--
-- Not modelled: the relays (they stream bytes), the calls of Kubernetes and over HTTP themselves, the
-- log and message texts, the metrics that only report, the threads and signals of the daemons, and the
-- other services of the repository: the tools of docker/agentic-interface, docker/af-node-monitor, the
-- workflows, and the scripts that set JupyterHub's fields.
pub mod Agentic
pub mod Common
pub mod LlmProxy
pub mod Hub
pub mod ManagedBlock
pub mod MattermostAgent
pub mod Models
pub mod PixiSync
pub mod Ray
