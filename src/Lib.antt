-- ===== src/Lib.antt =====
-- hass_ai: the pattern engine that learns habits from Home Assistant and proposes automations.
--
-- The program, and the files that model it:
-- * The ingester (src/pae/ingest) listens to state changes, attributes each to a cause, and writes event
--   rows in batches: Ingest.Filters (should_ingest), Ingest.Context (day_type, season),
--   Ingest.Attribution (ContextCache, attribute), Ingest.Writer (BatchWriter: add, flush) and
--   Ingest.Service (on_state_changed, _maybe_presence, on_automation_activity), which calls the others.
--   Ingest.Frames writes the context frames of the same service (_write_context_frame), Ingest.Registry
--   mirrors the entity registry (registry.py and a round of _registry_loop).
-- * The clients (src/pae/ha/client.py, src/pae/llm/client.py): Ha.Client is the WebSocket client (_send,
--   _send_command, _resubscribe, _dispatch, run), Ha.Rest the REST client (writes_to_ha, _get, get_state),
--   Llm.Client the hosts and attempts of chat_json, Llm.Request its _request, and Llm.Prompt the prompt
--   (src/pae/llm/prompt.py).
-- * The scheduler (src/pae/worker/scheduler.py), which enqueues mining, proposing and shadowing every
--   night: Worker.Scheduler.
-- * The miner (src/pae/miner) turns events into patterns: Miner.Stats is the day circle of stats.py and
--   Miner.Stats.Clusters its cluster_minutes, Miner.Types the records of types.py, Miner.Sun the cache of
--   sun.py; Miner.Pairs is mine_event_pairs of pairs.py, Miner.Tod with Miner.Tod.Mine mine_time_of_day of
--   tod.py, Miner.Ratio the rounding of both; Miner.Reconcile (reconcile_keys), Miner.Upsert
--   (dedupe_candidates, upsert_patterns) and Miner.Run (run_mining, which calls them all) are service.py.
-- * The proposer (src/pae/proposer) selects patterns (Proposer.Gates, gates.py), groups them
--   (Proposer.Group and Proposer.Grouping, the record and build_groups of grouping.py), asks the
--   language model and validates its draft (Proposer.Schema and Proposer.Validate, schema.py;
--   Proposer.Service, _process_groups of service.py), and keeps the lifecycle of proposals
--   (Proposer.Lifecycle, the writes of run_proposing in the order of the source; Proposer.Run, the whole of
--   run_proposing, which calls them all). The review UI decides
--   (Proposer.Repo, repo.py and src/pae/api/proposals.py) and shows the figures of Proposer.Pages
--   (list_proposals of repo.py, src/pae/api/proposals.py and src/pae/api/viz.py).
-- * The shadow evaluator (src/pae/shadow/service.py) replays each proposal against each past day:
--   Shadow.Evaluate (evaluate_day) and Shadow.Run (run_shadow_eval).
-- * The scripts that set Home Assistant up: Scripts.Rows (ha/basement_tablet: the rows behind the slider),
--   Scripts.Tablet (ha/basement_tablet/helpers.py: main and its parts), Scripts.Flow (ha/weather/helpers.py:
--   drive_flow, main), Scripts.Discovery (ha/weather/discovery.py and its sensor_map.py),
--   Scripts.Lora (the same of ha/lora915) and Scripts.Topics, both on one broker; Scripts.Deploy (both
--   deploy_dashboard.py).
-- * The tables (src/pae/db/models.py): Db.Models. Prelude holds what all of them share, Tests the
--   concrete runs.
--
-- State is passed explicitly: a handler or a job maps the tables, the cache or the buffers to new ones.
-- Proposer.Lifecycle.Step is one change of the tables by an operator or a job, Reach a sequence of them.
-- An exception is a value: none of an Option, or the constructor raised of an outcome.
--
-- Units: a minute of the day counts 60 (seconds), so that times of day are whole numbers; a ratio counts
-- its last stored digit (0.6125 is 6125, a lift of 3.25 is 325); a timestamp is a number of seconds and a
-- date the number of its day. A loop is a recursion on the list it walks; the loops that never end in the
-- source (run, run_daily) walk the list of their rounds' outcomes. Two loops count rounds: rounds of
-- Scripts.Flow has the six of the source, and upsert_chunks of Ingest.Registry has as many as there are
-- rows, each of which takes at least one row.
--
-- Parameters stand for what is not in the repository: pydantic's shape checks (decode), the dump of an
-- automation, the hash and the number format of a group's key, the language model, the time zone, the
-- sun's positions, the trigonometric mean and deviation of times of day (real analysis), the holidays,
-- fnmatch, ISO times, regular expressions, HTTP and its answers, json.dumps, and a database's success or
-- failure. The one hypothesis on pydantic is that a dump decodes to its automation again. The scheduler's
-- clock is read at or behind the end of a wait.
--
-- Not modelled: the dashboards' cards, HTML templates, the queue and process
-- start, configuration, logging, metrics, migrations and the command line: input and output without a
-- state of their own.
pub mod Prelude
pub mod Db
pub mod Ingest
pub mod Llm
pub mod Ha
pub mod Worker
pub mod Tests
pub mod Miner
pub mod Proposer
pub mod Scripts
pub mod Shadow
