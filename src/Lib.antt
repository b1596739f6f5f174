-- ===== src/Lib.antt =====
-- The NASA Earth observation event platform: rows of NASA FIRMS detections are canonicalized into
-- events with deterministic identities, an orchestration runs the stages of the batch pipeline and
-- records their receipts, and an API serves the results through a cache.
--
-- Which file models which code:
-- - Cache.antt: src/eo_event_platform/api/cache.py. `Cache` is the state of `BoundedTTLCache`, the
--   ordered dictionary a list of items, the oldest first; `get`, `set` and `snapshot` are its
--   methods. Cache/Items, Cache/Bounds, Cache/Eviction, Cache/Setting and Cache/Contents hold the
--   proofs, Cache/Control models `cache_bypassed`.
-- - Orchestration.antt: src/eo_event_platform/orchestration/runtime.py. Params models
--   `RunParameters`, Manifest the operational metadata, Execution `execute_stage`, Runs
--   `initialize_run` and `finalize_run`. The manifests stand in an association list from paths,
--   which stands for the directory of metadata.
-- - Events.antt: src/eo_event_platform/events/identity.py and
--   src/eo_event_platform/events/canonicalization.py. AcquisitionTime and Decimal are the two
--   normalisations, Timestamp is `strptime` with the format "%Y-%m-%d%H%M", Row has the readers of
--   a cell, Canonical the identity and the data of an event, RowOutcome `canonicalize_row`, Run the
--   class `Canonicalizer`.
-- - Replay.antt: src/eo_event_platform/replay. Plan models identity.py, Generator and Run
--   generator.py, Verifier the checks of a line in verify.py and Verification the others; Checked
--   has what a line says that passes them; Value and Update hold Python's equality on JSON values
--   and `dict.update`; Fields, Lines and Verified hold the proofs.
-- - Router.antt: src/eo_event_platform/streaming/kafka/failure_router.py. Validation, Attempts and
--   Routing route one message, Loop is the loop over the consumer's polls, Delivery the keys of the
--   produced envelopes and their verification, Sound the contract of an event that passes,
--   Reconciled holds the proofs of the loop, Run is `route_failures`.
-- - Selection.antt: src/eo_event_platform/events/scale_gate_selection.py.
-- - Extraction.antt: src/eo_event_platform/ingestion/nasa_firms/extractor.py. Request models
--   `ExtractionRequest` and its URL, Area the pattern of an area and Area/Grammar what it matches,
--   Fetch `_request_csv`, Csv `validate_firms_csv` and Run `extract`; Contract, Attempts and
--   Run/Recorded hold the proofs, and Handover joins the extraction's manifest to the canonicalizer
--   that reads it.
-- - Producer.antt and Consumer.antt: producer.py and consumer.py of
--   src/eo_event_platform/streaming/kafka; Consumer/Observed follows the loop of the consumer and
--   Consumer/Pigeonhole counts different numbers below a bound.
-- - Api.antt: src/eo_event_platform/api. Base64 and Cursor model the cursors of models.py, Pages
--   `lineage` and `bbox` of repository.py, and Aggregate `cached_aggregate` of app.py over the
--   cache. Pages/Following is a client that follows the cursors.
-- - Serving.antt: src/eo_event_platform/serving/postgres_loader.py. `Database` is the rows of two
--   tables; Rows and Loaded hold the proofs.
-- - Text.antt: Python's `str` as a list of code points, with the methods that the program calls,
--   the decimal digits of Unicode 15 in Text/Decimals, and `float`. Json.antt: `json.dumps` of a
--   flat dictionary with sorted keys, as ASCII.
--
-- How the parts interact: a run of the orchestration calls the canonicalizer as one of its stages
-- through a command, which is a parameter here; the canonicalizer reads the raw file and the manifest
-- of an extraction; the replay reads the canonical events, the producer sends its file, the consumer
-- reads back the range of offsets that the producer's manifest gives, and the router reads the
-- replay's messages; the cache stands in front of the API.
--
-- Bounds and fuel. Python's integers are unbounded, and so are the numbers here. The eviction loop of
-- the cache is recursion on fuel, one more than the entries, which is shown to be enough; every other
-- loop is recursion on a list or on the attempts that are left. The client of the pages may read one
-- page more than there are rows. A monotonic clock's reading is a natural number of its smallest unit.
-- `lower` and `upper` leave the letters above ASCII as they are.
-- Decimals are rounded to the 28 digits of Python's default context. A source manifest's record count
-- that is no natural number stands for 0, which `int` would refuse or read as another number.
--
-- Not modelled: SHA-256, the conversion of a text to a float, the CSV reader, the conversion of ISO
-- times, `json.loads` and what servers and databases answer are parameters. Files that cannot be
-- written (but for the extraction's), the clock, the random identifiers of runs, the Spark jobs, the
-- summaries of the serving tables, the routes of the API and the dashboard are left out.
pub mod Prelude
pub mod Producer
pub mod Api
pub mod Cache
pub mod Orchestration
pub mod Text
pub mod Consumer
pub mod Events
pub mod Json
pub mod Replay
pub mod Router
pub mod Selection
pub mod Serving
pub mod Extraction
