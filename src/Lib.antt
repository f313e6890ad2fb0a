-- ===== src/Lib.antt =====
-- A verification library for caikit, a framework that manages AI models: it loads them, serves
-- requests on them over gRPC and HTTP, batches requests, runs background jobs, and streams
-- their data.
--
-- The parts that are modelled, with the file of the program and the module here:
-- - caikit/runtime/model_management/batcher.py, `Batcher`: a wrapper of a model that joins the
--   requests of several threads into batches. Batcher/Collate has the loop of
--   `_batch_thread_run` that collects the arguments of a batch and finds the requests that lack
--   one; Batcher/Deliver takes these out, calls `run_batch` and posts the results;
--   Batcher/Lifecycle has `run`, the rounds of the batch thread and `stop`; Batcher/Defaults
--   has the defaults that `__init__` reads off a signature. Batcher/Columns, Lacking, Invalid,
--   Removal, Answers, Ready, Results and Stopping hold the proofs.
-- - caikit/runtime/model_management/loaded_model.py, `LoadedModel`: the handle of a model that
--   may be loading, with its retries (LoadedModel/Defs, LoadedModel/Waiting).
-- - caikit/runtime/model_management/model_manager.py, `ModelManager`: Manager/Defs has
--   `load_model`, `unload_model` and the metrics, Manager/Serving has `retrieve_model`,
--   `get_model_size` and `unload_all_models`, Manager/Syncing has `_local_models_dir_sync`,
--   Manager/Deploying what `deploy_model` and `undeploy_model` do to the directory of models.
--   The handles are those of LoadedModel, and their fail callback is `unload_model`, which
--   waits on the handle again. Manager/Gauges, Loading, Retrieval, Again, Emptying, Synced,
--   Deployed and Undeployed hold the proofs.
-- - caikit/runtime/work_management/abortable_context.py and rpc_aborter.py: the thread that
--   interrupts the work of terminated calls (WorkManagement/Defs; Interrupts, Exits and Moves
--   hold the proofs).
-- - caikit/core/model_management/local_job_base.py: background jobs and their retention
--   (ModelManagement/LocalJobs; Purging holds the proofs); multi_model_finder.py and
--   multi_model_initializer.py beside it (ModelManagement/Finders). ModelManagement/Launching
--   has `train` of local_model_trainer.py and `predict` of local_job_predictor.py,
--   ModelManagement/SavePaths the paths of results, and ModelManagement/JobIds the ids of
--   job_base.py with caikit/core/toolkit/reversible_hasher.py.
-- - caikit/core/toolkit/concurrency/destroyable_thread.py and destroyable_process.py: the
--   threads and processes that background jobs run in, as state machines (Concurrency/Thread,
--   Process); Concurrency/States and Ends read the status of a job off them and hold the
--   proofs.
-- - caikit/core/model_manager.py, the core library's manager: CoreManager/Components has the
--   components that are made on demand, CoreManager/Futures the look-up of jobs by the ids of
--   ModelManagement/JobIds, CoreManager/Loading has `load` with archives and the cache of
--   singletons, and CoreManager/Archives its proofs. CoreManager/Factories is
--   caikit/core/toolkit/factory.py.
-- - caikit/runtime: Runtime/ModelLoader is model_management/core_model_loader.py and
--   model_loader_base.py, which call `load` of CoreManager/Loading; Runtime/Sizers is
--   model_management/directory_model_sizer.py and mm_model_sizer.py; Runtime/Statuses has the
--   tables of status codes of names.py with the places that use them (Runtime/ErrorWays holds
--   the proofs); Runtime/JobRpcs is the requests about jobs of
--   servicers/prediction_job_management_servicer.py and training_management_servicer.py
--   (Runtime/JobAnswers holds the proofs); Runtime/Predict is `Predict` and `predict_model` of
--   servicers/global_predict_servicer.py (Runtime/Requests holds the proofs), and
--   Runtime/PredictJobs its `StartPredictionJob`.
-- - caikit/core/augmentors/schemes: schemes of several augmentors (Augmentors/Schemes and
--   Orders).
-- - caikit/config/config.py: Configuration/Values has the values of a configuration,
--   Configuration/Merging `merge_configs`, Configuration/Configure `configure` with the extra
--   files. Merged, Paths and Precedence hold the proofs, about one key, a path of keys, and
--   several files.
-- - caikit/core/data_model/base.py, `DataBase`: DataModel/Attributes has `__setattr__`, the
--   property getters and `which_oneof`, on a record of the private attributes, the dictionary
--   of `which_oneof` and the backend, which are apart in the program if names keep clear of
--   its own; DataModel/Constructors has the `__init__` of
--   `_make_init` and the one of `_make_oneof_init` in dataobject.py; DataModel/Backends has
--   data_backends/dict_backend.py, and DataModel/Protos `fill_proto` and `from_proto`. OneOfs,
--   Frames, Forgetting, Remembering and RoundTrip hold the proofs.
-- - caikit/core/data_model/timestamp.py: naive times and `Timestamp` messages, with the
--   floating-point computations of `datetime` as parameters (DataModel/Timestamps).
-- - caikit/core/data_model/json_dict.py: Python dicts and `Struct` messages (JsonDict/Convert
--   and RoundTrip).
-- - caikit/core/data_model/streams/data_stream.py: the combinators of `DataStream`
--   (Streams/Defs, Laws, Shuffling), and `augment` with caikit/core/augmentors/base.py
--   (Streams/Augmenting). Streams/Columns has csv_column_formatter.py and validator.py beside
--   it, and Streams/Rows the proofs.
-- - caikit/core/toolkit/name_tools.py: the conversions of names (Toolkit/Names).
-- - caikit/core/toolkit/quality_evaluation.py: confusion matrices and partial matches
--   (Evaluation/Defs, Example, Counts, Matching), and the counts of several labels
--   (Evaluation/Multilabel, Totals, Micro).
-- Common has what they share: tests, options, lists over the native numbers, texts as lists of
-- code points where the program looks into them, paths of POSIX as `os.path` reads them, and
-- Python's dicts as association lists in the order of insertion. Tests has the theorems at
-- concrete inputs.
--
-- How the program is modelled. A function of the program is a function here; an exception is a
-- value, `none` where only one is possible. State is passed along. Threads are steps on one
-- shared state, a step being what runs between two points at which threads switch; in Manager
-- every operation is one step. The watch thread of WorkManagement has each access to the
-- shared state as a move of its own. A handle of a model is an object, so the manager keeps
-- references into a heap. The event of a request is named by the request's id, and the outcomes
-- of load jobs are a function from the number of a submission. A stream makes an iterator
-- afresh, so it is the list of items that one iteration yields, with the exception that ends
-- it. Random numbers, regular expressions, the file system, the model that is run and the clock
-- are parameters; so are the import of a class and the call of a class that makes a component.
-- A retry count is not negative.
--
-- Bounds. Numbers are unbounded, as in Python. The only fuel is that of `unload_nested`:
-- `unload_model` waits on a handle whose fail callback unloads the same id, which is no longer
-- in the map then, so that a depth of two is enough.
--
-- Not modelled: the servers and the remote client, which wire libraries for gRPC, HTTP and
-- metrics, but for their status codes; the servicers of trainings, of deployments and of the
-- model mesh; the streams of a request; generated protobuf code; the generation of services;
-- the metaclasses of the data model, its maps and its JSON; logging; the timer of
-- `sync_local_models`; the file readers of `DataStream`; the scores of evaluation, which are
-- quotients of its counts; delays, which only shift when a thread goes on. Reading YAML,
-- environment variables and protobuf itself belong to libraries: the first two are parameters
-- of Configuration/Configure. Of protobuf, DataModel/Protos takes that a message field is set
-- once something in it is assigned, and that a field without presence reads as its default;
-- what assigning a value stores, and whether extending by nothing assigns, are parameters.
-- Manager/Deploying resolves `..` in paths, and leaves out links.
pub mod Augmentors
pub mod Batcher
pub mod Common
pub mod Concurrency
pub mod Configuration
pub mod CoreManager
pub mod DataModel
pub mod Evaluation
pub mod JsonDict
pub mod LoadedModel
pub mod Manager
pub mod ModelManagement
pub mod Runtime
pub mod Streams
pub mod Tests
pub mod Toolkit
pub mod WorkManagement
