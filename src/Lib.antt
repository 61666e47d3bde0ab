-- ===== src/Lib.antt =====
-- DVC: the decision whether a stage has changed (dvc/stage/__init__.py) and the loop of `dvc
-- repro` (dvc/repo/reproduce.py) that calls it; the lock on paths (dvc/rwlock.py) under which
-- stages run; the variables and the groups of stages of dvc.yaml (dvc/parsing); the tables of the
-- interface (dvc/compare.py); the references of experiments (dvc/repo/experiments/refs.py); and
-- the `dvc oodcp` subsystem (dvc/oodcp), which versions data sets as objects in a SQLite file. The
-- loop calls the stages, and the stages of a group are resolved in a context of variables; the
-- other parts share no state here.
--
-- The loop goes through a plan of stages, calls a function for each, keeps the results, and on an
-- exception stops, skips what depends on the stage, or goes on. A stage answers whether it has
-- changed, by its own checksum or command, its dependencies and its outputs.
--
-- A context is a tree of dicts and lists with the file and path of each part. Files of variables
-- are merged into it, some keys are reserved, and a foreach or matrix group sets `item` and `key`
-- for each of its stages and takes them back.
--
-- A DataSet has DataFiles, a DataFile has numbered DataVersions, and a DataVersion has a content
-- hash, a status and perhaps a source version. The methods of the entities call a repository, the
-- repository turns entities into rows and runs the statements of three data access objects, and
-- factories, services and the pipeline dependency stand on top.
--
--   Base                the library's names that are shared, equality as an interface, tables as
--                       lists, results, state passing with exceptions, keys, sorting
--   Base/Dict           Python's dicts with text keys
--   Experiments/Refs    ExpRefInfo of dvc/repo/experiments/refs.py; Refs/Laws has the proofs
--   Stage               the Stage class of dvc/stage/__init__.py, from is_callback to changed, status
--                       and reproduce; Stage/Changed has the proofs
--   Parsing/Context     dvc/parsing/context.py: the containers, _convert, select, _merge, merge_update
--   Parsing/Context/Imports
--                       load_from, check_loaded, merge_from, load_from_vars
--   Parsing/Context/Temporary
--                       reserved and set_temporarily
--   Parsing/Context/Laws, Merge, Distinct, Related, Kept, Again, Errors, Temporary/Restored,
--   Parsing/Context/Temporary/Same
--                       proofs about these
--   Parsing/Groups      ForeachDefinition and MatrixDefinition of dvc/parsing/__init__.py, from the
--                       resolved iterable on; Groups/Resolved and Groups/Matrix have the proofs
--   Table, Table/Edit   TabularData of dvc/compare.py: rows, and columns with dropna and
--                       drop_duplicates; Table/Invariant, Zip, Rows and Filter have the proofs
--   Experiments/Examples, Stage/Examples, Parsing/Examples, Parsing/Groups/Examples,
--   Table/Examples      tests and witnesses
--   Repo/Reproduce      `_reproduce`, handle_error, _get_upstream_downstream_nodes and _raise_error of
--                       dvc/repo/reproduce.py; Reproduce/Schedule says by the edges of the
--                       graph which stages are to run, and its other children hold the proofs, by
--                       the way to treat a failure
--   Repo/Stages         _reproduce_stage of dvc/repo/reproduce.py, by which the loop calls the stages of
--                       Stage; Repo/Stages/Clean has the proofs
--   Repo/Examples, Repo/Stages/Examples
--                       tests and witnesses
--   Rwlock              dvc/rwlock.py: _check_blockers, _acquire_read and _acquire_write,
--                       _release_read and _release_write; `enter` and `leave` are the two parts of
--                       rwlock, on the contents of the lock file, for which `loaded` puts the
--                       defaults of the schema
--   Rwlock/Kept, Checks, Exclusion, Blocked, Writes, Reads, Roundtrip
--                       proofs about these
--   Rwlock/Examples     tests and witnesses
--   Oodcp/Values        domain/enums.py and domain/exceptions.py
--   Oodcp/Entities      the fields of DataSet, DataFile and DataVersion with its subclasses
--                       (domain/entities), and the protocol of
--                       infrastructure/gateways/storage_gateway.py
--   Oodcp/Tables        data/schema.py: the rows, the tables and the constraints
--   Oodcp/DatasetDal, DatafileDal, DataversionDal
--                       data/dal: save, get, listings, next number, lineage query
--   Oodcp/Convert       the serialization helpers of data/datarepo_sqlite.py
--   Oodcp/DataRepo      the operations of data/datarepo_sqlite.py
--   Oodcp/Dataset, Datafile, Dataversion
--                       the methods of the entities
--   Oodcp/Factories     app/factory
--   Oodcp/Services      domain/services
--   Oodcp/Pipeline      integration/pipeline.py, OodcpDependency
--   Oodcp/Trace         the calls that write, and runs of them
--   Oodcp/Valid, Lookup, Versions, Deletion, Lineage
--                       proofs about all of these together
--   Oodcp/Examples      tests and witnesses
-- (the paths from Oodcp/Values on are under dvc/oodcp). Functions keep their names; the DALs'
-- `_to_dict` and `_from_dict` lose their underscore, and parts of a method are helpers beside it.
--
-- State: the open database is a record of three lists of rows in the order of insertion. A method
-- is a function from the database to a result and a database; what an exception leaves behind is
-- the database it comes with. Every statement commits on its own. SELECT without ORDER BY answers
-- in the order of insertion, which is one of the orders SQLite may use.
--
-- A dict is a list of keys and values in the order of insertion. A table is such a dict of
-- columns, a list of its names, and the protected names. A call that raises in a table or in a
-- merge of contexts answers the exception alone: what it leaves half done is not described. A
-- `with` is a function of its body.
--
-- Parameters: what an output says of itself, and the run and the pull of a stage; Python's strip
-- and int, the texts of values and numbers, the parts of a text at a colon or a comma, the paths
-- of the file system and what it has there, for contexts; what an entry of a group resolves to in
-- a context, which it only reads; the graph of stages, as the answers that networkx gives, whose
-- nodes are all the stages of the plan, with the hypothesis that its search finds just what
-- reaches a stage by edges where a theorem needs it; the function that reproduces one stage, with
-- a state of its own, which may answer and raise anything; whether two paths overlap and whether a
-- process lives, for the lock; a codec for datetime and JSON texts, whose json.dumps is total,
-- with the hypothesis that it reads what it writes where a theorem needs it, as json does for
-- dicts with text keys; a storage gateway that may answer or raise anything; the uuids and times
-- that uuid4() and now() give are arguments, so nothing is assumed of them. Numbers of versions
-- are natural numbers, since the program counts them from 1. The recursion of the lineage query is
-- on its `max_depth`, which the query has itself, so no fuel is needed.
--
-- The status of an output is a dict of texts; DbDependency, which answers False in its place, is
-- left out.
--
-- An exception in `enter` leaves the lock file as it was, since it is saved only at the end;
-- `Result` says this. Not modelled: that the methods of a stage are wrapped by `rwlocked`, so that
-- they may raise LockError; the lock file's JSON and the guard that makes an edit of it exclusive;
-- opening and closing of the connection, the manager that builds the parts, experiment tags, the
-- adapters, which call dvc-data, and the parsing of URIs; the planning of a reproduction, which is
-- done by networkx, and the run, the saving and the loading of a stage; what a context tracks,
-- interpolation, and the resolution of the fields of an entry; negative indices and slices of
-- tables, their rendering, and the diff and metrics tables; the rest of DVC, most of which drives
-- git, remotes, file systems and other processes.
pub mod Base
pub mod Experiments
pub mod Oodcp
pub mod Parsing
pub mod Repo
pub mod Rwlock
pub mod Stage
pub mod Table
