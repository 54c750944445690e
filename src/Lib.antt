-- ===== src/Lib.antt =====
-- The backend of the PM generator (apps/backend/app): it runs DAGs on an Airflow server, follows
-- their runs, and keeps datasets in an object store with their rows in a database. With it, the
-- choice of KPIs in the preprocessing job that such a run executes (apps/generator).
--
-- A route calls a service. `AirflowService` calls `AirflowClient`, which takes tokens from
-- `AirflowAuth` and sends requests over HTTP; its payloads become models. `ProcessRunPoller` asks
-- the Airflow service for the runs that are under way and registers their outputs with `S3Service`
-- in the database. Exceptions travel up to the handlers, which turn them into responses.
--
-- Files and code, under apps/backend/app unless another path is given:
-- - Schemas, Store: db/schemas.py, and the queries and commits of the services on its tables. A
--   commit that violates the unique key of `datasets` raises; deleting a dataset cascades.
-- - Dags.Parse: models/dags.py, the validators of single fields.
-- - Mapper.Graph, Mapper.Shift: services/airflow/mapper.py, `map_dag_graph` and the reading of
--   dependencies from a local DAG file; below them what is proved of nodes, edges and chains.
-- - Errors, Handlers: services/airflow/errors.py and core/error_handlers.py.
-- - Airflow.Auth, Airflow.Client, Airflow.Endpoints: services/airflow/auth.py and client.py.
--   Airflow.Http is the world they work in.
-- - Airflow.Payload, Airflow.Service: services/airflow/service.py, its run caches, the search for
--   a run, and the actions on DAGs and runs.
-- - S3: services/s3/service.py, the methods on datasets; S3.Multipart, those on uploads.
-- - Poller: services/runs/poller.py. Poller.Steps has its steps as a relation on the database,
--   Poller.Whole what a tick makes of one run among others.
-- - PmSchema: services/s3/pm_schema.py with shared/pm_schema_columns.json.
-- - Access: core/auth.py and core/storage_access.py; Access.Token is `get_token_payload`.
-- - SparkConf: services/spark_dag_conf.py with models/spark_jobs.py. Pipeline: services/pipeline.py.
-- - Modeling: api/v1/modeling.py, its routes on trained models (Models) and those that start a run
--   (Conf, Runs). Store.Tables has the queries on the tables that they write.
-- - System: the poller and the routes on datasets, models and runs as events on one database. Sound
--   says what holds of it, Events runs the events; the modules between have one service each.
-- - Autofill: services/llm/autofill.py. Fields has the value of each field, Form the rules of
--   `_normalize`, Request the reading of the reply; Kinds says what each field may hold.
-- KpiCoverage is apps/generator/genpm/preprocessing/logic/kpi_coverage.py, which the preprocessing
-- job runs: Greedy has `_greedy_order`, Selection the floor and the elbow, Windows the windows of one
-- series, Imputability its gaps, Prefilter the cut on breadth, Collect the matrix that the greedy
-- order reads, Spine the hourly rows of a series, Joint the windows that all selected KPIs have,
-- Emit the rows with the marks of windows.
-- Imputing is logic/imputing.py beside it: Gaps and Rows say what `impute` makes of a series, and
-- Classify is kpi_grouping_defs.py, which finds the method of a KPI.
-- Base holds what these share: texts, JSON values, tables, results, and methods that change a state
-- and may raise, which keep what was written before the raise. Tests holds concrete inputs.
--
-- Outside code is a parameter: the HTTP server, the clocks and `jwt` (`World`), the object store
-- (`Storage`), Python's conversions of floats and containers (`Builtins`, `Numbers`), `urllib`
-- (`Urls`), the order in which Python iterates a set, Spark's quantile, `PurePosixPath` and
-- pydantic's validation of job arguments (`Paths`), for the routes the Airflow service with
-- `isdigit` and `int` (`Outside`), for tokens PyJWT (`Jwt`), and for the imputation regular
-- expressions (`Engine`) and Spark's arithmetic and aggregates (`Spark`). A request's user, its
-- time and random id are a `Call`. Times are microseconds, those of rows in a series seconds. Calls
-- that the code makes under one lock run one after the other. The events of System.Events do so
-- too: two requests that interleave where they await are not modelled, nor what PostgreSQL then
-- says of foreign keys.
--
-- Fuel: the retry loop counts its attempts as the code does, three at most. The recursion over
-- derived columns has one unit more than there are derived columns; the schema of the repository
-- has one derived column, whose source is not derived, so two units reach the end. The decimal
-- digits of a number have the number's successor as fuel. The loop of `_greedy_order` has the number
-- of rows as fuel; each round takes a row, and the theorem on it shows that the fuel is enough.
--
-- Upper and lower case are those of ASCII letters, and so are the word characters of file names, which
-- the code reduces to ASCII first; those of the notes of runs are a parameter.
--
-- Spark's data frames stand as the lists of rows of one series, and numpy's boolean matrix as a
-- function of row and column. Times of windows are whole hours since the origin of the group.
--
-- Not modelled: previews of tables, visualizations, the other routes, the Airflow DAG files, the
-- generator package but for the KPI coverage and the imputation, the frontend and the deployment
-- files. Log output is left out everywhere.
pub mod Base
pub mod Schemas
pub mod Dags
pub mod Mapper
pub mod Errors
pub mod Airflow
pub mod Store
pub mod S3
pub mod Poller
pub mod Handlers
pub mod PmSchema
pub mod Access
pub mod Modeling
pub mod Imputing
pub mod System
pub mod SparkConf
pub mod Pipeline
pub mod KpiCoverage
pub mod Autofill
pub mod Tests
