-- ===== src/Mapper.antt =====
-- apps/backend/app/services/airflow/mapper.py: from the payload of the tasks to the graph of a DAG.
pub mod Graph
pub mod Shift
