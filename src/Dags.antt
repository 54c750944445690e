-- ===== src/Dags.antt =====
-- apps/backend/app/models/dags.py: how the fields of Airflow's payloads are read.
pub mod Parse
