-- ===== src/Pipeline.antt =====
-- From the responses of Azure to what a scrape shows: azure_managed_lustre.py and models.py with
-- collector.py.
pub mod Osts
pub mod Aggregates
pub mod Collection
mod Examples
