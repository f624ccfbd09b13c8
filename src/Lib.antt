-- ===== src/Lib.antt =====
-- Verification of the Azure Managed Lustre and VM Scale Set metrics exporter.
--
-- The program (src/vmss_metrics_exporter/) polls Azure for VM Scale Set counts, standalone virtual
-- machines and Managed Lustre metrics and shows them as Prometheus gauges. Several replicas run;
-- a Kubernetes Lease elects the one that polls. The election (leader_election.py) calls back into
-- the exporter (collector.py), `set_leader`, which lets the pollers write or clears what is shown.
--
-- LeaderElection models leader_election.py. `Election` is the state of a `_LeaseElection`; its
-- methods are functions of the monad `M` under their names. The Kubernetes client, the clocks, the
-- waits and the callbacks are the parameter `Api`. Loops take fuel: `run` needs more than the waits
-- that are left before the stop event is set, and ten rounds for each second of the renew deadline
-- for the release, each of which sleeps at least a tenth of a second. `Clockwork` says what is
-- relied on: the clock never goes back, a sleep takes its time, the stop event comes. `Server` is the
-- API server that candidates share: the Leases it has stored, and that it refuses a write which names
-- another version than the newest (Writes, Rivals). Supervisor is
-- `LeaderElectionRunner.run_forever`, with the parameter `Runner`. Not modelled there: the set-up
-- of the Kubernetes client and the refresh of its token, which patch objects of another package.
--
-- Models has the records of models.py with their label values and percentages. Floats are the
-- parameter `Floats`, of which nothing is assumed. Models/Aggregates is
-- `build_lustre_filesystem_aggregate_metrics`, with Python's `sum` as a parameter.
--
-- Config models config.py, with `Env` for the environment, and the configuration of the election
-- that main.py makes of the settings. Config/Load is `load_settings`; `strip` and `split` are those
-- of Prelude/Text, and `float` and `str.upper` are parameters.
--
-- Azure models what is collected. Azure/Value has the values that the clients return, which the
-- code reads by key or by attribute; `Python` is what the standard library does to them.
-- Azure/ResourceGraph is azure_resource_graph.py: the retries of a query, with fuel for the retries
-- and one call more, its pages, with fuel for the pages, and the records made of the rows.
-- Azure/Lustre is azure_managed_lustre.py: the discovery, the queries for a filesystem, the
-- normalization of a response (Series, Tables, Normalize), and what a collection makes of the
-- outcomes of its workers, which are a list in the order in which they ended (Outcomes). The
-- clients are the parameter `Client`. Duration is `parse_iso_duration`, whose pattern is read from left to right.
-- Not modelled there: the thread pool, the summaries that are printed,
-- `parse_vmss_parent_from_child_id` and the creation of the clients.
--
-- Pipeline has the theorems from the responses of Azure to what a scrape shows.
--
-- Credentials models credentials.py. Credentials/Chain is the construction: the chain that the mode
-- and the environment choose, with the constructors of azure-identity as the parameter `Identity`,
-- and the environment that it leaves. Credentials itself is `get_token` on such a chain, by one
-- thread. Not modelled: `close`, and the texts of the log.
--
-- Main is main.py. A call that leaves the module is an event, which `World` answers by what has
-- happened before; what `main` opens and closes is read off the events (Main/Ending). Main/Callbacks
-- is what the callbacks of the election do to a pod, with what the pollers and the main thread do
-- meanwhile. Not modelled there: logging, the signal handlers, the command line and the HTTP server.
--
-- Scripts models scripts/lustre_safe_write_budget.py, without its parser of sizes and its
-- printing, and of scripts/av_lustre_workload.py the checks of the roots, the paths and the
-- payloads of the outputs, the choice of the files, the service levels and, in WriteOnly, the
-- loop that fills a directory: its rounds take fuel, two more than the bytes of the target, and
-- the chunks of a file one more than its bytes. Read is the reading of one file, with fuel for
-- its chunks, one more than its bytes; ReadRun is the epochs of `run_read` with what they count.
-- `Paths` stands for pathlib and the file system, `WriteOnly.World` for the paths, the answers of
-- the calls and the signals, `Files` for an open file, `ReadRun.World` for what a read or an
-- output comes to. Not modelled: the walk of the dataset, the discover and verify modes, the printing and the
-- command lines, which are input and output, and scripts/gen_lustre_fill_pvcs.py, which prints
-- manifests for a load test.
--
-- Exporter models collector.py. `Gauges` is the interface of prometheus_client's gauges. A family
-- is the gauges that share label names, with the set of label values kept of them; `update` is the
-- locked update of one, and Vmss, Vm and Lustre are what the three update methods write. State has
-- the exporter itself: a method that takes the lock is one function for each section of the lock,
-- and State/Steps interleaves them with `set_leader`, `stop` and the failures of collections. The
-- polling loops appear as the steps that they take, and State/Poll is the loops themselves, with
-- where each poller stands; State/Once is `collect_once`, with what the other threads do between
-- its sections. Logging is left out.
pub mod Prelude
pub mod LeaderElection
pub mod Models
pub mod Config
pub mod Credentials
pub mod Azure
pub mod Exporter
pub mod Pipeline
pub mod Main
pub mod Scripts
