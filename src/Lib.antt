-- ===== src/Lib.antt =====
-- SDK Local Manager
--
-- SDK Local Manager creates and runs Odoo projects in Docker on one machine: a Python backend
-- (odoo_manager_web.py and the package odoo_manager_core) behind a desktop interface. Everything
-- that takes time is an action: a request of the interface creates a job, the job queue starts it
-- in a thread of its own when no other action uses the same resource, its function writes its
-- output and passes the checkpoints of its control, a request may stop it, and its end withdraws
-- what waited for it when it failed. This library models that core.
--
-- The parts, by file, with the code that each follows:
-- - Prelude and below: shared types, operators and lemmas; Text is a list of code points, Dict an
--   association list in the order of insertion.
-- - CommandOutput: odoo_manager_core/command_output.py. `parse_output_progress` is read by hand, over
--   ASCII letters and digits; a float in 0..1 is a numerator over a denominator. CommandOutput/Errors
--   is the reading of errors, with Prelude/Regex. `extract_odoo_page_error` is not modelled.
-- - JobControl: odoo_manager_core/jobs.py, the class `JobControl` and `mark_docker_arguments`. A
--   control is a record, each section under the control's lock a function on it. Signals sent to
--   processes and containers, and calls of interrupts and reverts, are recorded in `effects`. The
--   tokens of uuid4, the processes that are alive and the answers of the callbacks are arguments.
--   The script that kills inside a container, and the thread-local wrappers, are not modelled.
-- - JobQueue: odoo_manager_core/job_queue.py. The dictionary of jobs is a list in the order of
--   creation, and the module's globals are the record `Queue`. Schedule is `schedule_jobs`;
--   Handlers is `Job.__init__`, `cancel_job` and the forgetting of finished actions; Output is
--   `Job.add`; Ending is the end of `Job.run`, in two parts as the code takes the lock; History is
--   the reading of the history file; Snapshot is what the interface is given. Steps puts the
--   handlers in any order, one step each, which is how the threads of the program take turns.
--   The clock's texts and the JSON coding of the history are arguments or left out, the tick of
--   `jobs_event_loop` is not modelled.
-- - Retention: odoo_manager_core/database_retention.py, how long a client's database stays. A time
--   is a number of seconds. The reading of the registry's file and the trash are not modelled.
-- - Modules: odoo_manager_core/manifests.py, `module_install_plan`, on a graph of entries already
--   read. Its two loops run on fuel: one more than the number of declared dependencies, and one
--   more than the number of candidates; both are proved enough, and the loops then give a result.
-- - Dependencies: odoo_manager_core/module_dependencies.py, `dependency_report`; the fuel of its
--   loop, one more than the number of active modules, is proved enough. Dependencies/Report has the
--   rows that explain the report; its search for causes goes at most twice as deep as there are
--   modules set aside.
-- - DockerEvents: odoo_manager_core/docker_events.py, the loop `_run` that opens `docker events`
--   again after a growing delay, as a function of what happens in each of its turns.
-- - Archives: odoo_manager_core/archives.py, what of an archive of modules is extracted, the name
--   that a module gets from an archive's, and the writing of a request's body (Archives/Uploads,
--   whose loop runs on the announced length, as each round takes a byte). What the file system makes
--   of a name is a parameter. Archives/Backups is the check of a database's backup and the version
--   of Odoo that made it. Archives/Multipart and Archives/Form are `save_multipart_upload`: the state
--   is its buffer, the bytes that remain and the connection; a part is copied to a sink round by
--   round, and each loop has the fuel that what it reads bounds. UTF-8 is a parameter.
-- - Compose: odoo_manager_core/project_service.py, the edition of a project's compose file as text,
--   by lines that keep their ends (Compose/Healthcheck); the outer loop has as many rounds as lines.
-- - Performance: odoo_manager_core/performance.py, what Docker is given of the computer and the
--   settings of PostgreSQL; shares are exact fractions. The reading of the computer and of Docker
--   Desktop's file is not modelled.
-- - Releases: odoo_manager_core/releases.py, on the output of `git ls-remote`. Prelude/Regex is the
--   backtracking reading of the regular expressions.
-- - GitCheckouts: odoo_manager_core/git_checkouts.py. The disk (what files hold, where paths lead) is
--   the record `Disk`, a parameter; so are the listing of loose tags and the reading of info.sdk as
--   JSON. GitCheckouts.antt is `CheckoutFinder`, Refs the files of a Git directory, Addresses the
--   addresses of repositories, Reading the description of a copy.
-- - HttpRoutes: odoo_manager_core/http_routes.py, the templates, routes and router; the reading of a
--   template runs on its length, which is proved enough. `RouteRequest` is not modelled.
-- - JobProgress: odoo_manager_core/job_progress.py, the class of that name. Its numbers are any
--   ordered type with operations of which no law is assumed. The binding to threads is not modelled.
-- - Repositories: odoo_manager_core/repositories.py: the modules that a tree of Git has, sparse
--   checkouts and failed clones; Repositories/Branches has the branches and where to search for
--   modules.
-- - DiskUsage: odoo_manager_core/disk_usage.py, what `du` and Docker print and the images that nothing
--   uses. `compose_image_references` is not modelled.
-- - LogDisplay: odoo_manager_core/odoo_log_display.py, the log of Odoo without the traces of files
--   that are gone already. A summary is its databases and its count.
--
-- Not modelled: the HTTP server and its handlers (odoo_manager_web.py), and what mostly runs Docker,
-- Git, PostgreSQL or the network, or reads and writes the disk (project_service.py but for Compose,
-- project_creator.py, database_restore.py, remote_backups.py, migration.py, traefik.py, iot_box.py,
-- docker_api.py, tls.py, ssh_hosts.py, platform.py, system.py, windows_links.py); of the package's
-- files that compute, data_conflicts.py, config.py, parent_watch.py and events.py.
pub mod Archives
pub mod CommandOutput
pub mod Compose
pub mod Dependencies
pub mod DiskUsage
pub mod DockerEvents
pub mod GitCheckouts
pub mod HttpRoutes
pub mod JobControl
pub mod JobProgress
pub mod JobQueue
pub mod LogDisplay
pub mod Modules
pub mod Performance
pub mod Prelude
pub mod Releases
pub mod Repositories
pub mod Retention
