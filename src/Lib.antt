-- ===== src/Lib.antt =====
-- The restock system (backend): the calculation that turns order lines and stock into quantities to
-- restock per country and warehouse, and the queue that runs its tasks.
--
-- Parts and files:
-- - Common: shared types and lemmas. Common/Int has the integers, Common/Maps the dictionaries in
--   insertion order, Common/Sorting the stable sort, Common/Strings what the code uses of `str` over
--   code points, Common/Floats the operations on floats.
-- - Core/Countries: backend/app/core/countries.py, backend/app/core/restock_regions.py and
--   `apply_eu_mapping` of backend/app/core/country_mapping.py.
-- - Engine/Context: backend/app/engine/context.py, the maps per sku and country, and the double loop
--   by which steps 2 and 3 fill them.
-- - Engine/Velocity, Engine/SaleDays, Engine/CountryQty, Engine/Total, Engine/Urgency: the functions of
--   steps 1, 2, 3, 4 and 6 (backend/app/engine/step1_velocity.py, step2_sale_days.py,
--   step3_country_qty.py, step4_total.py, step6_timing.py), under their names.
-- - Engine/Warnings: backend/app/engine/warnings.py and backend/app/engine/restock_dates.py.
-- - Engine/Zipcode: backend/app/engine/zipcode_matcher.py; `hits` and `scan` are the loop of
--   `match_warehouses`, `visit` its body.
-- - Engine/Fraction, Engine/Allocate, Engine/Split: step 5,
--   backend/app/engine/step5_warehouse_split.py. Engine/Allocate has `_allocate_by_weights` and
--   `_allocate_even`, Engine/Split the tally of the orders and `explain_country_qty_split`.
-- - Engine/SkuMapping: backend/app/engine/sku_mapping.py. Engine/SkuMapping/Shares has the shares of skus
--   in the stock of a component, Engine/SkuMapping/Assembly the stock of assembled skus,
--   Engine/SkuMapping/Rules the loops over the rows of the tables.
-- - Engine/Runner: backend/app/engine/runner.py and backend/app/engine/calc_engine_job.py.
--   Engine/Runner/Config has the configuration and the filters, Engine/Runner/Inputs
--   `_build_calculation_inputs_snapshot`, Engine/Runner/Items the loop over the skus, Engine/Runner/Run
--   the tables, `run_engine` (in the pieces `run_with`, `run_checked`, `finish_run`) and
--   `calc_engine_job`.
-- - Core/Permissions: backend/app/core/permissions.py and backend/app/tasks/access.py.
-- - Core/PermissionCache: backend/app/core/permission_cache.py, the methods as steps on the store.
-- - Core/RateLimit: backend/app/core/rate_limit.py, `admit` being `dispatch` behind the pruning.
-- - Services/PhysicalItems: backend/app/services/physical_item.py, the skus that share their stock.
-- - Services/ThirdParty: backend/app/services/third_party_inventory.py. Parse is the workbook, Import
--   the preview and the cancelling of a batch, Confirm its confirmation, Current the edits of the
--   stock, Steps the sequences of calls.
-- - Services/OrderEdit: backend/app/services/order_edit.py. The file has the choice of fields,
--   Normalize the new values of an order, Workbook the rows of a workbook, Apply the update.
-- - Services/Snapshots: the exports of a suggestion (backend/app/api/snapshot.py), each in two commits,
--   and the archiving and deletion of suggestions (backend/app/api/suggestion.py). Validate has the
--   checks, Steps the commits as steps.
-- - Tasks/Table: the table `task_run` (backend/app/models/task_run.py) with its partial unique index.
-- - Tasks/Queue: `enqueue_task` (backend/app/tasks/queue.py).
-- - Tasks/Worker: the statements of backend/app/tasks/worker.py and backend/app/tasks/reaper.py.
-- - Tasks/Cleanup: the cancellation of a task (backend/app/api/task.py) and the deletion of old rows
--   (backend/app/tasks/jobs/retention.py), a statement each.
-- - Tasks/Execution: `_execute` of the worker, and the statements of all sessions as a step relation.
-- The engine reads the results of queries, which are arguments here, and runs as a task of the queue.
-- The split uses the matcher, steps 1 to 3 the test for reportable country codes. A run takes the
-- results of steps 1 and 2 and of the loaders as given (`Loaded`), and itself composes steps 3, 4, 5
-- and 6, the warnings, the kept inputs and the saving of the suggestion.
--
-- Conventions: an exception is `none`, or a value of a type of errors in the queue. Integers that can
-- be negative are ℤ, quantities behind a test for positive ones ℕ. A set that the code runs through is
-- a list, with its order as an argument. The tables of Unicode and the floats of the interpreter are
-- parameters; where a theorem needs something of them, that is one of its hypotheses. A time is a
-- number of seconds, a date a number of days.
--
-- Bounds: the decimal digits of an id are written with one round more than its value, which is enough
-- as each round divides by ten. The amounts of third-party stock are refused where they do not fit four
-- bytes, and postal codes where they have more than 50 characters. `enqueue_task` makes three attempts, as the code does. All other
-- loops are recursion on their list.
--
-- Not modelled: the queries themselves, logging, the asyncio loops that poll, the HTTP API, the
-- synchronisation with Saihu, the editing of orders one at a time, the editing of suggestions and
-- the workbooks of exports, accounts and tokens. The lock that makes runs of the engine follow each
-- other is not modelled: a run is one step, and its job turns the generation off in a second one. Of
-- the reports of progress, only those that raise between these two, or in the update of orders, are
-- modelled. Other texts than a postal code are taken to fit their columns. An integer too large for a float, and an insert that
-- fails for another reason than the index, are left out.
pub mod Common
pub mod Core
pub mod Engine
pub mod Services
pub mod Tasks
