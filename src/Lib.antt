-- ===== src/Lib.antt =====
-- A model of the fleet management service: what its requests, its background job and its telemetry
-- worker do to the database, to Redis and to each other.
--
-- The parts. An HTTP request runs one service function in one session of the database. The rental
-- service moves vehicles between stations, which the station service counts. The consent service
-- keeps one row for each user and purpose with an append-only history, and its gate is asked by
-- the marketing service before anything that depends on a consent. The erasure service calls the
-- consent service in its own transaction, and every refusal and erasure leaves an entry of the
-- audit service. Beside the requests the telemetry worker stores the readings of vehicles and
-- keeps the last state of each in Redis, and the vehicle-state service answers from there, with
-- retries, or from the stored readings.
--
-- The files, with the code that each models (paths from the repository's root):
--   Prelude, Prelude/Tests, Prelude/Lists, Prelude/Int: Boolean tests, tables as lists, integers.
--   Models and its children: the row types of src/fleet_management/models.
--   Session: the session of a request and src/fleet_management/exceptions.py.
--   Station: src/fleet_management/services/station_service.py.
--   Rental and its children: src/fleet_management/services/rental_service.py. Rental has
--     calculate_cost, start_rental and end_rental; Rental/Race cuts start_rental where another
--     request can run; Rental/Eligibility and Rental/Discount have the rule tables, and
--     Rental/Discount/Legacy the ladder of tests/unit/test_discount_equivalence.py.
--   Consent and its children: src/fleet_management/services/consent_service.py.
--   Audit: src/fleet_management/services/audit_service.py.
--   Marketing and its children: src/fleet_management/services/marketing_service.py.
--   Erasure and its children: src/fleet_management/services/erasure_service.py.
--   Resilience and its children: src/fleet_management/resilience.py.
--   Telemetry and its children: src/fleet_management/telemetry/schemas.py,
--     src/fleet_management/telemetry/processor.py and src/fleet_management/telemetry/worker.py
--     (Telemetry/Worker has its connection, Telemetry/Contract and Telemetry/Outcomes the ends
--     of one delivery, and Telemetry/Redelivery a message and its deliveries).
--   VehicleState and its children: src/fleet_management/services/vehicle_state_service.py.
--   Account and its children: src/fleet_management/services/user_service.py,
--     src/fleet_management/security.py, src/fleet_management/auth.py and the login of
--     src/fleet_management/api/auth.py; Account/Command: src/fleet_management/cli.py.
--   ListCache and its children: read_through_json and invalidate of src/fleet_management/cache.py.
--   RentalRoutes and its children: src/fleet_management/api/rentals.py and
--     src/fleet_management/api/me.py.
--   Export and its children: src/fleet_management/services/export_service.py and the sections of
--     src/fleet_management/schemas_privacy.py.
--   PrivacyRoutes and its children: src/fleet_management/api/privacy.py.
--   Registration and its children: src/fleet_management/api/stations.py,
--     src/fleet_management/api/vehicles.py, src/fleet_management/api/renters.py and
--     src/fleet_management/api/admin.py.
--   Config and its children: src/fleet_management/config.py.
--   App and its children: src/fleet_management/main.py, and the answers of the rental routes.
--   Privacy and its children: src/fleet_management/privacy (Privacy/Records has sanitize_record of
--     src/fleet_management/privacy/logging_setup.py, and Privacy/Handlers its configure_logging).
--   Simulator and its children: src/fleet_management/telemetry/simulator.py.
--   LoadReport and its children: loadtest/report.py.
--   System and its children: the requests and the marketing job together, as a relation between
--     states of the database with what holds in every state that it reaches; System/View has the
--     fleet as its users see it and its moves, and System/Refines leads from the one to the other;
--     System/Accounts and System/Finality follow the account rows.
--   Samples and the Samples modules of Account, Telemetry and Erasure: data for the tests; the
--     Tests modules apply the results to it.
--
-- How the code corresponds. A service function of Python is a function of the same name from the
-- committed tables to a result and the committed tables; an exception is a value, and what was
-- committed before a raise stays. What a session stages is written at its commit, where the
-- constraints of the schema that can fail are tested (a foreign key, a unique column), and a
-- refused commit changes nothing. Row ids, moments and random values come from outside: a function
-- is given the i-th reading of the clock and the i-th id of each table. Ids and moments
-- (microseconds) are natural numbers, amounts are whole cents, and the hours of a trip are
-- millionths of an hour. Of the widths of columns only that of the vehicle id in a telemetry
-- message is modelled; the other ids are taken to fit. Where other sessions can commit in the
-- middle of a call, the call is cut there or takes their changes as a function. Floats of
-- telemetry, the texts of numbers and moments, hashing, JWT and the JSON reader stand as
-- parameters with the round trips that the code relies on. A run that asyncio.wait_for cuts off
-- can end later than its timeout, by an amount that is a parameter. Loops run over lists or over
-- the attempts of a policy, so no fuel is used. A step of System is one request that nothing runs
-- beside; where two requests meet, Rental/Race, Consent/Keys and ListCache say what can happen.
--
-- Floats, random numbers and the functions of math are parameters of the simulator, the floats of
-- `percentile` are one of the load test report, and the engine of regular expressions one of the
-- sanitizer; the one pattern that is modelled by itself is that of correlation ids.
--
-- Not modelled: the web pages, the engine of the database, the layout of a line in the log, the
-- charts of the load tests, the scripts and the deployment files; SQLAlchemy, Redis, RabbitMQ,
-- pydantic and FastAPI are third-party.
pub mod Prelude
pub mod Models
pub mod Session
pub mod Samples
pub mod Station
pub mod Rental
pub mod Config
pub mod Consent
pub mod Audit
pub mod Account
pub mod Marketing
pub mod Erasure
pub mod Resilience
pub mod Telemetry
pub mod VehicleState
pub mod ListCache
pub mod RentalRoutes
pub mod Export
pub mod PrivacyRoutes
pub mod App
pub mod Simulator
pub mod LoadReport
pub mod Privacy
pub mod Registration
pub mod System
