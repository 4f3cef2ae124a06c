-- ===== src/Lib.antt =====
-- App Mesh: a daemon that runs applications on a host, on timers, by REST requests and as a member
-- of a cluster that is kept in Consul. Paths are from the repository's root.
--
-- The parts and their modules:
-- - Prelude has the names that all modules share, tests on native numbers, lists over those, and the
--   integers with the division of C++ (Prelude/Int). Dict has maps with texts as keys (`std::map`)
--   and sets of texts, as association lists, Dict/Laws their lookups, and Dict/Sorted the order of
--   their keys.
-- - Timer models src/daemon/application/AppTimer.h and .cpp. `AppTimer` is the base class with its
--   subclass as `kind`; `next_time` is the virtual `nextTime`, `adjust_daily_time_range` and
--   `is_in_daily_time_range` are the methods of those names. Timer/Bounds and Timer/Window hold the
--   theorems.
-- - Cluster is about the cluster: its leader matches tasks to hosts (`find_task_available_host`),
--   schedules them (`schedule_task`), and writes what changed to Consul
--   (`compare_topology_and_dispatch`). Cluster/Label and LabelJson are src/daemon/Label.cpp, Cluster/Entity is
--   src/daemon/consul/ConsulEntity.h and .cpp, Cluster/Schedule is src/daemon/consul/Scheduler.cpp,
--   Cluster/Dispatch is the part of src/daemon/consul/ConsulConnection.cpp. Cluster/Rules holds the
--   induction rules of the scheduler's loops, Cluster/Quota, Placement, Capacity, Sync and Keyed the
--   theorems.
-- - Consul is the rest of src/daemon/consul/ConsulConnection.cpp that is modelled. Consul/Lead reads
--   tasks, nodes and topologies and has `do_schedule`, the leader's cycle over Cluster; Consul/Read
--   and Cycle hold its theorems. Consul/Follow has `sync_topology`, by which a host follows its
--   topology: it calls `add_app` and `remove_app` of Registry, and Consul/Apps has the comparison of
--   applications and what an application is after it was written as JSON and parsed. `offline_node`
--   takes a host out of the cluster. `host_topology` is what a host reads of the store.
--   Consul/Settled, Synced, Host, Offline and Converge hold the theorems, Converge that of a leader
--   and a host together. Consul/Session has the session of a host (`request_session_id`,
--   `renew_session_id`, `refresh_session`) and the election of the leader (`election_leader`,
--   `sync_schedule`), and Consul/Elected and Alive their theorems.
-- - Snapshot models src/daemon/PersistManager.cpp: `capture_snapshot`, `persist_snapshot`, and the
--   JSON of a snapshot by `as_json` and `from_json`, with the recovery (`recover`) in
--   src/daemon/main.cpp. Snapshot/RoundTrip, Recovery and Saving hold the theorems.
-- - Application models the life of an application: src/daemon/application/Application.cpp and
--   AppBehavior.cpp, with the timers of src/daemon/TimerHandler.cpp that are for it.
--   Application/State has the state and the small operations, Application/Actions `execute`,
--   `spawn`, `disable`, `destroy`, `run_app`, `attach` and what they call, by the names of the methods. What a process
--   can do (AppProcess) is the record `Processes`. Application/Behavior has the JSON of the
--   behaviour on exit. A stopped application is one whose current process (m_process) does not run:
--   the buffer process is a field of its own. Frames, Stop, Launch, Lifetime and Exits hold the theorems; Lifetime has the
--   step relation. An application uses Timer for its next launch.
-- - Config models readConfigFromEnv of src/daemon/Configuration.cpp, by which environment variables
--   override the configuration: `read_config_from_env`, `apply_variable` for one variable, and
--   `apply_env_config`. The values are `Json` of Snapshot. Config/Override and Effects hold the
--   theorems.
-- - Duration models src/common/DurationParse.cpp: `parse` and `compose` by their names, the regular
--   expressions as a reader of parts. Duration/Digits, Parts and RoundTrip hold the theorems.
-- - LogFiles models the queue of output files in src/daemon/application/AppUtils.cpp, and
--   LogFiles/Shift what a new file does to the others.
-- - Text models the trimming and the prefixes of src/common/Utility.cpp, and Text/Trim what trimming
--   does. Text/Search has stringReplace, splitString, unEscape and endWith, and Text/Replace the
--   loops of the first two against single passes.
-- - Security models users, roles and requests. Security/Model is src/daemon/security/Role.cpp,
--   User.cpp and Security.cpp: `Security` is JsonSecurity, and an exception is `throws` of
--   `Outcome`. Security/Access is src/daemon/rest/RestBase.cpp, Security/Api the handlers of
--   src/daemon/rest/RestHandler.cpp with `handle` for their binding to requests, and Security/Owner
--   the check of an application's owner in src/daemon/Configuration.cpp. Security/Session has the
--   login and the check of a token. Security/Saved has the JSON of users and roles (AsJson and
--   FromJson by `security_as_json` and `security_from_json`), Stored the files and Consul's copy
--   (`save`, `save_security`, `sync_security`). Login, Roles, Guards, Effects, Issued, ReadRoles,
--   RoundTrip, Stored and Dangling hold the theorems.
-- - Transport models the REST service as a process of its own: src/daemon/rest/HttpRequest.cpp
--   (Transport itself), RestChildObject.cpp and RestTcpServer.cpp (Transport/Process), and
--   `handle_rest` with what it takes out of requests, src/daemon/rest/RestBase.cpp
--   (Transport/Dispatch). Transport/Link has the two processes as one step relation, in which
--   messages and replies come in any order; requests under /appmesh/file are not forwarded, and are
--   handled in the child process, which is no step of it (`receive_request`). Wire, Pieces, Headers, Arrivals, Linked, Answered,
--   Entities and Defended hold the theorems.
-- - Registry models the applications of src/daemon/Configuration.cpp (`add_app`, `remove_app`,
--   `get_app` and so on by the names of the methods) and the handlers of
--   src/daemon/rest/RestHandler.cpp that enable, disable and delete them: it uses Application for
--   their state, and Security for the permissions. Registry/Adding has the handler that adds them
--   (`api_app_add`), where the JSON of an application is given by its name and what
--   Application::FromJson makes of the rest. Its name is the one that was
--   read, trimmed once, and FromJson trims it again. Registry/Running registers an application that a
--   request runs (`parse_and_reg_run_app`). Registry/Names, Removal, Access, Adding, Unchecked and
--   Running hold the theorems.
--
-- Numbers are native naturals. Time points are nanoseconds since the epoch; sizes in bytes are
-- 64-bit and wrap around. Loops are over finite maps and lists. `std::to_string` has fuel, the
-- number's successor, which Duration/Digits proves to be enough; the loops of stringReplace and
-- splitString have fuel, for which more than the length of the text is enough if the text to search
-- for is not empty.
--
-- Parameters of the model: processes and the ids that the reactor gives to timers, the wildcard
-- matcher (src/common/wildcards), the next time of a cron expression (src/common/croncpp.h), the
-- readings of the clock, the table of processes (`os::status`), whether two pointers to users are
-- equal, whether a file could be written, the answers of Consul (`request`), streams of ACE (`Cdr`),
-- the regular expressions of Boost, the parser and the printer of JSON, what handlers answer to a
-- request (`Answers`), and `Outside`: the hash of a text, the decoding of base64 and of JSON web
-- tokens, their signing (`create`) and verification, the identifier of `createUUID`, `std::stoi`,
-- `std::atoi`, `std::tolower`, and the search of a path for a regular expression.
--
-- Not modelled: JSON texts, and the JSON of configurations, tasks and nodes, other files,
-- logging, metrics, locks, the HTTP and TCP transport, control groups, Docker and LDAP, which are
-- input and output or calls of other libraries.
pub mod Prelude
pub mod Dict
pub mod Duration
pub mod Timer
pub mod Application
pub mod Cluster
pub mod LogFiles
pub mod Text
pub mod Security
pub mod Registry
pub mod Consul
pub mod Config
pub mod Snapshot
pub mod Transport
