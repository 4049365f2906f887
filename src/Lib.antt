-- ===== src/Lib.antt =====
-- The text-to-speech service: a shallow embedding of the daemon and of the client library, and the
-- theorems on them.
--
-- The daemon keeps a table of clients, each with a queue of texts and a queue of synthesised sounds
-- (server/ttsd_data.cpp), hands texts to an engine and queues what comes back (server/ttsd_server.cpp),
-- plays the sounds through one libmm-player handle for each client (server/ttsd_player.cpp), and tells
-- the clients over D-Bus (server/ttsd_dbus.c). A client is a process that uses the library of client/:
-- each of its handles has a state, which the daemon's messages and the application's calls change. Only
-- one client is meant to play at a time. Everything runs on one main loop: requests, results, messages of the sound library and timers are steps of it.
--
--   Types      the enumerations, error codes and records of server/ttsd_data.h, server/ttsd_main.h and
--              server/ttsp.h. `Store` is `g_app_list` and `g_setting_list`.
--   Data       server/ttsd_data.cpp, one function for each of its functions, with the prefix
--              `ttsd_data_` (or `ttsd_setting_data_` in Data.Setting) left off. Data.Foreach has
--              ttsd_data_foreach_clients.
--   Platform   what the daemon calls and this model does not define, as parameters with no condition on
--              what they answer: libmm-player, files, D-Bus, memory, and behind their headers the engine
--              agent, the network and the configuration.
--   Daemon     all globals in one record: the tables, the statics of server/ttsd_player.cpp and of
--              server/ttsd_server.cpp, the timers that wait, and the state of what is outside.
--   Action     functions on that state in do blocks, and the rules for invariants.
--   Dbus       the messages of server/ttsd_dbus.c.
--   Player     server/ttsd_player.cpp; its list of players is in Player.Items, the names and headers
--              of sound files in Player.File, the messages of libmm-player and ttsd_player_all_stop in
--              Player.Messages.
--   Server     server/ttsd_server.cpp: the synthesis functions; Server.Client the requests of clients,
--              Server.Callbacks the callbacks and timers, Server.Setting the requests of setting clients, and
--              Server.Queries the requests that only ask the engine agent.
--   DbusServer server/ttsd_dbus_server.c and the dispatcher of server/ttsd_dbus.c: a request is read from
--              the arguments of a message (Wire, common/tts_defs.h), run, and answered with a message.
--   Engine     server/ttsd_engine_agent.c: Engine.Current the list of engines and the current one,
--              Engine.Voices the choice of a voice, Engine.Synthesis and Engine.Settings what is passed to
--              the engine. Its own parameters are the dynamic linker, the engine, the directories and the
--              configuration. The daemon's model takes the agent as a parameter of its own (Platform).
--   Client     client/tts_client.c, the handles of a process that uses the library and their uids;
--              Client.Link client/tts_dbus.c, the connection and the requests, and Client.Listener its
--              listener; Client.Api the calls of client/tts.c, and Client.Notify its callbacks. The globals
--              of the library are the record `Library`.
--              Client.Steps is a process that uses the library, as a step relation; Client.Settled what holds
--              between its steps; Client.Machine the state machine that the code follows, Client.Find the
--              search of the list of clients, Client.Utterance the ids of utterances.
--   SettingClient  client/tts_setting.c and client/tts_setting_dbus.c, the library of the applications that
--              change the settings: SettingClient.Requests the requests, SettingClient.Calls the calls,
--              SettingClient.Lifetime the abstract library, which is ready or not.
--   System     the library and the daemon together, on a bus that delivers every message;
--              System.Settings the library of setting clients and the daemon.
--   Steps      the main loop as a step relation over all of these.
--   Invariant  well-formedness, function by function; Outcome, what a request leaves behind, and
--              Outcome.Late what becomes of results after a stop.
--   Sample     a concrete platform and state for the examples.
--
-- A C `int` is an integer that no function here lets overflow: uids, pids and utterance ids are only
-- copied and compared, but for the uid that client/tts_client.c computes, which wraps around at 32 bits.
-- `g_index` is bounded by the code, and the fields of a wave header are cut to their width. The loops of
-- ttsd_data_clear_data are on fuel, one more than the queue is long: each round takes one entry off, and
-- the last finds none. The digits of a number are on fuel too, one more than the number, which a round
-- divides by ten. A read outside the table of clients is `none`, and so is a call that waits for ever. Pointers
-- into the list of players are the uid of the player. Memory that is allocated and freed is not modelled, except
-- that g_malloc0 may fail for an utterance record. The flag g_mutex_state of ttsd_data_set_client_state is
-- left out: every way out of that function clears it, no other touches it, and the daemon has one thread.
--
-- In the library, a tts_h is the number of its handle, or `none` for NULL, a pointer to a result is a Boolean
-- that says whether it is there, and a callback is a number for the function and its user data. The
-- application's callbacks may change what is outside. In the step relation they do not call the library
-- again; what tts_destroy does when one of them calls it is stated of the state in which they run. A timer of a
-- handle that was destroyed looks it up by its number, where the code reads memory that was freed. A read
-- behind the end of a message is `none`. An engine is taken to name itself: its uuid, name and path are not
-- NULL. The default language of the engine agent is set when it is initialised, and there is a current engine
-- when it is changed.
--
-- Not modelled: the configuration and the network (server/ttsd_config.c, server/ttsd_network.c), which are
-- parameters; opening and closing the daemon's connection to the bus, and the main program
-- (server/ttsd_main.c), which are input and output; ttsd_engine_agent_release; the search of the process table
-- and the start of the daemon at the end of client/tts.c and of client/tts_setting.c, a parameter.
pub mod Prelude
pub mod Types
pub mod Wire
pub mod Data
pub mod Action
pub mod Platform
pub mod Daemon
pub mod Dbus
pub mod DbusServer
pub mod Player
pub mod Server
pub mod SettingClient
pub mod Engine
pub mod Invariant
pub mod Outcome
pub mod Steps
pub mod Client
pub mod System
pub mod Sample
