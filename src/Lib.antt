-- ===== src/Lib.antt =====
-- A model of the network service of a mesh router: a daemon that takes requests over MQTT, keeps
-- its settings as JSON files, applies them with shell commands (ip, iptables, uci) and talks to the
-- daemon of the mesh with text commands.
--
-- The parts and their files:
--   Common          shared names: Boolean tests, lists and `int` over the native numbers, C strings
--                   as lists of bytes (strcmp, strstr), options.
--   CJson           cJSON, a library that is not in the repository, as a record of its calls with
--                   its documented behaviour as laws (CJson/Base); CJson/Object, Array and Nested
--                   are the ways in which the program writes and reads members; CJson/Tree is an
--                   implementation that shows that the laws hold together.
--   World           what a computation may change: the files, the lock of src/utils/file/file.c, the
--                   commands that the shell was given, the messages that were published. A `Cmd` is
--                   a function of the world that ends or stops: at a lock that is never given back,
--                   past a buffer, at a NULL or wild pointer, at memory that was given back, or where
--                   a loop of the model has no fuel left.
--   Utils           src/utils: File (file.c), Shell (cmd/cmd.c), Uci (uci/app_uci.c), Uuid
--                   (uuid/uuid.c, with libuuid as a parameter).
--   Config          src/config.h and the readers of the environment of src/utils/dotenv/dotenv.c.
--   ErrorCode       src/api/error_code/error_code.h; Api/Errors is error_code.c.
--   Settings        a setting file that is loaded with read_data and cJSON_Parse and saved with
--                   cJSON_Print and write_data, as each component does.
--   Network/Route   src/core/network/route: Codec (conversions), Ops (the operations), and one
--                   module for what each operation leaves behind.
--   Network/Iptables  src/core/network/iptables: Codec and RoundTrip (iptables_struct.c), Rules
--                   (iptables_basic.c, iptables_common.c), Reload (the reload functions and
--                   iptables.c), Refresh (what a refresh runs), Forwarding (iptables_dnat_pf.c),
--                   Services (iptables_nova_port.c and iptable_dnat_dmz_update), Dmz.
--   Network/Lan, Wan, Wlan  src/core/network/lan, wan and wlan.
--   Network/Dhcp    src/core/network/dhcp/dhcp.c: Codec (conversions), Apply (dns_set, dhcp4_set and
--                   dns_dhcp_set), Hosts (the loop that deletes the hosts), Set and Clients (the
--                   commands that they run), Stores, Reload (what is read back), Lease
--                   (dhcp_lease_get). Utils/Uci/Runs is the calculus of operations that run a known
--                   list of commands.
--   Emt             src/core/mesh/core/emt_cmd.h and emt_cmd.c: Actions (the enumerations), Tables
--                   (the tables of words), Command (create_cmd), Command/Decode (the reader that a
--                   command is compared with).
--   Mesh/Device     src/core/mesh/topology/device.c: a device and its JSON.
--   Mesh/Topology   src/core/mesh/topology/topology.c: the list of devices in its file; Topology/Kept,
--                   Listed and Marked are what its changes leave behind.
--   Mesh/Setting    src/core/mesh/setting/mesh_setting.c: the settings, their JSON, the work mode.
--   Mesh/Quality    src/core/mesh/quality/quality.c: the quality of the links and its JSON.
--   Api/Name        the name of an answer, of src/api/message/message_struct.c, over Utils/Split
--                   (src/utils/split/split.c).
--   Api/Message     requests, answers, the union of their data and their JSON, of message_struct.c.
--   Api/Dispatch    src/api/message/message_handler.c: the table of handlers and the choice.
--   Api/Handler     what the handlers share: the answer, its error, the members of the union,
--                   mqtt_publish_message of src/api/mqtt/mqtt_handler.c, restart_service;
--                   Handler/Answer is what is published.
--   Api/Network     the handlers of src/api/network, and what they answer (Network/Answers).
--   Api/Mesh        handlers of src/api/mesh/mesh_handler.c: request_mesh, update_mesh and
--                   update_mesh_devices, and ezm_deamon_is_running of src/core/mesh/core/emt.c over
--                   what libcurl answers.
--   MqttBridge      src/config/mqtt_bridge/mqtt_bridge.c: the bridges in the configuration of the
--                   broker; MqttBridge/Client is what the bridge to the controller leaves there,
--                   MqttBridge/Refined its operations as those of a switch.
--   Tests           concrete inputs for the results.
--
-- How the parts meet: each component of the network loads and saves its list through Settings, which
-- goes through the lock of Utils/File; the firewall reloads all three of its files after a change. A
-- message is given to a handler by its name; the handler reads it as a request, runs an operation of
-- a component, looks its code up in the tables of errors and publishes the answer.
--
-- Conventions: a `char *` that may be NULL is an `Option` of a text; a list with its length is a
-- list, except in route_delete, where the buffer and the length are kept apart because the code
-- lets them differ; sprintf into a buffer stops at the buffer's size; app_strstr matches an
-- identifier that contains the stored one. Loops are structural recursions, so no fuel is needed,
-- but for the loop that deletes the hosts of the configuration: it takes fuel, and more fuel than
-- there are hosts is enough. A command of the shell changes the list of commands only, but for
-- the `rm` of the broker's configuration, which removes the file; what the calls of fgetc find on
-- the pipe of a command, a byte or nothing yet, is a parameter of the world, and execl_timeout
-- collects it as the code does. What a counter holds that read_line leaves unset, and what
-- libcurl answers, are parameters. The number that dns_set leaves, which has no return statement,
-- and what strtok goes on with when it is given NULL are parameters;
-- cvt_msg_request_to_msg_respond, which has none either, is taken to return the answer that it
-- has made. popen is taken to succeed and memory to be available; the release of memory, but for
-- the name of a message that is read again, logging and threads are not modelled. Not modelled
-- either: the rest of the MQTT connection, the socket of the mesh daemon and the parser of its
-- answers, the pairing of devices with its timers, the start of the program, and the copies of
-- other projects under src/utils and lib.
pub mod Common
pub mod CJson
pub mod World
pub mod Utils
pub mod Config
pub mod ErrorCode
pub mod Settings
pub mod Network
pub mod Emt
pub mod Mesh
pub mod Api
pub mod MqttBridge
mod Tests
