-- ===== src/Lib.antt =====
-- Nexus MainFrame: a home automation hub in C++. Devices and rooms are kept in registries behind
-- services; an event bus joins the parts; an MQTT client, a WebSocket server, an HTTP API and loadable
-- modules talk to the world. The Chromecast module speaks the Cast protocol over TLS.
--
-- Files of this library, and the code they model (paths from the repository's root):
--   Common: lists, strings of bytes, ordered maps, bits; no code of the program.
--   Cast/Proto: modules/NexusChromecastModule/src/cast/CastProto.cpp, the wire format of Cast
--     messages: `encode_cast_message` and `decode_cast_message` with the varints below them.
--   Cast/Socket: TlsSocket.cpp beside it: `recv_all` and `send_all` over chunks.
--   Cast/Channel: CastChannel.cpp beside it: frames, `read_message`, and the receiving thread
--     `receive_loop`.
--   Cast/Device: CastDevice.cpp beside it: the session (`CastDevice`), the commands in
--     Cast/Device/Control and the status messages in Cast/Device/Status.
--   Cast/Module: modules/NexusChromecastModule/src/ChromecastModule.cpp: `handle_command`, the table of
--     devices, and the events that are published.
--   Event/Bus: src/event/EventBus.cpp. Event/Trigger: src/trigger/EventTrigger.cpp and
--     src/task/EventTask.cpp.
--   Mqtt/Client: src/mqtt/MQTTClient.cpp. Mqtt/Service: src/services/MqttService.cpp.
--   Ws/Topics and Ws/Service: src/services/WsService.cpp. Ws/Server: src/server/WsServer.cpp.
--   Home/Devices: src/devices. Home/Rooms: src/rooms/RoomRegistry.cpp. Home/DeviceService,
--     Home/RoomService: the services of these names in src/services. Home/Result:
--     src/result/Result.cpp. Json: what the program uses of the JSON library, as an interface.
--   Http/Endpoint: src/server/Endpoint.cpp. Http/Server: src/server/HttpServer.cpp: the routes.
--   Http/Mcp, with Http/Proxy and Http/Strings: src/mcp/McpServer.cpp: `dispatch` of JSON-RPC, and the
--     request that the call of a tool becomes.
--   Home/DeviceController, Home/RoomController: the handlers in src/http/controllers.
--   App: NexusMainFrame.cpp: `run`, with the services and their order. App/Scheduler:
--     src/scheduler/Scheduler.cpp.
--   Paths: src/paths/PathResolver.cpp (the class PathManager), and `initPaths` of NexusMainFrame.cpp.
--   Config, Config/Controller: src/config/NexusConfig.cpp, and ConfigController.cpp.
--   Modules/Manager: src/modules/ModuleManager.cpp. Modules/StateFile: src/modules/ModuleStateStore.cpp.
--   Modules/Loader: src/modules/ModuleLoader.cpp and src/modules/Module.cpp.
--   Modules/Service, Modules/Controller: ModuleService.cpp in src/services, and ModuleController.cpp.
--   Logs/Broadcaster: src/logging/LogBroadcaster.cpp.
--
-- How the parts interact: the MQTT client publishes what it receives on the bus, where the services
-- subscribe; a trigger holds a subscription of a task; the Chromecast module takes its commands from the bus and
-- publishes what its devices report. The models share the type `EventBus` for that. The MCP server reads
-- the endpoints of the HTTP server, and both models share them. The controllers call the services of the
-- home, whose files stand under the paths that the application registers.
--
-- Conventions. A byte, a size and an id are numbers; wrap-around is written out where the code's
-- arithmetic can wrap. A string is a list of bytes. A socket is a script of what the operating system
-- answers, with the bytes written so far. What the code throws, and a read outside a buffer, are
-- values of a result. A callback is a handle, and running it is a parameter. Methods that hold a mutex
-- are steps that come one after another.
--
-- Fuel: `decode_loop` has one round for each byte, and each round reads one; `receive_loop` of the
-- channel spends one on each message, and one to see the end. `write_varint_loop` recurs on the
-- order of numbers. `recv_int` of the WebSocket server has one round for each byte that is asked for.
-- The loop of the application runs on as many rounds as it is given.
--
-- Not modelled: threads and mutexes beyond the above, log output, the system calls that open sockets,
-- the TLS handshake, the libraries (JSON, HTTP, OpenSSL), the typed provider of configurations, the
-- list of the modules, the routes of the log, the choice of paths for a platform, the Windows hosts
-- and the command line.
pub mod Common
pub mod Json
pub mod Config
pub mod Cast
pub mod Event
pub mod Mqtt
pub mod Ws
pub mod Home
pub mod Http
pub mod Modules
pub mod Logs
pub mod Paths
pub mod App
