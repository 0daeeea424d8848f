-- ===== src/Lib.antt =====
-- rkvm shares the keyboards and mice of one machine, the server, with the screens of others, the
-- clients. The server grabs the input devices, and its router decides for each event which output
-- receives it: the server's own virtual device (route 0) or a client (route i + 1 for the client at
-- index i). A chord of switch keys moves to the next output. Each output has a virtual device for
-- each input device, and a writer puts the events on it.
--
-- The files and the code they model:
--
-- - Input.Key, Input.Key.Keys, Input.Key.Buttons and Input.Event: the events and keys of
--   rkvm-input/src/event.rs, key.rs, key/keyboard.rs, key/button.rs, rel.rs, abs.rs and sync.rs.
-- - Input.Codes: the constants of the kernel headers that those files name, a constructor for each.
--   Their numbers are generated by the build, and stand in the record `Glue`, a parameter.
-- - Input.Convert and Input.Key.ToRaw: the `to_raw` methods of the same files, a clause for each
--   arm. Input.Decode and Input.Key.FromRaw: the `from_raw` functions, with the list of their arms,
--   which the first arm whose constant has the number of the code decides.
-- - Input.Writer: rkvm-input/src/writer.rs. A call of libevdev that writes an event is an `Outcome`
--   (written, would block, failed), and an operation takes the list of the outcomes to come. It
--   returns `none` only where that list ends too early; an outcome that answers for each event is
--   enough, and each repetition after a write that would block consumes one outcome. The theorems
--   on it are in Input.Writer.Frames and Input.Writer.KeyState.
-- - Input.Interceptor: `read` and `read_frame` of rkvm-input/src/interceptor.rs, on a list of the
--   raw events that the device has to read and a list of the outcomes of the writes; a call waits
--   where a list ends. An error of `writer_mut`, which ends the call like a failed write, is left
--   out. Input.Interceptor.Frames and .Whole are on the frames, .Tables on the arms of `from_raw`
--   beside those of `to_raw`, and .Readback on events that are written and read back.
-- - Input.Device, Monitor.Policy, Monitor.Candidate, Monitor.Inventory, Monitor.Claims and
--   Monitor.Loop: rkvm-input/src/monitor.rs, the candidates with their states, the refresh of the
--   inventory, the order of the claims, and the rounds of the loop. What a scan of the directory
--   finds, how a claim ends (`Claim`), the time and the file system are arguments of a round. The
--   policy is one of groups in the theorems on the whole loop. Monitor.Lives specifies the events
--   of an activation. Monitor.Labels, Monitor.Orderly, Monitor.Refresh, Monitor.Claimable,
--   Monitor.Claiming and Monitor.Run are on the order that every round keeps, Monitor.First and
--   Monitor.Choice on the rule and the candidate that are chosen, Monitor.Timing and
--   Monitor.Releases on deadlines and releases.
-- - Config.SwitchKeys, Config.Bindings and Config.Devices: rkvm-server/src/config.rs, and from
--   main.rs and server.rs the conversion and the check of the configuration. Config.Names,
--   Config.Chords, Config.Accepted and Config.Fits are on them.
-- - Routing.Router: the types and methods of rkvm-server/src/routing.rs, each method that mutates
--   the router as a function to the new router. Routing.Frame is the loop of `process_frame`, cut
--   at the branches of its body, and Routing.Flush is `flush_events`.
-- - Routing.Outputs: an abstract view of the outputs, the keys that are down for each route and
--   device, and how an action changes it. Routing.Writers ties it to the writers.
-- - Routing.Invariant states when a router is sound for the outputs. Routing.Held, Routing.Keys,
--   Routing.Switch, Routing.Sound, Routing.Branches, Routing.Process, Routing.Recovery,
--   Routing.Devices, Routing.Removal and Routing.Retain are on the operations, and Routing.Session
--   on sequences of them.
-- - Routing.Bindings: the search for a chord and the cycle of routes. Routing.Stuck: keys held
--   during a recovery.
-- - Net.Message: `Update` of rkvm-net/src/lib.rs. Net.Protocol is the specification that server and
--   client share: which sequences of updates are legal, as a Boolean on the set of devices that the
--   client has. Net.Frames: the framing of rkvm-net/src/message.rs, with the serializer a
--   parameter.
-- - Server.State and Server.Loop: rkvm-server/src/server.rs, its slabs of devices and clients, the
--   functions that send to them, and each arm of the loop of `run` as a function to the new server.
--   Server.Clients, Server.Invariant, Server.Stable, Server.Catchup, Server.Handlers and
--   Server.Arms are on the consistency of the server, with Routing.Targets and Routing.Known for
--   what the router's actions name. Server.Run is the loop as a sequence of arms.
-- - Client.Updates: the updates of the loop of `run_once` of rkvm-client/src/client.rs, and
--   Client.Legal is on what the client accepts. Server.Agreement puts server and client together.
-- - Prelude and Collections: shared names, lemmas, and sets and maps as lists. The modules named
--   Tests run the definitions.
--
-- Maps and sets are association lists and lists: the code's HashMap and HashSet leave the order of
-- iteration open, and the model fixes one. `usize`, which only identifies devices, routes and
-- bindings, is ℕ. The libraries around the code are left open where it relies on them: a channel of
-- tokio answers each attempt to send as its function `answers` says (accepted, closed, full), a
-- slab hands out any vacant key (Server.Run.IsAllowed), and whether a client's channel is closed, a
-- reset is delivered, the monitor takes a released device, a connection is accepted or a device can
-- be built is an argument. Every loop is a structural recursion on the events, routes, clients,
-- candidates or outcomes that it walks, except two that run on fuel. That of `stabilize_routes`
-- needs two rounds, since the first leaves the router on the local route, which is always
-- available. That of `read_frame` gets one round more than there are events queued and to be read,
-- which is enough. An arm of the server's loop that ends the server returns its `Error`: an
-- overflow of a device's own queue, an input error of the monitor, or a network error.
--
-- In a round of the monitor `Instant::now()` is one number. Where the source indexes the candidates
-- by a key that it has just found, the model does nothing if the key is absent.
--
-- Not modelled: the foreign calls of libevdev and inotify, with the scan of the directories and the
-- grab of a device, the tasks of a device and of a client, the handshake, TLS, the timers of the
-- network, the parsing of the configuration files and the certificate generator.
pub mod Prelude
pub mod Collections
pub mod Input
pub mod Routing
pub mod Net
pub mod Server
pub mod Client
pub mod Monitor
pub mod Config
