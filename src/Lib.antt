-- ===== src/Lib.antt =====
-- Verification of an EdgeX device service for Zigbee devices: the driver under random/ and the parts
-- of the device SDK under device-sdk-c/ that turn commands into values and values into events.
--
-- How the parts interact. A request comes in as a path and a body. The SDK routes it to a device,
-- looks up the command in a table made from the device's profile, and for a PUT parses a text for
-- each row, transforms it and calls the driver; for a GET it calls the driver, transforms the
-- results, tests them against the assertions of the profile and makes an event of them. The driver
-- talks to the Zigbee coordinator in text frames, which its threads exchange by bounded queues.
--
-- Files:
--   Prelude     helpers: tests on numbers, lists, texts as lists of bytes, integers over the native
--               numbers, decimal notation as atoi and "%i" read it, and `Outcome`, the result of C
--               code that may fault (a bad pointer, a read out of bounds, undefined arithmetic).
--   Queue       random/user_queue.c. The heap is a list of cells; createQueue, enQueue, readQNode,
--               clearQNode, deQueue, sizeQueue and freeQueue keep their names (create_queue, ...).
--               Queue.Spec is the FIFO they implement. The loop of freeQueue gets `size` rounds, one for each
--               node of a well-formed queue. The mutex is left out: a locked call is one step.
--   Frame       random/structString.h, with the structs of random/user_typdef.h: takeString,
--               takeEvent, takeValue, freeEvent, takeDiscovery.
--   Base64      device-sdk-c/src/c/base64.c. The buffer of the caller is a list whose length is its
--               size; the padding loop gets three rounds, which is the most that it can use.
--   Value       edgex_value_tostring and populateValue of device-sdk-c/src/c/device.c, and
--               edgex_device_commandresult_dup and _equal of data.c. Floats are their bytes; their
--               texts by printf and scanf are the record `FloatText`, their comparison `FloatEq`.
--               Texts of integers have at most as many digits as rounds are given to print them.
--   Transform   device-sdk-c/src/c/transform.c. long long arithmetic wraps at 64 bits where the
--               source's cast does, and faults where C leaves it undefined; long double is the
--               record `LongDouble`.
--   Command     device-sdk-c/src/c/device.c: the table (populateCmdInfo,
--               edgex_deviceprofile_findcommand, commandExists), and in Command.Run
--               edgex_device_runput, edgex_device_runget and runOne, with what they do to the world
--               as a list of effects; in Command.Url edgex_device_handler_device and oneCommand.
--               The driver, the configuration and the JSON parser are the record `Service`, the map
--               of devices is `Devices`.
--   Command.Everywhere  allCommand of device.c, on a queue of devices, with the buffer of its reply.
--   Command.Event  edgex_data_process_event of data.c, up to what is given to the JSON and CBOR
--               libraries. The maps of the CBOR library are the interface Command.Event.Cbor.CborMaps,
--               of operations and laws.
--   AutoEvent   device-sdk-c/src/c/autoevent.c: one run, ae_runner, with its count of
--               references, and parseTime.
--   Driver      random/device-random.c and random/user.c: RX and TX (Serial), the frames of requests
--               (Frames), replies as readings (Values), the handlers of GET and PUT (Polling),
--               discovery (Discovery), and the events that sensors send of themselves (Push, with
--               edgex_device_post_readings of device-sdk-c/src/c/service.c). Its queues are
--               Queue.Spec's FIFOs. The loops of 5000 polls and of five discoveries run over a
--               list that holds, for each round, the frames that arrive before it.
--   DevUtil     device-sdk-c/src/c/devutil.c: the comparison of lists by name.
--   DevMap      device-sdk-c/src/c/devmap.c: devices on a heap, with counts of references, and the
--               indexes by id and by name, over string maps that DevMap.Maps describes. Devices, their
--               copies and their updates in place are in DevMap.Entries. Profiles are values: what
--               a search stores in the profile of a device, the devices that share it make again.
--   Metadata    device-sdk-c/src/c/edgex-rest.c: profiles (Commands, Property, Profile), services and
--               devices, read from JSON objects, written to them and copied (deviceprofile_read,
--               device_write, device_dup, ...). The JSON library is the record `Json`, of operations and laws; Metadata.Trees
--               fills it. Texts of numbers by strtol, strtod and "%f" are `NumberText`. Numbers are
--               doubles, so that they are kept up to 2^53 only.
--
-- Not modelled: the freeing of devmap.c, the start and stop of autoevent.c, config.c,
-- profiles.c and devman.c of the SDK, the freeing and the value descriptors of
-- edgex-rest.c, main of random/device-random.c; service start, the REST and
-- registry clients, logging and time, which are I/O; map.c, parson.c and cunit/, which are other
-- projects' libraries; memory exhaustion, since the source does not test malloc.
pub mod Prelude
pub mod Queue
pub mod Frame
pub mod Base64
pub mod Value
pub mod Transform
pub mod AutoEvent
pub mod Command
pub mod DevMap
pub mod DevUtil
pub mod Driver
pub mod Metadata
