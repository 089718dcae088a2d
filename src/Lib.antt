-- ===== src/Lib.antt =====
-- A verification library for tt_riingd, the daemon that drives the fans and lights of Thermaltake
-- Riing Quad controllers.
--
-- The program loads a configuration (src/config/cfg.rs), scans the HID bus for controllers and merges
-- them into it (src/drivers/registry.rs), builds a driver for each (src/drivers/tt_riing_quad/), and
-- starts a worker task for each driver (src/drivers/worker_manager.rs). The controller manager
-- (src/drivers/controller_manager.rs) maps the ids of the configuration to workers, runs batches of
-- speeds and colours over them, and follows devices that are unplugged and plugged in again. The
-- mappings (src/config/mappings.rs) say which fans a sensor, a curve and an effect drive.
--
-- The coordinator (src/core/coordinator.rs) starts the services by priority and runs the main loop. The
-- monitoring service (src/providers/monitoring.rs) reads the sensors (src/temperature_sensors/) at each
-- tick, computes the speeds of the fans from the curves and sends them as one batch. The fan colour
-- service (src/providers/fan_color.rs) paints frames from the effects (src/effects/) in one buffer while
-- the other is sent. The configuration watcher (src/providers/config_watcher.rs), or a request over
-- D-Bus, publishes a change of the file; the coordinator reloads it and brings it to the services in
-- two phases, by requests over the message broker (src/core/event.rs). The udev watcher
-- (src/providers/udev_watcher.rs) publishes devices that come and go.
--
-- Which file models what:
--   Protocol.antt  src/drivers/tt_riing_quad/protocol.rs: `encode`, `to_bytes`, `parse`.
--   Hid.antt       src/drivers/tt_riing_quad/device_io.rs, and the fingerprint of src/drivers/mod.rs.
--   Quad.antt      src/drivers/tt_riing_quad/controller.rs and ttriing_quad.rs: requests and batches.
--   Config.antt    src/config/cfg.rs: the sections; Config/Changes.antt `analyze_changes`;
--                  Config/Load.antt loading and reloading.
--   Mapping.antt   src/config/mappings.rs.
--   Registry.antt  src/drivers/registry.rs, with `create_one` and `hardware_info` of ttriing_quad.rs.
--   Worker.antt    src/drivers/worker_manager.rs, and the trait of src/drivers/fan_controller.rs.
--   Batch.antt     the loops of the batches of src/drivers/controller_manager.rs.
--   Manager.antt   src/drivers/controller_manager.rs and commands.rs; Manager/Setup.antt
--                  `init_from_cfg` and `device_connected`; Manager/History.antt its steps, and
--                  Manager/Delivery.antt what a batch makes the devices do.
--   Event.antt     src/core/event.rs: requests, answers and notifications, and `execute_multiple` over an
--                  interface of services; Event/Single.antt requests to one service;
--                  Event/Broker.antt the table of handlers, which fills that interface.
--   Floats.antt    `f32` as a record of operations, and the laws of it that the code relies on.
--   Curve.antt     `calculate_speed` of src/config/cfg.rs, for all curves.
--   Config/Locate.antt  the search for the file, and `ConfigManager::load`.
--   Sensors.antt   src/temperature_sensors/: discovery and reading; Sensors/Library.antt how NVML is found.
--   Monitoring.antt  src/providers/monitoring.rs: the staging of new mappings; Monitoring/Tick.antt the
--                  tick; Monitoring/Service.antt the loop of the task.
--   Effects.antt   src/effects/effect_runner.rs and `EffectStore` of src/config/mappings.rs.
--   Colors.antt    src/providers/fan_color.rs.
--   Watcher.antt   src/providers/config_watcher.rs.
--   Udev.antt      src/providers/udev_watcher.rs; Udev/Service.antt its thread beside its loop, and
--                  Udev/Replug.antt what the main loop makes of its events.
--   Interface.antt src/interface/dbus_interface.rs, src/providers/dbus.rs, src/providers/broadcast.rs,
--                  src/config/fan_curve.rs; Interface/Applied.antt follows a request into the main loop.
--   Tasks.antt     src/core/task_manager.rs.
--   Coordinator.antt  src/core/coordinator.rs: the reload in two phases; Coordinator/Providers.antt the
--                  services and their start; Coordinator/MainLoop.antt events and shutdown, and
--                  Coordinator/Replug.antt those of a device that comes and goes;
--                  Coordinator/Application.antt src/core/application.rs and app_context.rs.
--   Bootstrap.antt src/bin/main.rs and src/bootstrap/: the log, the daemon, and the run of the program;
--                  Bootstrap/Syslog.antt the writer for syslog.
--   Common.antt    results, dictionaries, lists and Boolean tests that these share.
--   Tests.antt     runs on small inputs, with a simulated device.
--
-- How it is modelled. A result is `ok`, `err` with one constructor for each error of the code, or
-- `panic`. Code that changes a structure takes it and returns the changed one. The packages hidapi and
-- serde_yaml are parameters: `HidDevice` and `HidApi` are records of their operations, the parser an
-- argument. What the driver needs of the hardware is the record `Compliant` of Quad/Compliant.antt.
-- `f32` is the record `Floats`, and laws of it are hypotheses only where a theorem takes `IeeeLaws`; in
-- the sections of the configuration it is a type parameter. The libraries of lm-sensors and NVML, the
-- file system, the paths and the attributes of udev are parameters too. Machine integers are natural
-- numbers; where the code narrows one or counts workers in 32 bits, the wrap is written out. Log
-- messages are left out, but not the choice of the log and of the levels of syslog.
--
-- A worker is its controller, the commands that wait in its channel, and whether its task runs. A
-- call waits for its answer, so the commands before it are served first; an offer only queues. What
-- the task does meanwhile is `turn`. The futures of a batch are taken in order, and a dictionary is
-- an association list, whose order means nothing.
--
-- A loop around `select!` takes what comes next from a list, so a theorem about it holds for every order
-- of events. A frame of colours is calculated at one instant. A notification always has a receiver, as
-- the coordinator is subscribed while its loop runs.
--
-- Bounds and fuel: a packet holds 193 bytes and a channel 32 commands, as in the code, and the search on
-- a Bezier curve takes 100 rounds, which is the code's own bound. All other loops are over lists, except
-- for the decimal digits of an identifier, which take 5 rounds: enough for the 16 bits of a vendor or
-- product number.
--
-- Not modelled: the channels of tokio, behind the broker; the setting up of the udev socket; the
-- connection to D-Bus and the placeholders of its interface; the threads and locks; and the parsing of
-- arguments, the fork of the daemon and the subscriber of tracing, whose success is a parameter.
mod Common
pub mod Protocol
pub mod Hid
pub mod Quad
pub mod Config
pub mod Mapping
pub mod Registry
pub mod Worker
pub mod Batch
pub mod Manager
pub mod Event
pub mod Monitoring
pub mod Coordinator
pub mod Floats
pub mod Curve
pub mod Effects
pub mod Colors
pub mod Udev
pub mod Watcher
pub mod Tasks
pub mod Bootstrap
pub mod Sensors
pub mod Interface
mod Tests
