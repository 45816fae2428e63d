-- ===== src/Lib.antt =====
-- The monitor: a program that reads counters of the kernel from /proc, runs a small allocation
-- simulation over a memory library, shows both as Prometheus gauges that a second thread serves over
-- HTTP, and sends the readings as JSON over a pipe.
--
-- The parts of the program, and the modules:
--   * src/metrics.c and include/metrics.h read /proc. Metrics has a child for each reader:
--     Metrics.Memory (get_memory_usage), Metrics.Cpu (get_cpu_usage), Metrics.Disk (get_disk_stats),
--     Metrics.Network (get_network_stats), Metrics.Processes (get_running_processes) and
--     Metrics.ContextSwitches (get_context_switches). The functions keep the names of the source;
--     a loop over the lines is a function `scan_*`, a format is the list of its directives.
--   * src/expose_metrics.c turns readings into gauges. Expose has the gauges and the calls,
--     Expose.Init the functions init_* and the thread's expose_metrics, Expose.Update the functions
--     update_*.
--   * src/json_metrics.c calls the same readers and sends an object: Json, with its calls in Pipe.
--   * src/main.c: Simulation (simulate_memory_operations) and Main (main). As in the source, main
--     calls init_metrics, the simulation, the two updates that concern the memory library, and
--     send_metrics_as_json; the other updates are called by nothing in the repository.
--     Main.Registered, Main.Updates, Main.SixUpdates and Main.Display are about the calls that `main`
--     has in comments: all the functions init_*, updates after them, and the values that these leave
--     in the gauges; Main.Agreement compares these with the object of Json. Main.Scrapes has the
--     values of the gauges after any number of the calls of a run, which are what the HTTP thread may
--     give out. Simulation.Watched has a memory library with a
--     ledger of the blocks given out, Simulation.Marked one with the method of each block; the program
--     does the same over them. Main.Failures has the program that ends in init_metrics, and the messages
--     of one in which nothing fails. Main.Sent, Main.Pauses and Main.Messages take from the calls of a run those of send_metrics_as_json,
--     the time that it sleeps and its messages.
--   * Base, Libc and Double are below these: helpers, what is used of the C library, and floating
--     point.
--   * Tests has runs on concrete files, and each theorem at a concrete input.
--
-- How the code is rendered:
--   * A file is its bytes, or `none` where fopen returns NULL. A text has no NUL byte. Where a read
--     fails, fgets returns NULL as at the end, so the file is then the bytes of the lines before.
--   * fgets cuts lines at the size of the buffer; `read_lines` is the loop that calls it until NULL.
--     Its fuel is the length of the file, which is enough, since a round takes at least one byte.
--   * Each reader is there twice: `get_*` is over the list of all lines and has the result only;
--     `get_*_traced`, in the child Traced, calls fgets before each round, stops at a break, and gives
--     all the calls of stdio too: fopen, fgets, fclose, and the messages of perror, fprintf and printf.
--     `read_while` of Libc.Stdio is its loop; one more than the length of the file is enough fuel.
--   * sscanf interprets the directives that occur in the formats, with glibc's results: a number that
--     does not fit is cut as strtoull and strtol do it, and stored in the width of the variable. "%*f"
--     reads decimal notation without exponent; the kernel writes no other.
--   * Each number is a natural number or an integer, with the wrap-around of `unsigned long long`
--     written out (`add64`, `sub64`).
--   * `double` is the parameter Double: a carrier with the operations used, and laws
--     (conversion keeps order and sign, a part of a whole is between 0 and 1, what is not a part is at
--     least 1, and scaling keeps that) that the theorems on ranges name as a hypothesis. Double.Rational is an instance by exact fractions.
--   * Static variables are a state that is passed on. The local array iface_name, which the source
--     does not initialise, is an argument `garbage`.
--   * `none` as a result is an access outside an array: a write of "%s" past device_name, or past
--     allocated_blocks.
--   * A function of expose_metrics.c or json_metrics.c returns the calls that it makes, in order; what
--     the libraries answer are arguments. Messages are such calls, and so are the
--     calls of stdio in the readers of metrics.c. A run of `main` has all its calls in one list.
--   * The endless loops of main and of the thread are any number of rounds. Nothing clears keep_running,
--     so a theorem that `main` returns after some rounds is about the rounds, not about an end.
--   * Registering a metric returns the metric, or ends the program, as the header of the client says
--     (lib/prom_collector_registry.h); `Faults` has which of them, and whether prom_gauge_new returns
--     NULL. A theorem about a run of main names the case as a hypothesis. What the client does with a
--     NULL metric is not said; it is one of these two in the model.
--
-- Parameters, since their code is not in the repository: the memory library and rand (Library and
-- Monitor), cJSON_Print, and the results of the Prometheus client, of pthread and of the pipe.
-- Nothing is supposed of them, except in Double; cJSON_CreateObject is taken to return an object (if it
-- does not, cJSON_Print has no text, which is a case of the model).
--
-- Not modelled: the copy of the Prometheus client under lib (headers and binaries of another project),
-- the HTTP server in it, and the files that Conan generates under build. The HTTP
-- thread shares nothing with the main loop but the gauges inside the client; it takes no part in the
-- mutex of expose_metrics.c.
pub mod Base
pub mod Libc
pub mod Double
pub mod Metrics
pub mod Pipe
pub mod Expose
pub mod Json
pub mod Simulation
pub mod Main
pub mod Tests
