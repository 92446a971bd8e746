-- ===== src/Lib.antt =====
-- A model of the runtime provenance firewall: the evidence core internal/rpf, the kernel sensor
-- internal/sensor, and the programs under cmd that put them to work.
--
-- A sensor in the build host turns what the kernel reports of a build (`decodeEvent`) into a stream of
-- events (`EventChain`); a reader checks the stream, derives an execution graph, binds it with the
-- build's SLSA provenance, the artifact and a policy to a bundle (`Assemble`), and later decides on
-- such a bundle (`Verify`).
--
-- Base has the tests of Go on numbers and strings, errors as values and lists; Base/Sorting says what
-- sort.Slice leaves open. Json has the values that encoding/json reads and writes. The rest is one
-- module for each part of the program:
--   * Model: the structs and constants of internal/rpf/model.go; Model/Encoding is the JSON form that
--     the tags of their fields give them.
--   * Platform: what the program calls of Go's library, as a record of functions: SHA-256, Marshal,
--     the tokens and the values that a Decoder yields, TrimSpace. Platform/Laws has the documented
--     behaviour that some theorems rely on, as the hypothesis `IsJson`; Stream/Written has the part
--     that concerns lines, `IsLineJson`.
--   * Parse and Documents: internal/rpf/parse.go, the limits, `canonical`, `decodeStrict`, `walkJSON`,
--     `decodeStatement` and `decodePolicy`.
--   * Evidence, Stream, Graph and Loss: internal/rpf/evidence.go, the validation of events
--     (`validate_event`), event digests (`event_digest`), the hash chain (`verify_chain`), the parser
--     of a stream (`parse_event_stream`), `BuildGraph` (`build_graph`) and `completeness`. The order
--     in which Go ranges over a map and the arrangement of equal items are the record `Runtime`;
--     `IsGo` is what Go promises of it.
--   * Chain: internal/rpf/chain.go. `append` returns the chain as the call leaves it, and the line or
--     the error.
--   * Provenance, Assemble, Behavior and Verify: internal/rpf/verify.go, with one definition for each
--     function; long functions are cut into a chain of definitions, each of which names its part.
--     LocalProvenance is internal/rpf/local_provenance.go.
--   * Files: the files of internal/rpf/verify.go (`ReadInputs`, `WriteBundle`,
--     `WriteCanonicalExclusive`, `LoadBundle`) on a list of paths with contents; what each call
--     answers is the record `Disk`. Files/Settled is what a bundle's maps are once their JSON is read.
--     Cli: the commands of cmd/rpf/main.go with their exit statuses.
--   * Kernel: internal/sensor/sensor_linux.go. Kernel/Layout is the struct of a sample in memory,
--     Kernel/Resources has `Open`, `Close`, `Loss` and `Read`; what the kernel and cilium/ebpf answer
--     is the record `Host`.
--   * Agent: cmd/rpf-sensor/main_linux.go. Agent itself is the loop over kernel events (`handle`,
--     `watch`), Agent/Settings the flags, Agent/Command `main`; Agent/Told is a step
--     relation that says which event each sample is due, Agent/Handled shows that the loop keeps to it,
--     and Agent/Producer who opened the artifact last; Agent/Lines, Watched, Reported and Recorded
--     follow the events into the evidence file.
--   * Authz: cmd/rpf-authz-target/main.go and cmd/rpf-authz-proof/main.go. Enter:
--     cmd/rpf-cgroup-enter/main_linux.go, with the credentials of the process as its state.
--   * Lab: cmd/rpf-build-fixture, cmd/rpf-package-fixture, cmd/rpf-local-connect and
--     cmd/rpf-mock-server.
--   * Tests: a platform and a runtime that keep the promises above, sample documents, a sample run of
--     the sensor, and the theorems at them.
--
-- A uint64 is a number, and the places where the program adds to one wrap at 2 ^ 64. An error is a
-- constructor for the place that makes it; what only its text shows is left out. A map is the list of
-- its entries in key order, or in order of insertion where nothing ranges over it. The walk over a
-- document has fuel for four calls for each token ahead and four more: each round of its loops takes
-- a token or ends, and goes through at most three calls. `Read` of the sensor takes the rounds of its
-- loop as a list and waits where the list ends.
--
-- Not modelled: the parsing of command lines, printed texts, the file that a fatal error of the sensor
-- command leaves half written, and tests of nil receivers.
pub mod Base
pub mod Json
pub mod Model
pub mod Platform
pub mod Parse
pub mod Documents
pub mod Evidence
pub mod Stream
pub mod Chain
pub mod Graph
pub mod Loss
pub mod Provenance
pub mod Assemble
pub mod Behavior
pub mod Verify
pub mod LocalProvenance
pub mod Files
pub mod Cli
pub mod Authz
pub mod Enter
pub mod Lab
pub mod Kernel
pub mod Agent
pub mod Tests
