-- ===== src/Agent/Reexecuted.antt =====
-- A process that executes a second program: what cmd/rpf-sensor/main_linux.go writes of it, and what
-- `BuildGraph` of internal/rpf/evidence.go makes of that.
use runtime_provenance_firew.Base.{String, ◌≡◌, ◌≢◌, refl, List, ok}
use runtime_provenance_firew.Model.{Event, ExecutionGraph}
use runtime_provenance_firew.Platform.{Platform}
use runtime_provenance_firew.Graph.{Runtime, build_graph}
use runtime_provenance_firew.Graph.Identity.{Observes, build_graph_identifies}
use runtime_provenance_firew.Kernel.{KernelEvent}
use runtime_provenance_firew.Agent.{process_from_kernel}

-- The thread group, the namespace and the start time by which the kernel tells a process.
pub record IsSameProcess (a b : KernelEvent) : Type 0 where
  pub pid_namespace : a.pid_namespace ≡ b.pid_namespace
  pub tgid : a.tgid ≡ b.tgid
  pub start_time : a.start_time_ns ≡ b.start_time_ns

-- If one process executes two programs with different paths, as `exec` in a shell does, and a stream
-- has an event of each, `BuildGraph` refuses the stream.
pub reexecution_refused :
    (platform : Platform) (runtime : Runtime) (boot_id : String) (a b : KernelEvent)
    (es : List Event) (g : ExecutionGraph)
    → IsSameProcess a b
    → a.filename ≢ b.filename
    → Observes es (process_from_kernel platform a boot_id)
    → Observes es (process_from_kernel platform b boot_id)
    → build_graph platform runtime es ≢ ok g
unfolding process_from_kernel
reexecution_refused platform runtime boot_id a b es g same differ first second built =
    let (_, _, agree) =
      build_graph_identifies platform runtime es g (process_from_kernel platform a boot_id)
        (process_from_kernel platform b boot_id) built first second in
    let namespace = same.pid_namespace in
    let tgid = same.tgid in
    let start = same.start_time in differ (agree (rw (namespace, tgid, start) refl)).1
