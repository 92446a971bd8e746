-- ===== src/Kernel/Resources.antt =====
-- internal/sensor/sensor_linux.go: `Open`, `Close`, `Loss` and `Read`.
--   What the kernel and github.com/cilium/ebpf answer is the record `Host`. A resource is named by
--   what it was made for, and the list of the open ones is passed along.
pub mod Released
use runtime_provenance_firew.Base.{
  ℕ, ◌+◌, ◌%◌, ◌^◌, String, Bool, true, false, ◌==◌, ◌!=◌, ◌||◌, Option, none, some, List, [], ◌∷◌,
  nat_eq, string_eq, if◌then◌else◌, leb, not, ◌++◌, Result, ok, err, ◌>>=◌, ◌>>◌, fail_if, require,
  Error, cgroup_id_zero, cgroup_path_empty, cgroup_unreadable, cgroup_differs, sensitive_path_long,
  object_unreadable, variable_missing, variable_refused, collection_refused, program_missing,
  attach_refused, map_missing, reader_refused, read_failed, cancelled, counter_missing,
  counter_unreadable,
}
use runtime_provenance_firew.Platform.{Bytes}
use runtime_provenance_firew.Kernel.{KernelEvent, path_length, decode_event}

-- `[]link.Link`, by the names of their programs, with the reader's map and the collection.
pub data Resource : Type 0 where
  collection : Resource
  attached : String → Resource
  reader : Resource

pub record LossCounters : Type 0 where
  pub ring_buffer : ℕ
  pub correlation : ℕ
  pub path_read : ℕ
  pub map_update : ℕ
  pub cgroup_mismatch : ℕ

pub record Config : Type 0 where
  pub cgroup_id : ℕ
  pub cgroup_path : String
  pub sensitive_path : String

pub record Host : Type 0 where
  -- os.Stat: none is an error; the inode, if the information is a Stat_t
  pub stat : String → Option (Option ℕ)
  pub path_bytes : String → ℕ
  -- LoadCollectionSpec
  pub has_object : String → Bool
  -- spec.Variables and Set
  pub has_variable : String → Bool
  pub accepts_variable : String → Bool
  -- NewCollection, Programs and Maps
  pub loads : Bool
  pub has_program : String → Bool
  pub has_map : String → Bool
  -- Tracepoint of a group and a name, and AttachCgroup
  pub attaches : String → String → Bool
  pub attaches_cgroup : String → Bool
  pub opens_reader : Bool
  -- Lookup of the values of a counter for each CPU; none is an error
  pub lookup_counter : String → Option (List ℕ)

-- `*Sensor`: what a sensor holds.
pub record KernelSensor : Type 0 where
  pub links : List String

-- `Close` of one resource
unfoldable pub close_link : String → List Resource → List Resource
close_link name [] = []
close_link name (attached other ∷ held) =
    let rest = close_link name held in if other == name then held else attached other ∷ rest
close_link name (collection ∷ held) = collection ∷ close_link name held
close_link name (reader ∷ held) = reader ∷ close_link name held

unfoldable pub close_links : List String → List Resource → List Resource
close_links [] held = held
close_links (name ∷ names) held = close_links names (close_link name held)

unfoldable pub close_collection : List Resource → List Resource
close_collection [] = []
close_collection (collection ∷ held) = held
close_collection (attached name ∷ held) = attached name ∷ close_collection held
close_collection (reader ∷ held) = reader ∷ close_collection held

unfoldable pub close_reader : List Resource → List Resource
close_reader [] = []
close_reader (reader ∷ held) = held
close_reader (attached name ∷ held) = attached name ∷ close_reader held
close_reader (collection ∷ held) = collection ∷ close_reader held

-- `Close`
unfoldable pub close_sensor : KernelSensor → List Resource → List Resource
close_sensor sensor held = close_collection (close_links sensor.links (close_reader held))

-- `closeLinks(links); collection.Close(); return nil, err`
unfoldable pub abandon : List String → List Resource → Error → List Resource × Result KernelSensor
abandon links held e = (close_collection (close_links links held), err e)

module _ (host : Host) where
  -- The tests before the object is loaded, and its variables.
  unfoldable pub prepare : String → Config → Result (Unit {0})
  prepare object_path config = do
    fail_if (config.cgroup_id == 0) cgroup_id_zero
    fail_if (config.cgroup_path == "") cgroup_path_empty
    information ← require (host.stat config.cgroup_path) cgroup_unreadable
    inode ← require information cgroup_differs
    fail_if (inode != config.cgroup_id) cgroup_differs
    fail_if (leb path_length (host.path_bytes config.sensitive_path)) sensitive_path_long
    fail_if (not (host.has_object object_path)) object_unreadable
    fail_if (not (host.has_variable "target_cgroup_id")) variable_missing
    fail_if (not (host.accepts_variable "target_cgroup_id")) variable_refused
    fail_if (not (host.has_variable "target_sensitive_path")) variable_missing
    fail_if (not (host.accepts_variable "target_sensitive_path")) variable_refused
    fail_if (not host.loads) collection_refused

  -- `attach`: the link, if there is one
  unfoldable pub attach : String → String → String → Result (Unit {0})
  attach group name program_name = do
    fail_if (not (host.has_program program_name)) program_missing
    fail_if (not (host.attaches group name)) attach_refused

  -- What follows the last tracepoint.
  unfoldable pub attach_connect :
      Config → List String → List Resource → List Resource × Result KernelSensor
  attach_connect config links held =
      if not (host.has_program "observe_connect4")
      then abandon links held program_missing
      else if not (host.attaches_cgroup config.cgroup_path)
      then abandon links held attach_refused
      else let all_links = links ++ "observe_connect4" ∷ [] in
        let now_open = attached "observe_connect4" ∷ held in
        if not (host.has_map "events")
        then abandon all_links now_open map_missing
        else if not host.opens_reader
        then abandon all_links now_open reader_refused
        else (reader ∷ now_open, ok (record { links = all_links }))

  -- The loop over the tracepoints that are left.
  unfoldable pub attach_all :
      Config
      → List (String × String × String)
      → List String
      → List Resource
      → List Resource × Result KernelSensor
  attach_all config [] links held = attach_connect config links held
  attach_all config ((group, name, program_name) ∷ targets) links held =
      let rest =
        attach_all config targets (links ++ program_name ∷ []) (attached program_name ∷ held) in
      elim (attach group name program_name) [ err e ↦ abandon links held e | ok _ ↦ rest ]

  abbrev pub tracepoints : List (String × String × String)
  tracepoints =
      ("sched", "sched_process_exec", "observe_exec")
      ∷ ("syscalls", "sys_enter_openat", "observe_openat_enter")
      ∷ ("syscalls", "sys_exit_openat", "observe_openat_exit")
      ∷ []

  -- `Open`, with the resources that are open before and after it
  unfoldable pub open_sensor : String → Config → List Resource → List Resource × Result KernelSensor
  open_sensor object_path config held = elim (prepare object_path config) [
    | err e ↦ (held, err e)
    | ok _ ↦ attach_all config tracepoints [] (collection ∷ held)
  ]

  -- The sum of the values of a counter for each CPU, as a uint64.
  unfoldable pub sum_counters : ℕ → List ℕ → ℕ
  sum_counters total [] = total
  sum_counters total (value ∷ values) = sum_counters ((total + value) % 2 ^ 64) values

  unfoldable pub read_counter : String → Result ℕ
  read_counter name = do
    fail_if (not (host.has_map name)) counter_missing
    values ← require (host.lookup_counter name) counter_unreadable
    ok (sum_counters 0 values)

  -- `Loss` of an open sensor
  unfoldable pub read_loss : Result LossCounters
  read_loss = do
    ring ← read_counter "ringbuf_drops"
    correlation ← read_counter "correlation_drops"
    path_read ← read_counter "path_read_drops"
    map_update ← read_counter "map_update_drops"
    mismatch ← read_counter "cgroup_mismatch_drops"
    ok (record {
      ring_buffer = ring;
      correlation = correlation;
      path_read = path_read;
      map_update = map_update;
      cgroup_mismatch = mismatch;
    })

-- What one round of `Read` meets: a cancelled context, the deadline of the reader, another error of
-- it, or a sample.
pub data Poll : Type 0 where
  context_done deadline_exceeded reader_failed : Poll
  sample : Bytes → Poll

-- `Read`: its result with the rounds that are left, or none while it waits.
unfoldable pub read_event : (Bytes → String) → List Poll → Option (Result KernelEvent × List Poll)
read_event string_of [] = none
read_event string_of (context_done ∷ polls) = some (err cancelled, polls)
read_event string_of (deadline_exceeded ∷ polls) = read_event string_of polls
read_event string_of (reader_failed ∷ polls) = some (err read_failed, polls)
read_event string_of (sample raw ∷ polls) = some (decode_event string_of raw, polls)
