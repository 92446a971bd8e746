-- ===== src/Kernel.antt =====
-- internal/sensor/sensor_linux.go: the samples of the BPF programs, the resources that the sensor
-- holds, and its loss counters.
--   encoding/binary reads a struct field by field, each number from its low byte on. `string(bytes)`
--   is the parameter `string_of`, as bytes of the kernel need not be a text.
pub mod Layout
pub mod Samples
pub mod Resources
use runtime_provenance_firew.Base.{
  ℕ, zero, suc, ◌+◌, ◌*◌, ◌%◌, ◌^◌, String, Bool, ◌!=◌, ◌&&◌, List, [], ◌∷◌, length, nat_eq,
  if◌then◌else◌, Result, ok, ◌>>=◌, ◌>>◌, fail_if, sample_size, unsupported_kind,
}
use runtime_provenance_firew.Platform.{Bytes}

abbrev pub comm_length : ℕ
comm_length = 16

abbrev pub path_length : ℕ
path_length = 256

abbrev pub event_exec : ℕ
event_exec = 1

abbrev pub event_open : ℕ
event_open = 2

abbrev pub event_sensitive : ℕ
event_sensitive = 3

abbrev pub event_connect4 : ℕ
event_connect4 = 4

pub record KernelEvent : Type 0 where
  pub monotonic_ns : ℕ
  pub cgroup_id : ℕ
  pub start_time_ns : ℕ
  pub parent_start_time_ns : ℕ
  pub pid : ℕ
  pub tgid : ℕ
  pub ppid : ℕ
  pub uid : ℕ
  pub gid : ℕ
  pub pid_namespace : ℕ
  pub mount_namespace : ℕ
  pub parent_pid_namespace : ℕ
  pub kind : ℕ
  pub flags : ℕ
  pub destination_ipv4 : ℕ
  pub destination_port : ℕ
  pub protocol : ℕ
  pub command : String
  pub filename : String

pub record WireExecEvent : Type 0 where
  pub monotonic_ns : ℕ
  pub cgroup_id : ℕ
  pub start_time_ns : ℕ
  pub parent_start_time_ns : ℕ
  pub pid : ℕ
  pub tgid : ℕ
  pub ppid : ℕ
  pub uid : ℕ
  pub gid : ℕ
  pub pid_namespace : ℕ
  pub mount_namespace : ℕ
  pub parent_pid_namespace : ℕ
  pub kind : ℕ
  pub flags : ℕ
  pub destination_ipv4 : ℕ
  pub destination_port : ℕ
  pub protocol : ℕ
  pub command : Bytes
  pub filename : Bytes
  pub padding : Bytes

-- A number from its low byte on.
unfoldable pub little_endian : Bytes → ℕ
little_endian [] = 0
little_endian (b ∷ bs) = b + 256 * little_endian bs

-- The next `n` bytes, and those after them.
unfoldable pub take_bytes : ℕ → Bytes → Bytes
take_bytes zero bs = []
take_bytes (suc n) [] = []
take_bytes (suc n) (b ∷ bs) = b ∷ take_bytes n bs

unfoldable pub drop_bytes : ℕ → Bytes → Bytes
drop_bytes zero bs = bs
drop_bytes (suc n) [] = []
drop_bytes (suc n) (b ∷ bs) = drop_bytes n bs

-- A field of `n` bytes that holds a number.
unfoldable pub number : ℕ → Bytes → ℕ
number n bs = little_endian (take_bytes n bs)

-- `binary.Size(wire)`
abbrev pub wire_size : ℕ
wire_size = 4 * 8 + 13 * 4 + comm_length + path_length + 4

-- `binary.Read(…, binary.LittleEndian, &wire)` on as many bytes as the struct has
unfoldable pub read_wire : Bytes → WireExecEvent
read_wire at0 =
    let at1 = drop_bytes 8 at0 in
    let at2 = drop_bytes 8 at1 in
    let at3 = drop_bytes 8 at2 in
    let at4 = drop_bytes 8 at3 in
    let at5 = drop_bytes 4 at4 in
    let at6 = drop_bytes 4 at5 in
    let at7 = drop_bytes 4 at6 in
    let at8 = drop_bytes 4 at7 in
    let at9 = drop_bytes 4 at8 in
    let at10 = drop_bytes 4 at9 in
    let at11 = drop_bytes 4 at10 in
    let at12 = drop_bytes 4 at11 in
    let at13 = drop_bytes 4 at12 in
    let at14 = drop_bytes 4 at13 in
    let at15 = drop_bytes 4 at14 in
    let at16 = drop_bytes 4 at15 in
    let at17 = drop_bytes 4 at16 in
    let at18 = drop_bytes comm_length at17 in
    let at19 = drop_bytes path_length at18 in
    record {
      monotonic_ns = number 8 at0;
      cgroup_id = number 8 at1;
      start_time_ns = number 8 at2;
      parent_start_time_ns = number 8 at3;
      pid = number 4 at4;
      tgid = number 4 at5;
      ppid = number 4 at6;
      uid = number 4 at7;
      gid = number 4 at8;
      pid_namespace = number 4 at9;
      mount_namespace = number 4 at10;
      parent_pid_namespace = number 4 at11;
      kind = number 4 at12;
      flags = number 4 at13;
      destination_ipv4 = number 4 at14;
      destination_port = number 4 at15;
      protocol = number 4 at16;
      command = take_bytes comm_length at17;
      filename = take_bytes path_length at18;
      padding = take_bytes 4 at19;
    }

-- The bytes up to the first zero.
unfoldable pub until_zero : Bytes → Bytes
until_zero [] = []
until_zero (b ∷ bs) = let rest = until_zero bs in if b != 0 then b ∷ rest else []

-- The test on the kind of an event.
unfoldable pub is_unsupported : ℕ → Bool
is_unsupported kind =
    kind != event_exec && kind != event_open && kind != event_sensitive && kind != event_connect4

module _ (string_of : Bytes → String) where
  unfoldable pub c_string : Bytes → String
  c_string value = string_of (until_zero value)

  unfoldable pub event_of : WireExecEvent → KernelEvent
  event_of wire = record {
    monotonic_ns = wire.monotonic_ns;
    cgroup_id = wire.cgroup_id;
    start_time_ns = wire.start_time_ns;
    parent_start_time_ns = wire.parent_start_time_ns;
    pid = wire.pid;
    tgid = wire.tgid;
    ppid = wire.ppid;
    uid = wire.uid;
    gid = wire.gid;
    pid_namespace = wire.pid_namespace;
    mount_namespace = wire.mount_namespace;
    parent_pid_namespace = wire.parent_pid_namespace;
    kind = wire.kind;
    flags = wire.flags;
    destination_ipv4 = wire.destination_ipv4;
    destination_port = wire.destination_port;
    protocol = wire.protocol;
    command = c_string wire.command;
    filename = c_string wire.filename;
  }

  unfoldable pub decode_event : Bytes → Result KernelEvent
  decode_event raw = do
    fail_if (length raw != wire_size) sample_size
    let wire = read_wire raw
    fail_if (is_unsupported wire.kind) unsupported_kind
    ok (event_of wire)
