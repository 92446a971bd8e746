-- ===== src/Kernel/Layout.antt =====
-- The layout of a sample, written field by field, and `decodeEvent` of internal/sensor/sensor_linux.go
-- on it.
use runtime_provenance_firew.Base.{
  ℕ, zero, suc, ◌*◌, ◌/◌, ◌%◌, ◌^◌, ◌<◌, ◌≡◌, refl, ap, ◌∙◌, [], ◌∷◌, ◌++◌, arith, length, nat_eq,
}
use runtime_provenance_firew.Platform.{Bytes}
use runtime_provenance_firew.Kernel.{
  WireExecEvent, little_endian, take_bytes, drop_bytes, number, read_wire, comm_length, path_length,
}

-- A number in `n` bytes, the low byte first.
unfoldable pub low_first : ℕ → ℕ → Bytes
low_first zero v = []
low_first (suc n) v = v % 256 ∷ low_first n (v / 256)

pub length-low_first : (n v : ℕ) → length (low_first n v) ≡ n
unfolding low_first
length-low_first zero v = refl
length-low_first (suc n) v = ap suc (length-low_first n (v / 256))

little_endian-low_first : (n v : ℕ) → v < 256 ^ n → little_endian (low_first n v) ≡ v
unfolding little_endian low_first
little_endian-low_first zero v bound = omega arith
little_endian-low_first (suc n) v bound =
    let power : 256 ^ suc n ≡ 256 * 256 ^ n = grind arith in
    let low = little_endian-low_first n (v / 256) (grind arith) in omega arith

take_bytes-append : (n : ℕ) (xs ys : Bytes) → length xs ≡ n → take_bytes n (xs ++ ys) ≡ xs
unfolding take_bytes
take_bytes-append zero [] ys h = refl
take_bytes-append zero (x ∷ xs) ys h = ground arith
take_bytes-append (suc n) [] ys h = ground arith
take_bytes-append (suc n) (x ∷ xs) ys h = ap (λ r. x ∷ r) (take_bytes-append n xs ys (omega arith))

drop_bytes-append : (n : ℕ) (xs ys : Bytes) → length xs ≡ n → drop_bytes n (xs ++ ys) ≡ ys
unfolding drop_bytes
drop_bytes-append zero [] ys h = refl
drop_bytes-append zero (x ∷ xs) ys h = ground arith
drop_bytes-append (suc n) [] ys h = ground arith
drop_bytes-append (suc n) (x ∷ xs) ys h = drop_bytes-append n xs ys (omega arith)

-- A number of `n` bytes with the rest of the struct behind it.
unfoldable pub field : ℕ → ℕ → Bytes → Bytes
field n v rest = low_first n v ++ rest

number-field : (n v : ℕ) (rest : Bytes) → v < 256 ^ n → number n (field n v rest) ≡ v
unfolding number field
number-field n v rest bound =
    ap little_endian (take_bytes-append n (low_first n v) rest (length-low_first n v))
    ∙ little_endian-low_first n v bound

number-u64 : (v : ℕ) (rest : Bytes) → v < 2 ^ 64 → number 8 (field 8 v rest) ≡ v
number-u64 v rest bound = number-field 8 v rest bound

number-u32 : (v : ℕ) (rest : Bytes) → v < 2 ^ 32 → number 4 (field 4 v rest) ≡ v
number-u32 v rest bound = number-field 4 v rest bound

drop_bytes-field : (n v : ℕ) (rest : Bytes) → drop_bytes n (field n v rest) ≡ rest
unfolding field
drop_bytes-field n v rest = drop_bytes-append n (low_first n v) rest (length-low_first n v)

-- The struct in memory: four numbers of 8 bytes, thirteen of 4, two buffers and the padding.
unfoldable pub wire_bytes : WireExecEvent → Bytes
wire_bytes w = field 8 w.monotonic_ns (
    field 8 w.cgroup_id (
      field 8 w.start_time_ns (
        field 8 w.parent_start_time_ns (
          field 4 w.pid (
            field 4 w.tgid (
              field 4 w.ppid (
                field 4 w.uid (
                  field 4 w.gid (
                    field 4 w.pid_namespace (
                      field 4 w.mount_namespace (
                        field 4 w.parent_pid_namespace (
                          field 4 w.kind (
                            field 4 w.flags (
                              field 4 w.destination_ipv4 (
                                field 4 w.destination_port (
                                  field 4 w.protocol
                                    (w.command ++ (w.filename ++ w.padding))))))))))))))))))

-- The fields hold what their Go types hold.
pub record IsWire (w : WireExecEvent) : Type 0 where
  pub monotonic_ns : w.monotonic_ns < 2 ^ 64
  pub cgroup_id : w.cgroup_id < 2 ^ 64
  pub start_time_ns : w.start_time_ns < 2 ^ 64
  pub parent_start_time_ns : w.parent_start_time_ns < 2 ^ 64
  pub pid : w.pid < 2 ^ 32
  pub tgid : w.tgid < 2 ^ 32
  pub ppid : w.ppid < 2 ^ 32
  pub uid : w.uid < 2 ^ 32
  pub gid : w.gid < 2 ^ 32
  pub pid_namespace : w.pid_namespace < 2 ^ 32
  pub mount_namespace : w.mount_namespace < 2 ^ 32
  pub parent_pid_namespace : w.parent_pid_namespace < 2 ^ 32
  pub kind : w.kind < 2 ^ 32
  pub flags : w.flags < 2 ^ 32
  pub destination_ipv4 : w.destination_ipv4 < 2 ^ 32
  pub destination_port : w.destination_port < 2 ^ 32
  pub protocol : w.protocol < 2 ^ 32
  pub command : length w.command ≡ comm_length
  pub filename : length w.filename ≡ path_length
  pub padding : length w.padding ≡ 4

take_bytes-all : (n : ℕ) (xs : Bytes) → length xs ≡ n → take_bytes n xs ≡ xs
unfolding take_bytes
take_bytes-all zero [] h = refl
take_bytes-all zero (x ∷ xs) h = ground arith
take_bytes-all (suc n) [] h = ground arith
take_bytes-all (suc n) (x ∷ xs) h = ap (λ r. x ∷ r) (take_bytes-all n xs (omega arith))

pub read_wire-wire_bytes : (w : WireExecEvent) → IsWire w → read_wire (wire_bytes w) ≡ w
unfolding read_wire wire_bytes
read_wire-wire_bytes w fits = simp (
  number-u64, number-u32, drop_bytes-field, drop_bytes-append, take_bytes-append, take_bytes-all,
  fits.monotonic_ns, fits.cgroup_id, fits.start_time_ns, fits.parent_start_time_ns, fits.pid,
  fits.tgid, fits.ppid, fits.uid, fits.gid, fits.pid_namespace, fits.mount_namespace,
  fits.parent_pid_namespace, fits.kind, fits.flags, fits.destination_ipv4, fits.destination_port,
  fits.protocol, fits.command, fits.filename, fits.padding,
)
