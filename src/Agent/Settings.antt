-- ===== src/Agent/Settings.antt =====
-- cmd/rpf-sensor/main_linux.go: the flags of the sensor command, their tests, and what it makes of
-- them; the files, clocks and the kernel that it meets.
use Prim.Native.Char.{code}
use runtime_provenance_firew.Base.{
  ℕ, ◌+◌, ◌*◌, ◌%◌, ◌^◌, String, ◌<>◌, Bool, true, false, not, ◌||◌, ◌&&◌, Option, none, some, [],
  ◌∷◌, ◌==◌, ◌!=◌, nat_eq, string_eq, Result, ok, err, ◌>>=◌, ◌>>◌, fail_if, require, flags_missing,
  artifact_relative, sensitive_unpaired, sensitive_relative, path_hash_differs,
  configuration_unencodable, clock_unreadable,
}
use runtime_provenance_firew.Json.{str, uint, structure, Value, fields}
use runtime_provenance_firew.Model.{BuildScope, Sensor}
use runtime_provenance_firew.Platform.{Platform, Bytes}
use runtime_provenance_firew.Parse.{digest}
use runtime_provenance_firew.Kernel.Resources.{Host}
use runtime_provenance_firew.Agent.{Target, Output}

pub record SensorConfiguration : Type 0 where
  pub object_sha256 : String
  pub cgroup_id : ℕ
  pub cgroup_path_sha256 : String
  pub repository : String
  pub revision : String
  pub sensitive_path_sha256 : String
  pub sensitive_category : String

unfoldable pub configuration_value : SensorConfiguration → Value
configuration_value c = structure (
    fields (
      ("object_sha256", str c.object_sha256)
      ∷ ("cgroup_id", uint c.cgroup_id)
      ∷ ("cgroup_path_sha256", str c.cgroup_path_sha256)
      ∷ ("repository", str c.repository)
      ∷ ("revision", str c.revision)
      ∷ ("sensitive_path_sha256", str c.sensitive_path_sha256)
      ∷ ("sensitive_category", str c.sensitive_category)
      ∷ []))

pub record Flags : Type 0 where
  pub object_path : String
  pub cgroup_id : ℕ
  pub cgroup_path : String
  pub build_id : String
  pub run_id : String
  pub repository : String
  pub revision : String
  pub boot_id : String
  pub cgroup_path_hash : String
  pub output_path : String
  pub artifact_path : String
  pub sensitive_path : String
  pub sensitive_category : String

-- The files, the clocks and the kernel that the command meets.
pub record Machine : Type 0 where
  -- ReadFile of the BPF object, and the artifact when it is hashed; none is an error
  pub object : String → Option Bytes
  pub artifact : String → Option Bytes
  -- OpenFile with O_EXCL
  pub creates : String → Bool
  pub output : Output
  pub host : Host
  -- `now` and the seconds and nanoseconds of CLOCK_BOOTTIME, at the three events of the command
  pub started_at : String
  pub artifact_at : String
  pub finalized_at : String
  pub started_boot : Option (ℕ × ℕ)
  pub artifact_boot : Option (ℕ × ℕ)
  pub finalized_boot : Option (ℕ × ℕ)

-- `!=` of two conditions
abbrev differ : Bool → Bool → Bool
differ true b = not b
differ false b = b

-- `filepath.IsAbs`
unfoldable pub is_absolute : String → Bool
is_absolute String.[] = false
is_absolute (String.◌∷◌ c path) = code c == 47

-- `boottimeNS`
unfoldable pub boottime_ns : Option (ℕ × ℕ) → Result ℕ
boottime_ns none = err clock_unreadable
boottime_ns (some (seconds, nanoseconds)) = ok ((seconds * 1000000000 + nanoseconds) % 2 ^ 64)

module _ (platform : Platform) (flags : Flags) where
  unfoldable pub check_flags : Result (Unit {0})
  check_flags = do
    fail_if
        (flags.object_path == ""
          || flags.cgroup_id == 0
          || flags.cgroup_path == ""
          || flags.build_id == ""
          || flags.run_id == ""
          || flags.repository == ""
          || flags.revision == ""
          || flags.boot_id == ""
          || flags.cgroup_path_hash == ""
          || flags.output_path == ""
          || flags.artifact_path == "")
        flags_missing
    fail_if (not (is_absolute flags.artifact_path)) artifact_relative
    fail_if (differ (flags.sensitive_path == "") (flags.sensitive_category == ""))
        sensitive_unpaired
    fail_if (flags.sensitive_path != "" && not (is_absolute flags.sensitive_path))
        sensitive_relative
    fail_if
        (flags.cgroup_path_hash
          != ("sha256:" <> digest platform (platform.bytes_of flags.cgroup_path)))
        path_hash_differs

  abbrev pub target_of : Target
  target_of = record {
    boot_id = flags.boot_id;
    artifact_path = flags.artifact_path;
    sensitive_category = flags.sensitive_category;
  }

  abbrev pub build_of : BuildScope
  build_of = record {
    build_id = flags.build_id;
    run_id = flags.run_id;
    source = record { repository = flags.repository; revision = flags.revision };
    boot_id = flags.boot_id;
    cgroup_id = flags.cgroup_id;
    cgroup_path_hash = flags.cgroup_path_hash;
  }

  abbrev pub configuration_of : Bytes → SensorConfiguration
  configuration_of object = record {
    object_sha256 = digest platform object;
    cgroup_id = flags.cgroup_id;
    cgroup_path_sha256 = digest platform (platform.bytes_of flags.cgroup_path);
    repository = flags.repository;
    revision = flags.revision;
    sensitive_path_sha256 = digest platform (platform.bytes_of flags.sensitive_path);
    sensitive_category = flags.sensitive_category;
  }

  unfoldable pub digest_sensor_configuration : SensorConfiguration → Result String
  digest_sensor_configuration configuration = do
    encoded ←
        require (platform.marshal (configuration_value configuration)) configuration_unencodable
    ok ("sha256:" <> digest platform encoded)

  abbrev pub sensor_of : String → Sensor
  sensor_of config_digest = record {
    name = "rpf-sensor";
    version = "0.2.0";
    config_digest = config_digest;
  }
