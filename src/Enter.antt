-- ===== src/Enter.antt =====
-- cmd/rpf-cgroup-enter/main_linux.go: a root process enters a laboratory cgroup, drops its
-- privileges and becomes the target program.
--   The credentials of the process are its state; a call that the kernel refuses changes nothing.
pub mod Dropped
use runtime_provenance_firew.Base.{
  ℕ, String, Bool, true, false, not, ◌||◌, ◌&&◌, Option, none, some, List, [], ◌∷◌, ◌==◌, ◌!=◌,
  nat_eq, string_eq, if◌then◌else◌, Result, ok, err, ◌>>=◌, ◌>>◌, fail_if, require, Error,
  enter_usage, not_root, cgroup_unresolved, cgroup_foreign, target_relative, enter_refused,
  privileges_kept, groups_kept, gid_kept, uid_kept, exec_failed,
}

abbrev pub lab_uid : ℕ
lab_uid = 65534

-- The process: its credentials, the cgroup that it is in, and the program that it has become with the
-- arguments and the environment.
pub record State : Type 0 where
  pub uid : ℕ
  pub gid : ℕ
  pub has_groups : Bool
  pub no_new_privileges : Bool
  pub cgroup : Option String
  pub program : Option (String × List String × List String)

-- What the system answers.
pub record System : Type 0 where
  -- EvalSymlinks and Abs; none is an error
  pub resolve : String → Option String
  pub absolute : String → Option String
  -- filepath.Dir, filepath.Base and strings.HasPrefix
  pub dir : String → String
  pub base : String → String
  pub has_prefix : String → String → Bool
  -- whether WriteFile of cgroup.procs, Prctl, Setgroups, Setgid, Setuid and Exec succeed
  pub enters : String → Bool
  pub forbids_privileges : Bool
  pub clears_groups : Bool
  pub sets_gid : Bool
  pub sets_uid : Bool
  pub executes : String → Bool

abbrev pub environment : List String
environment = "HOME=/nonexistent" ∷ "LANG=C" ∷ "PATH=/usr/bin:/bin" ∷ "RPF_DISPOSABLE_LAB=1" ∷ []

module _ (system : System) where
  unfoldable pub is_disposable_lab_cgroup : String → Bool
  is_disposable_lab_cgroup path =
      system.dir path == "/sys/fs/cgroup" && system.has_prefix (system.base path) "rpf-"

  -- The calls behind the tests, in their order; the first that is refused ends the run.
  unfoldable pub drop_and_execute :
      String → String → List String → State → State × Result (Unit {0})
  drop_and_execute cgroup target arguments s =
      if not (system.enters cgroup)
      then (s, err enter_refused)
      else let entered = record s { cgroup = some cgroup } in
        if not system.forbids_privileges
        then (entered, err privileges_kept)
        else let bounded = record entered { no_new_privileges = true } in
          if not system.clears_groups
          then (bounded, err groups_kept)
          else let alone = record bounded { has_groups = false } in
            if not system.sets_gid
            then (alone, err gid_kept)
            else let grouped = record alone { gid = lab_uid } in
              if not system.sets_uid
              then (grouped, err uid_kept)
              else let dropped = record grouped { uid = lab_uid } in
                if not (system.executes target)
                then (dropped, err exec_failed)
                else (record dropped { program = some (target, arguments, environment) }, ok tt)

  -- The tests: the resolved cgroup, and the target with its arguments.
  unfoldable pub check_arguments : List String → State → Result (String × String × List String)
  unfolding is_disposable_lab_cgroup
  check_arguments (option ∷ path ∷ dashes ∷ program ∷ rest) s = do
    fail_if (option != "--cgroup" || dashes != "--") enter_usage
    fail_if (s.uid != 0) not_root
    cgroup ← require (system.resolve path) cgroup_unresolved
    fail_if (not (is_disposable_lab_cgroup cgroup)) cgroup_foreign
    target ← require (system.absolute program) target_relative
    fail_if (target != program) target_relative
    ok (cgroup, target, program ∷ rest)
  check_arguments _ s = err enter_usage

  -- `run`
  unfoldable pub enter : List String → State → State × Result (Unit {0})
  enter arguments s = elim (check_arguments arguments s) [
    | err e ↦ (s, err e)
    | ok (cgroup, target, rest) ↦ drop_and_execute cgroup target rest s
  ]
