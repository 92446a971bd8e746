-- ===== src/Enter/Dropped.antt =====
-- With which credentials the program of cmd/rpf-cgroup-enter/main_linux.go runs.
use runtime_provenance_firew.Base.{
  ◌≡◌, refl, ap, sym, String, true, false, not, ◌||◌, none, some, List, [], ◌∷◌, ◌!=◌, nat_eq,
  string_eq, arith, ◌∙◌, Result, ok, err, fail_if-eq-ok, require-eq-ok, enter_usage, not_root,
  cgroup_unresolved, cgroup_foreign, target_relative,
}
use runtime_provenance_firew.Enter.{
  State, System, lab_uid, environment, is_disposable_lab_cgroup, drop_and_execute, check_arguments,
  enter,
}

-- A process that has become the target runs it as the laboratory's user and group, with no other
-- groups, no new privileges and the fixed environment, in the cgroup; one that failed has become none.
abbrev pub RunsIn : String → String → List String → State × Result (Unit {0}) → Type 0
RunsIn cgroup target arguments (s, err e) = s.program ≡ none
RunsIn cgroup target arguments (s, ok u) =
    (s.program ≡ some (target, arguments, environment))
    × (s.uid ≡ lab_uid)
    × (s.gid ≡ lab_uid)
    × (s.has_groups ≡ false)
    × (s.no_new_privileges ≡ true)
    × (s.cgroup ≡ some cgroup)

drop_and_execute-RunsIn :
    (system : System) (cgroup target : String) (arguments : List String) (s : State)
    → s.program ≡ none
    → RunsIn cgroup target arguments (drop_and_execute system cgroup target arguments s)
unfolding drop_and_execute
drop_and_execute-RunsIn system cgroup target arguments s fresh = ground arith

check_arguments-eq-ok :
    (system : System) (arguments : List String) (s : State) (cgroup target : String)
    (rest : List String)
    → check_arguments system arguments s ≡ ok (cgroup, target, rest)
    → (s.uid ≡ 0)
      × (is_disposable_lab_cgroup system cgroup ≡ true)
      × (system.absolute target ≡ some target)
unfolding check_arguments
check_arguments-eq-ok system (option ∷ path ∷ dashes ∷ program ∷ others) s cgroup target rest h =
    let (usage, h1) = fail_if-eq-ok (option != "--cgroup" || dashes != "--") enter_usage _ h in
    let (root, h2) = fail_if-eq-ok (s.uid != 0) not_root _ h1 in
    let (resolved, found, h3) = require-eq-ok (system.resolve path) cgroup_unresolved _ h2 in
    let (lab, h4) =
      fail_if-eq-ok (not (is_disposable_lab_cgroup system resolved)) cgroup_foreign _ h3 in
    let (whole, absolute, h5) = require-eq-ok (system.absolute program) target_relative _ h4 in
    let (same, h6) = fail_if-eq-ok (whole != program) target_relative _ h5 in
    let e : resolved ≡ cgroup = cc in
    let t : whole ≡ target = cc in
    let p : whole ≡ program = ground arith in
    (ground arith, rw (sym e) (ground arith), rw (sym t) (ap system.absolute p ∙ absolute))
check_arguments-eq-ok system [] s cgroup target rest h = cc
check_arguments-eq-ok system (a ∷ []) s cgroup target rest h = cc
check_arguments-eq-ok system (a ∷ b ∷ []) s cgroup target rest h = cc
check_arguments-eq-ok system (a ∷ b ∷ c ∷ []) s cgroup target rest h = cc

-- A run from a process that has become no program: on success a root process has become its target in
-- a laboratory cgroup, with the whole drop done.
abbrev pub IsConfined : System → State → State × Result (Unit {0}) → Type 0
IsConfined system before (s, err e) = s.program ≡ none
IsConfined system before (s, ok u) =
    (cgroup target : String) × (arguments : List String) × (before.uid ≡ 0)
    × (is_disposable_lab_cgroup system cgroup ≡ true)
    × (system.absolute target ≡ some target)
    × RunsIn cgroup target arguments (s, ok u)

confined :
    (system : System) (before : State) (cgroup target : String) (arguments : List String)
    (r : State × Result (Unit {0}))
    → (before.uid ≡ 0)
      × (is_disposable_lab_cgroup system cgroup ≡ true)
      × (system.absolute target ≡ some target)
    → RunsIn cgroup target arguments r
    → IsConfined system before r
confined system before cgroup target arguments (s, err e) (root, lab, whole) runs = runs
confined system before cgroup target arguments (s, ok u) (root, lab, whole) runs =
    (cgroup, target, arguments, root, lab, whole, runs)

-- Whatever the arguments are and whatever the system refuses, a process that has become no program
-- yet becomes one only if it was root's, and only after the whole drop: with the laboratory's user and
-- group, no other groups, no new privileges and the fixed environment, in a cgroup that the test of
-- laboratory cgroups accepts, and its program is an absolute path. After any refusal it has become no
-- program.
pub enter-IsConfined :
    (system : System) (arguments : List String) (s : State)
    → s.program ≡ none
    → IsConfined system s (enter system arguments s)
unfolding enter
enter-IsConfined system arguments s fresh = entered (check_arguments system arguments s) refl
  where
    entered :
        (r : Result (String × String × List String))
        → check_arguments system arguments s ≡ r
        → IsConfined system s (elim r [
          | err e ↦ (s, err e)
          | ok (cgroup, target, rest) ↦ drop_and_execute system cgroup target rest s
        ])
    entered (err e) h = fresh
    entered (ok (cgroup, target, rest)) h =
        confined system s cgroup target rest (drop_and_execute system cgroup target rest s)
          (check_arguments-eq-ok system arguments s cgroup target rest h)
          (drop_and_execute-RunsIn system cgroup target rest s fresh)
