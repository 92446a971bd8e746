-- ===== src/Lab/Confined.antt =====
-- What cmd/rpf-build-fixture/main.go may change, and that cmd/rpf-mock-server/main.go takes what
-- cmd/rpf-local-connect/main.go sends.
use runtime_provenance_firew.Base.{
  String, ◌≡◌, ◌≢◌, ◌⊎◌, ◌↔◌, refl, ap, [], ◌∷◌, ◌++◌, Option, Bool, true, false, some, none, arith,
  string_eq, nat_eq, Result, ok,
}
use native.Mathlib.Decide.{ℕ_discrete}
use runtime_provenance_firew.Platform.{Bytes}
use runtime_provenance_firew.Files.{Files, file_at}
use runtime_provenance_firew.Files.Exclusive.{file_at-put_file, file_at-put_file-other}
use runtime_provenance_firew.Authz.{is_remote}
use runtime_provenance_firew.Lab.{
  Laboratory, Callback, artifact_text, is_lab_output, write_artifact, run_build_fixture,
  run_connect, serve_mock,
}

-- What a run may change: no other path, no path that had no file, and nothing outside the laboratory;
-- a run that succeeds has left the synthetic artifact.
pub record IsConfinedTo (lab : Laboratory) (artifact : String) (before : Files)
    (r : Files × Result (Unit {0})) : Type 0 where
  pub others : (other : String) → other ≢ artifact → file_at other r.0 ≡ file_at other before
  pub outside : (is_lab_output lab artifact ≡ false) ⊎ (lab.disposable ≢ "1") → r.0 ≡ before
  pub absent : file_at artifact before ≡ none → r.0 ≡ before
  pub written : r.1 ≡ ok tt → file_at artifact r.0 ≡ some artifact_text

-- However it is called and whatever fails, `rpf-build-fixture` changes no path but its artifact, and
-- not that one unless it is a file that is there, in the laboratory's output directory by its name,
-- and the environment is the laboratory's; a run that succeeds has left the synthetic text in it.
pub run_build_fixture-IsConfinedTo :
    (lab : Laboratory) (artifact : String) (has_arguments : Bool) (files : Files)
    → IsConfinedTo lab artifact files (run_build_fixture lab artifact has_arguments files)
unfolding run_build_fixture write_artifact
run_build_fixture-IsConfinedTo lab artifact has_arguments files =
    let whole = file_at-put_file artifact artifact_text files in
    record {
      others = λ other differ.
          let kept = file_at-put_file-other artifact other artifact_text files differ in
          let left = file_at-put_file-other artifact other (lab.left artifact) files differ in
          ground arith;
      outside = λ h. ground arith;
      absent = λ h. ground arith;
      written = λ h. ground arith;
    }

-- What the connecting program needs of the address and the system's answers.
pub record IsConnected (end : Callback) (address : String) : Type 0 where
  pub loopback : end.is_loopback address ≡ some true
  pub dials : end.dials ≡ true
  pub writes : end.writes ≡ true

-- What the mock server needs of the address, the option for readiness and the system's answers.
pub record IsServing (end : Callback) (address ready_path : String) : Type 0 where
  pub loopback : end.is_loopback address ≡ some true
  pub named : ready_path ≢ ""
  pub listens : end.listens ≡ true
  pub creates : end.creates_ready ≡ true
  pub closes : end.closes_ready ≡ true
  pub deadline : end.sets_deadline ≡ true
  pub accepts : end.accepts ≡ true
  pub read_deadline : end.sets_read_deadline ≡ true

is_remote-false : (o : Option Bool) → is_remote o ≡ false → o ≡ some true
is_remote-false none h = cc
is_remote-false (some true) h = refl
is_remote-false (some false) h = cc

run_connect_iff :
    (end : Callback) (address : String)
    → ((sent : Bytes) × (run_connect end address ≡ ok sent)) ↔ IsConnected end address
unfolding run_connect
run_connect_iff end address = (
  λ (sent, connected). record {
    loopback = is_remote-false (end.is_loopback address) (ground arith);
    dials = ground arith;
    writes = ground arith;
  },
  λ c. (82 ∷ [], rw (c.loopback, c.dials, c.writes) refl),
)

run_connect-marker :
    (end : Callback) (address : String) (sent : Bytes)
    → run_connect end address ≡ ok sent
    → sent ≡ 82 ∷ []
unfolding run_connect
run_connect-marker end address sent h = ground arith

-- The server accepts what begins with the marker.
serve_mock_iff :
    (end : Callback) (address ready_path : String) (received : Bytes)
    → (serve_mock end address ready_path received ≡ ok tt)
      ↔ (IsServing end address ready_path × ((rest : Bytes) × (received ≡ 82 ∷ rest)))
unfolding serve_mock nat_eq ℕ_discrete
serve_mock_iff end address ready_path [] = (λ h. ground arith, λ (_, (rest, e)). cc)
serve_mock_iff end address ready_path (b ∷ rest) = (
  λ h. (
    record {
      loopback = is_remote-false (end.is_loopback address) (ground arith);
      named = λ e. ground arith;
      listens = ground arith;
      creates = ground arith;
      closes = ground arith;
      deadline = ground arith;
      accepts = ground arith;
      read_deadline = ground arith;
    },
    (rest, let marker : b ≡ 82 = ground arith in ap (λ m. m ∷ rest) marker),
  ),
  λ (s, (more, e)).
      let marker : b ≡ 82 = cc in
      let loopback = s.loopback in
      let named = s.named in
      let listens = s.listens in
      let creates = s.creates in
      let closes = s.closes in
      let deadline = s.deadline in
      let accepts = s.accepts in let read_deadline = s.read_deadline in ground arith,
)

-- The connecting program writes to its address and the mock server accepts what it wrote, with whatever
-- follows, exactly when the two addresses are of the loopback network, the server is given a path for its
-- readiness and the calls of each program on the system succeed.
pub serve_mock-run_connect :
    (client server : Callback) (target address ready_path : String) (more : Bytes)
    → ((sent : Bytes) × (run_connect client target ≡ ok sent)
        × (serve_mock server address ready_path (sent ++ more) ≡ ok tt))
      ↔ (IsConnected client target × IsServing server address ready_path)
serve_mock-run_connect client server target address ready_path more =
    let connects = run_connect_iff client target in
    (
      λ (sent, connected, served). (
        connects.0 (sent, connected),
        ((serve_mock_iff server address ready_path (sent ++ more)).0 served).0,
      ),
      λ (connected, serving).
          let (sent, wrote) = connects.1 connected in
          let marker = run_connect-marker client target sent wrote in
          (
            sent,
            wrote,
            (serve_mock_iff server address ready_path (sent ++ more)).1
                (serving, (more, ap (λ m. m ++ more) marker)),
          ),
    )
