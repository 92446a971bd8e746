-- ===== src/Authz.antt =====
-- cmd/rpf-authz-target/main.go and cmd/rpf-authz-proof/main.go: the authorization of the laboratory's
-- target and the proof that asks it. The network and encoding/json are the answers of each call.
pub mod Modes
use runtime_provenance_firew.Base.{
  String, Bool, true, false, not, ◌||◌, ◌&&◌, Option, none, some, ◌==◌, ◌!=◌, string_eq,
  if◌then◌else◌, Result, ok, err, ◌>>=◌, ◌>>◌, fail_if, require, target_arguments, target_mode,
  listen_failed, ready_refused, deadline_refused, accept_failed, request_undecodable,
  response_refused, proof_arguments, dial_failed, request_refused, response_undecodable,
  marker_missing, proof_granted,
}

abbrev pub target_identity : String
target_identity = "rpf-authz-fixture-v1"

pub record Request : Type 0 where
  pub target : String
  pub session_role : String
  pub adapter_role : String

pub record Response : Type 0 where
  pub granted : Bool
  pub marker : String
  pub reason : String

unfoldable pub authorize : String → Request → Response
authorize mode input =
    let role =
      if mode == "intentionally-vulnerable" then input.adapter_role else input.session_role in
    if input.target != target_identity
    then record { granted = false; marker = ""; reason = "target_identity_mismatch" }
    else if role != "builder-admin"
    then record { granted = false; marker = ""; reason = "authorization_denied" }
    else record { granted = true; marker = "RPF_SYNTHETIC_ADMIN_MARKER"; reason = "authorized" }

-- What the target's host answers: whether an address is a numeric loopback one (none where it does
-- not parse), whether each call succeeds, and the request that is decoded.
pub record Listener : Type 0 where
  pub is_loopback : String → Option Bool
  pub listens : Bool
  pub creates_ready : Bool
  pub closes_ready : Bool
  pub sets_deadline : Bool
  pub accepts : Bool
  pub request : Option Request
  pub encodes : Bool

-- `err != nil || !endpoint.Addr().IsLoopback()`
abbrev pub is_remote : Option Bool → Bool
is_remote none = true
is_remote (some loopback) = not loopback

-- `serve`: the response that is sent
unfoldable pub serve : Listener → String → String → String → Result Response
serve host address mode ready_path = do
  fail_if (is_remote (host.is_loopback address) || ready_path == "") target_arguments
  fail_if (mode != "intentionally-vulnerable" && mode != "patched") target_mode
  fail_if (not host.listens) listen_failed
  fail_if (not host.creates_ready) ready_refused
  fail_if (not host.closes_ready) ready_refused
  fail_if (not host.sets_deadline) deadline_refused
  fail_if (not host.accepts) accept_failed
  input ← require host.request request_undecodable
  fail_if (not host.encodes) response_refused
  ok (authorize mode input)

-- What the proof's host answers: the response is that of the target to the request.
pub record Dialer : Type 0 where
  pub is_loopback : String → Option Bool
  pub dials : Bool
  pub sends : Bool
  pub exchange : Request → Option Response

abbrev pub proof_request : Request
proof_request = record {
  target = "rpf-authz-fixture-v1";
  session_role = "builder-reader";
  adapter_role = "builder-admin";
}

-- `prove`: the response that is printed
unfoldable pub prove : Dialer → String → String → Result Response
prove host address expect = do
  fail_if (is_remote (host.is_loopback address) || expect != "grant" && expect != "deny")
      proof_arguments
  fail_if (not host.dials) dial_failed
  fail_if (not host.sends) request_refused
  output ← require (host.exchange proof_request) response_undecodable
  fail_if
      (expect == "grant" && (not output.granted || output.marker != "RPF_SYNTHETIC_ADMIN_MARKER"))
      marker_missing
  fail_if (expect == "deny" && (output.granted || output.marker != "")) proof_granted
  ok output
