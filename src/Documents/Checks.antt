-- ===== src/Documents/Checks.antt =====
-- What `decodePolicy` and `decodeStatement` of internal/rpf/parse.go accept.
use runtime_provenance_firew.Base.{
  ◌<◌, ◌≡◌, ◌≢◌, ◌↔◌, ◌⊎◌, ◌||◌, ◌&&◌, false, length, arith, ◌==◌, ◌!=◌, string_eq, nat_eq, ok,
  >>=-eq-ok, fail_if-eq-ok, policy_version, incomplete_decision, allowlists,
}
use runtime_provenance_firew.Model.{Policy}
use runtime_provenance_firew.Platform.{Platform, Bytes}
use runtime_provenance_firew.Parse.{decode_strict, max_document_bytes}
use runtime_provenance_firew.Documents.{check_policy, decode_policy}

pub record IsPolicy (p : Policy) : Type 0 where
  pub version : p.schema_version ≡ "0.1"
  pub incomplete : (p.incomplete_decision ≡ "REJECT") ⊎ (p.incomplete_decision ≡ "REVIEW")
  pub provider : p.expected_provider ≢ ""
  pub builders : 0 < length p.allowed_builder_ids
  pub producers : 0 < length p.allowed_artifact_producers
  pub repositories : 0 < length p.allowed_repositories

check_policy-guards :
    (p : Policy)
    → check_policy p ≡ ok tt
    → ((p.schema_version != "0.1") ≡ false)
      × ((p.incomplete_decision != "REVIEW" && p.incomplete_decision != "REJECT") ≡ false)
      × ((p.expected_provider == ""
            || length p.allowed_builder_ids == 0
            || length p.allowed_artifact_producers == 0
            || length p.allowed_repositories == 0)
          ≡ false)
unfolding check_policy
check_policy-guards p h =
    let (version, h1) = fail_if-eq-ok _ policy_version _ h in
    let (incomplete, h2) = fail_if-eq-ok _ incomplete_decision _ h1 in
    let (lists, h3) = fail_if-eq-ok _ allowlists _ h2 in (version, incomplete, lists)

-- The tests of `decodePolicy` pass exactly when the version is 0.1, incomplete evidence leads to
-- REVIEW or REJECT, a provider is expected, and the lists of builders, artifact producers and
-- repositories are not empty.
pub check_policy_iff : (p : Policy) → (check_policy p ≡ ok tt) ↔ IsPolicy p
check_policy_iff p = (
  λ h.
      let guards = check_policy-guards p h in
      record {
        version = ground arith;
        incomplete = ground arith;
        provider = ground arith;
        builders = ground arith;
        producers = ground arith;
        repositories = ground arith;
      },
  λ h. unfold check_policy in ground arith,
)

pub decode_policy-IsPolicy :
    (platform : Platform) (raw : Bytes) (policy : Policy)
    → decode_policy platform raw ≡ ok policy
    → IsPolicy policy
unfolding decode_policy
decode_policy-IsPolicy platform raw policy h =
    let (read, decoded, h1) =
      >>=-eq-ok (decode_strict platform platform.decode_policy raw max_document_bytes) _ h in
    let (unit, checked, h2) = >>=-eq-ok (check_policy read) _ h1 in
    let same : read ≡ policy = cc in rw same at ((check_policy_iff read).0 checked)
