-- ===== src/Authz/Modes.antt =====
-- What the two modes of cmd/rpf-authz-target/main.go grant, and what cmd/rpf-authz-proof/main.go
-- finds out of them.
use runtime_provenance_firew.Base.{
  String, ◌≡◌, ◌≢◌, ◌↔◌, refl, ap, ◌∙◌, true, false, some, arith, ◌==◌, string_eq, string_dec, ok,
  err, marker_missing, proof_granted,
}
use runtime_provenance_firew.Authz.{
  Request, Response, Dialer, authorize, target_identity, proof_request, prove,
}

-- In every mode but the vulnerable one, the target grants exactly the requests for itself whose
-- session has the admin role; the role that the adapter claims has no part in it.
pub authorize-granted_iff :
    (mode : String) (input : Request)
    → mode ≢ "intentionally-vulnerable"
    → ((authorize mode input).granted ≡ true)
      ↔ ((input.target ≡ target_identity) × (input.session_role ≡ "builder-admin"))
unfolding authorize
authorize-granted_iff mode input patched = (λ h. ground arith, λ h. ground arith)

abbrev denied : Response
denied = record { granted = false; marker = ""; reason = "authorization_denied" }

abbrev granted : Response
granted = record { granted = true; marker = "RPF_SYNTHETIC_ADMIN_MARKER"; reason = "authorized" }

authorize-vulnerable : authorize "intentionally-vulnerable" proof_request ≡ granted
unfolding authorize string_eq string_dec
authorize-vulnerable = refl

authorize-patched :
    (mode : String)
    → (mode == "intentionally-vulnerable") ≡ false
    → authorize mode proof_request ≡ denied
unfolding authorize string_eq string_dec
authorize-patched mode patched = rw patched refl

module _ (host : Dialer) (address : String) (loopback : host.is_loopback address ≡ some true)
    (dials : host.dials ≡ true) (sends : host.sends ≡ true) where
  prove-denied :
      host.exchange proof_request ≡ some denied
      → (prove host address "deny" ≡ ok denied) × (prove host address "grant" ≡ err marker_missing)
  unfolding prove string_eq string_dec
  prove-denied h = (rw (loopback, dials, sends, h) refl, rw (loopback, dials, sends, h) refl)

  prove-granted :
      host.exchange proof_request ≡ some granted
      → (prove host address "deny" ≡ err proof_granted) × (prove host address "grant" ≡ ok granted)
  unfolding prove string_eq string_dec
  prove-granted h = (rw (loopback, dials, sends, h) refl, rw (loopback, dials, sends, h) refl)

-- At a loopback address and over a connection that works, where the target's answer is its
-- `authorize` in the mode, a proof that expects a denial succeeds exactly when the mode is not the
-- vulnerable one, and one that expects a grant exactly when it is.
pub prove_iff :
    (host : Dialer) (address mode : String)
    → host.is_loopback address ≡ some true
    → host.dials ≡ true
    → host.sends ≡ true
    → host.exchange proof_request ≡ some (authorize mode proof_request)
    → (((r : Response) × (prove host address "deny" ≡ ok r)) ↔ (mode ≢ "intentionally-vulnerable"))
      × (((r : Response) × (prove host address "grant" ≡ ok r))
          ↔ (mode ≡ "intentionally-vulnerable"))
prove_iff host address mode loopback dials sends answers =
    elim (string_eq.dec mode "intentionally-vulnerable") [
      | yes same ↦
          let answer : host.exchange proof_request ≡ some granted =
            answers
            ∙ ap (λ m. some (authorize m proof_request)) same
            ∙ ap some authorize-vulnerable in
          let (deny, grant) = prove-granted host address loopback dials sends answer in
          ((λ (r, h). cc, λ h. absurd (h same)), (λ (r, h). same, λ h. (granted, grant)))
      | no differ ↦
          let answer : host.exchange proof_request ≡ some denied =
            answers ∙ ap some (authorize-patched mode (ground arith)) in
          let (deny, grant) = prove-denied host address loopback dials sends answer in
          ((λ (r, h). differ, λ h. (denied, deny)), (λ (r, h). cc, λ h. absurd (differ h)))
    ]
