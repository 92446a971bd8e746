-- ===== src/Behavior/Precedence.antt =====
-- The decision of `Verify` as a function of the set of effects: REJECT before REVIEW before ALLOW.
use runtime_provenance_firew.Base.{
  String, ◌≡◌, ◌≢◌, refl, ◌↔◌, ◌⊎◌, List, [], ◌∷◌, arith, ◌==◌, string_eq, texts_differ,
  if◌then◌else◌,
}
use runtime_provenance_firew.Model.{Reason}
use runtime_provenance_firew.Behavior.{decide_from, decide}

-- Some reason has the effect.
abbrev pub HasEffect : String → List Reason → Type 0
HasEffect effect [] = ⊥
HasEffect effect (r ∷ rs) = (r.effect ≡ effect) ⊎ HasEffect effect rs

review-ne-reject : ◌≢◌ {A = String} "REVIEW" "REJECT"
review-ne-reject = texts_differ "REVIEW" "REJECT" refl

allow-ne-reject : ◌≢◌ {A = String} "ALLOW" "REJECT"
allow-ne-reject = texts_differ "ALLOW" "REJECT" refl

allow-ne-review : ◌≢◌ {A = String} "ALLOW" "REVIEW"
allow-ne-review = texts_differ "ALLOW" "REVIEW" refl

decide_from-reject :
    (d : String) (rs : List Reason)
    → d ≢ "REJECT"
    → (decide_from d rs ≡ "REJECT") ↔ HasEffect "REJECT" rs
unfolding decide_from
decide_from-reject d [] h = (λ e. h e, λ n. absurd n)
decide_from-reject d (r ∷ rs) h =
    let ih =
      decide_from-reject (if r.effect == "REVIEW" then "REVIEW" else d) rs
        (ground (arith, review-ne-reject)) in
    (λ e. ground (arith, ih.0), λ e. ground (arith, ih.1))

decide_from-allow :
    (d : String) (rs : List Reason)
    → (decide_from d rs ≡ "ALLOW")
      ↔ ((d ≡ "ALLOW") × (HasEffect "REJECT" rs → ⊥) × (HasEffect "REVIEW" rs → ⊥))
unfolding decide_from
decide_from-allow d [] = (λ e. (e, λ n. n, λ n. n), λ e. e.0)
decide_from-allow d (r ∷ rs) =
    let ih = decide_from-allow (if r.effect == "REVIEW" then "REVIEW" else d) rs in
    (
      λ e. (
        ground (arith, ih.0, allow-ne-reject, allow-ne-review),
        λ n. ground (arith, ih.0, allow-ne-reject, allow-ne-review, n),
        λ n. ground (arith, ih.0, allow-ne-reject, allow-ne-review, n),
      ),
      λ e. ground (arith, ih.1, e.1, e.2),
    )

-- The decision is REJECT exactly when some reason has the effect REJECT, wherever it stands among
-- the reasons.
pub decide-reject_iff : (rs : List Reason) → (decide rs ≡ "REJECT") ↔ HasEffect "REJECT" rs
unfolding decide
decide-reject_iff rs = decide_from-reject "ALLOW" rs allow-ne-reject

-- The decision is ALLOW exactly when no reason has the effect REJECT and none the effect REVIEW.
pub decide-allow_iff :
    (rs : List Reason)
    → (decide rs ≡ "ALLOW") ↔ ((HasEffect "REJECT" rs → ⊥) × (HasEffect "REVIEW" rs → ⊥))
unfolding decide
decide-allow_iff rs = (
  λ e. let parts = (decide_from-allow "ALLOW" rs).0 e in (parts.1, parts.2),
  λ n. (decide_from-allow "ALLOW" rs).1 (refl, n.0, n.1),
)
