-- ===== src/Agent/Lines.antt =====
-- cmd/rpf-sensor/main_linux.go: the lines of `writeEvent` as writes of the chain of
-- internal/rpf/chain.go.
use mathlib.Core.List.{append_assoc}
use runtime_provenance_firew.Base.{
  ◌≡◌, refl, sym, ap, subst, ◌∙◌, not, List, [], ◌∷◌, ◌++◌, ok, >>=-eq-ok, fail_if-eq-ok,
  persist_failed, sync_failed,
}
use runtime_provenance_firew.Model.{Event}
use runtime_provenance_firew.Platform.{Platform, Bytes}
use runtime_provenance_firew.Chain.{EventChain, append}
use runtime_provenance_firew.Chain.Append.{stamped, IsStamped}
use runtime_provenance_firew.Chain.Verified.{Writes, written}
use runtime_provenance_firew.Chain.Parsed.{output}
use runtime_provenance_firew.Agent.{Output, write_event}

-- From the chain `chain` on, the events `es` are written with the bytes `bytes`, which leaves the
-- chain `next`.
abbrev pub Extends : (platform : Platform) → EventChain → List Event → EventChain → Bytes → Type 0
Extends platform chain es next bytes =
    (fs : List Event) (w : Writes platform next fs)
    → (v : Writes platform chain (es ++ fs)) × (output platform v ≡ bytes ++ output platform w)

pub Extends-append :
    (platform : Platform) (a b c : EventChain) (es fs : List Event) (x y : Bytes)
    → Extends platform a es b x
    → Extends platform b fs c y
    → Extends platform a (es ++ fs) c (x ++ y)
Extends-append platform a b c es fs x y first second gs w =
    let (v, out) = second gs w in
    let (u, whole) = first (fs ++ gs) v in
    subst (λ es. (u : Writes platform a es) × (output platform u ≡ (x ++ y) ++ output platform w))
      (sym (append_assoc es fs gs))
      (u, whole ∙ ap (λ o. x ++ o) out ∙ sym (append_assoc x y (output platform w)))

-- The event that a call of `writeEvent` appends, and its line.
write_event-eq-ok :
    (platform : Platform) (file : Output) (chain : EventChain) (event : Event) (next : EventChain)
    (line : Bytes)
    → write_event platform file chain event ≡ ok (next, line)
    → (f : Event) × ((append platform chain event).1 ≡ ok (f, line))
      × ((append platform chain event).0 ≡ next)
unfolding write_event
write_event-eq-ok platform file chain event next line h =
    let (pair, appended, h1) = >>=-eq-ok (append platform chain event).1 _ h in
    let (_, h2) = fail_if-eq-ok (not (file.writes pair.1)) persist_failed _ h1 in
    let (_, h3) = fail_if-eq-ok (not (file.syncs pair.1)) sync_failed _ h2 in
    let same : pair.1 ≡ line = cc in (pair.0, appended ∙ ap (λ l. ok (pair.0, l)) same, cc)

-- A chain's writes are those of an equal chain, with the same output.
same_output :
    (platform : Platform) (chain next : EventChain) (fs : List Event)
    → chain ≡ next
    → (w : Writes platform next fs)
    → (v : Writes platform chain fs) × (output platform v ≡ output platform w)
same_output platform chain next fs same w =
    subst (λ c. (v : Writes platform c fs) × (output platform v ≡ output platform w)) (sym same)
      (w, refl)

-- What a call of `writeEvent` that returns has written.
pub record IsWritten (platform : Platform) (chain : EventChain) (event : Event)
    (r : EventChain × Bytes) (f : Event) : Type 0 where
  pub extends : Extends platform chain (f ∷ []) r.0 r.1
  pub stamped : IsStamped platform chain event f

pub write_event-IsWritten :
    (platform : Platform) (file : Output) (chain : EventChain) (event : Event)
    (r : EventChain × Bytes)
    → write_event platform file chain event ≡ ok r
    → (f : Event) × IsWritten platform chain event r f
write_event-IsWritten platform file chain event r h =
    let (f, appended, next) = write_event-eq-ok platform file chain event r.0 r.1 h in
    (
      f,
      record {
        extends = λ fs w.
            let (v, same) = same_output platform (append platform chain event).0 r.0 fs next w in
            (written chain event f r.1 fs appended v, ap (λ o. r.1 ++ o) same);
        stamped = stamped platform chain event f r.1 appended;
      },
    )
