-- ===== src/Connection/Tallies.antt =====
-- How often completion callbacks are called and wait
-- (TransportInfra/EndpointConnectionInitialiserBase.hpp).
use ipcinfra.Prelude.{
  ℕ, ◌+◌, ◌≡◌, refl, sym, ap, ◌∙◌, Bool-cases, inl, inr, Option, none, some, List, [], ◌∷◌, ◌++◌,
  arith, if◌then◌else◌,
}
use mathlib.Core.Option
use ipcinfra.Prelude.Classes.{Eq, ◌==◌, ==_iff, nat_eq}
use ipcinfra.LookupTable.Hash.{find, insert_or_assign, erase}
use ipcinfra.LookupTable.Hash.Laws.{IsUnique, erase-IsUnique, insert_or_assign-IsUnique}
use ipcinfra.Connection.{ClientEndpointSubscriber, Connection, complete_client_service}

module _ {E C : Type 0} ⦃callbacks : Eq C⦄ where
  -- How often a callback was called, and how often it still waits.
  abbrev pub called : C → List (C × Option E) → ℕ
  called cb [] = 0
  called cb ((c, e) ∷ completed) = (if c == cb then 1 else 0) + called cb completed

  abbrev pub pending : C → List (ℕ × ClientEndpointSubscriber E C) → ℕ
  pending cb [] = 0
  pending cb ((id, client) ∷ active) =
      (if client.completion_callback == cb then 1 else 0) + pending cb active

  called-append :
      (cb : C) (completed more : List (C × Option E))
      → called cb (completed ++ more) ≡ called cb completed + called cb more
  called-append cb [] more = omega arith
  called-append cb ((c, e) ∷ completed) more = omega (arith, called-append cb completed more)

  pending-erase-absent :
      (cb : C) (id : ℕ) (active : List (ℕ × ClientEndpointSubscriber E C))
      → find id active ≡ none
      → pending cb (erase id active) ≡ pending cb active
  unfolding find erase
  pending-erase-absent cb id [] absent = refl
  pending-erase-absent cb id ((j, client) ∷ active) absent = elim (Bool-cases (j == id)) [
    | inl same ↦ absurd (Option.some-ne-none client (rw same at absent))
    | inr other ↦ rw other (omega (arith, pending-erase-absent cb id active (rw other at absent)))
  ]

  pending-erase :
      (cb : C) (id : ℕ) (client : ClientEndpointSubscriber E C)
      (active : List (ℕ × ClientEndpointSubscriber E C))
      → IsUnique active
      → find id active ≡ some client
      → pending cb (erase id active) + (if client.completion_callback == cb then 1 else 0)
        ≡ pending cb active
  unfolding find erase
  pending-erase cb id client [] unique there = absurd (Option.none-ne-some client there)
  pending-erase cb id client ((j, other) ∷ active) unique there = elim (Bool-cases (j == id)) [
    | inl same ↦
        let here = Option.some-injective other client (rw same at there) in
        let gone =
          pending-erase-absent cb id active
            (ap (λ (k : ℕ). find k active) (sym ((==_iff j id).0 same)) ∙ unique.0) in
        let weighs =
          ap {B = ℕ}
            (λ (c : ClientEndpointSubscriber E C). if c.completion_callback == cb then 1 else 0)
            here in
        rw same (omega (arith, gone, weighs))
    | inr differs ↦
        rw differs (omega (arith, pending-erase cb id client active unique.1 (rw differs at there)))
  ]

  pending-insert_or_assign :
      (cb : C) (id : ℕ) (client client' : ClientEndpointSubscriber E C)
      (active : List (ℕ × ClientEndpointSubscriber E C))
      → find id active ≡ some client
      → client'.completion_callback ≡ client.completion_callback
      → pending cb (insert_or_assign id client' active).0 ≡ pending cb active
  unfolding find insert_or_assign
  pending-insert_or_assign cb id client client' [] there same =
      absurd (Option.none-ne-some client there)
  pending-insert_or_assign cb id client client' ((j, other) ∷ active) there same =
      elim (Bool-cases (j == id)) [
        | inl here ↦
            let found = Option.some-injective other client (rw here at there) in
            let weighs =
              ap {B = ℕ} (λ (c : C). if c == cb then 1 else 0)
                (same
                  ∙ sym (ap (λ (c : ClientEndpointSubscriber E C). c.completion_callback) found)) in
            rw here (omega (arith, weighs))
        | inr differs ↦ rw differs (
            omega (
              arith,
              pending-insert_or_assign cb id client client' active (rw differs at there) same,
            ))
      ]

module _ {E C L : Type 0} ⦃callbacks : Eq C⦄ where
  -- No callback is forgotten and none is called twice, and no entry is doubled.
  pub record Conserves (cb : C) (s s' : Connection E C L) : Type 0 where
    pub balanced :
        called cb s'.completed + pending cb s'.active_subscriptions
        ≡ called cb s.completed + pending cb s.active_subscriptions
    pub stays_unique : IsUnique s'.active_subscriptions

  pub complete-Conserves :
      (cb : C) (id : ℕ) (client client' : ClientEndpointSubscriber E C) (s : Connection E C L)
      → find id s.active_subscriptions ≡ some client
      → IsUnique s.active_subscriptions
      → client'.completion_callback ≡ client.completion_callback
      → Conserves cb s (complete_client_service id client' s)
  unfolding complete_client_service
  complete-Conserves cb id client client' s there unique same =
      let weighs = ap {B = ℕ} (λ (c : C). if c == cb then 1 else 0) same in
      record {
        balanced = omega (
          arith,
          weighs,
          pending-erase cb id client s.active_subscriptions unique there,
          called-append cb s.completed
              ((client'.completion_callback, client'.p_wrapped_endpoint) ∷ []),
        );
        stays_unique = erase-IsUnique id s.active_subscriptions unique;
      }

  pub assign-Conserves :
      (cb : C) (id : ℕ) (client client' : ClientEndpointSubscriber E C) (s : Connection E C L)
      (l : L)
      → find id s.active_subscriptions ≡ some client
      → IsUnique s.active_subscriptions
      → client'.completion_callback ≡ client.completion_callback
      → Conserves cb s (record s {
        active_subscriptions = (insert_or_assign id client' s.active_subscriptions).0;
        listener = l;
      })
  assign-Conserves cb id client client' s l there unique same = record {
    balanced =
        ap (λ (n : ℕ). called cb s.completed + n)
          (pending-insert_or_assign cb id client client' s.active_subscriptions there same);
    stays_unique = insert_or_assign-IsUnique id client' s.active_subscriptions unique;
  }

  pub Conserves-trans :
      {cb : C} {s s' s'' : Connection E C L}
      → Conserves cb s s'
      → Conserves cb s' s''
      → Conserves cb s s''
  Conserves-trans first next = record {
    balanced = next.balanced ∙ first.balanced;
    stays_unique = next.stays_unique;
  }
