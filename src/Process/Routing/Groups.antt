-- ===== src/Process/Routing/Groups.antt =====
-- internal/process/callbacks.go: the groups of recipients that share a client.
use alib_fetcher.Base.{
  ◌≡◌, sym, ap, ◌∙◌, List, [], ◌∷◌, ◌++◌, Option, none, some, Bool, true, false, if◌then◌else◌,
  arith, inl, inr, Bool-cases, All,
}
use mathlib.Core.List.{append-nil, append_assoc}
use alib_fetcher.Process.Routing.{CallbackRecipient, CallbackGroup, add_to_group, callback_groups}

module _ {Client : Type 0} (same_client : Client → Client → Bool) where
  -- Sameness of clients is symmetric and transitive.
  pub record IsSameness : Type 0 where
    pub symmetric : (c d : Client) → same_client c d ≡ true → same_client d c ≡ true
    pub transitive :
        (c d e : Client) → same_client c d ≡ true → same_client d e ≡ true → same_client c e ≡ true

  -- The recipients of the group of a client.
  pub group_of : Client → List (CallbackGroup same_client) → List CallbackRecipient
  group_of c [] = []
  group_of c (group ∷ groups) =
      if same_client group.client c then group.recipients else group_of c groups

  -- The recipients with that client.
  pub clients_of : Client → List (Option Client × CallbackRecipient) → List CallbackRecipient
  clients_of c [] = []
  clients_of c ((none, recipient) ∷ rest) = clients_of c rest
  clients_of c ((some d, recipient) ∷ rest) =
      let later = clients_of c rest in if same_client d c then recipient ∷ later else later

  -- No two groups have the same client.
  abbrev pub Distinct : List (CallbackGroup same_client) → Type 0
  Distinct [] = Unit
  Distinct (group ∷ groups) =
      All (λ (other : CallbackGroup same_client). same_client group.client other.client ≡ false)
        groups
      × Distinct groups

  add_to_group-All :
      (P : Client → Type 0) (d : Client) (recipient : CallbackRecipient)
      (groups : List (CallbackGroup same_client))
      → P d
      → All (λ (group : CallbackGroup same_client). P group.client) groups
      → All
          (λ (group : CallbackGroup same_client). P group.client)
          (add_to_group same_client d recipient groups)
  unfolding add_to_group
  add_to_group-All P d recipient [] p ps = (p, tt)
  add_to_group-All P d recipient (group ∷ groups) p ps =
      elim (Bool-cases (same_client group.client d)) [
        | inl same ↦ rw same (ps.0, ps.1)
        | inr other ↦ rw other (ps.0, add_to_group-All P d recipient groups p ps.1)
      ]

  add_to_group-Distinct :
      (d : Client) (recipient : CallbackRecipient) (groups : List (CallbackGroup same_client))
      → Distinct groups
      → Distinct (add_to_group same_client d recipient groups)
  unfolding add_to_group
  add_to_group-Distinct d recipient [] h = (tt, tt)
  add_to_group-Distinct d recipient (group ∷ groups) h =
      elim (Bool-cases (same_client group.client d)) [
        | inl same ↦ rw same (h.0, h.1)
        | inr other ↦ rw other (
          add_to_group-All (λ c. same_client group.client c ≡ false) d recipient groups other h.0,
          add_to_group-Distinct d recipient groups h.1,
        )
      ]

  module _ (sameness : IsSameness) where
    group_of-add_to_group :
        (c d : Client) (recipient : CallbackRecipient) (groups : List (CallbackGroup same_client))
        → group_of c (add_to_group same_client d recipient groups)
          ≡ group_of c groups ++ (if same_client d c then recipient ∷ [] else [])
    unfolding add_to_group group_of
    group_of-add_to_group c d recipient [] = ground arith
    group_of-add_to_group c d recipient (group ∷ groups) = ground (
      arith,
      group_of-add_to_group c d recipient groups,
      append-nil group.recipients,
      append-nil (group_of c groups),
      sameness.symmetric group.client d,
      sameness.symmetric d c,
      sameness.symmetric c d,
      sameness.transitive d group.client c,
      sameness.transitive group.client d c,
      sameness.transitive group.client c d,
    )

    callback_groups-clients_of :
        (xs : List (Option Client × CallbackRecipient)) (groups : List (CallbackGroup same_client))
        → Distinct groups
        → Distinct (callback_groups same_client xs groups)
          × ((c : Client)
              → group_of c (callback_groups same_client xs groups)
                ≡ group_of c groups ++ clients_of c xs)
    unfolding callback_groups clients_of
    callback_groups-clients_of [] groups h = (h, λ c. sym (append-nil (group_of c groups)))
    callback_groups-clients_of ((none, recipient) ∷ rest) groups h =
        callback_groups-clients_of rest groups h
    callback_groups-clients_of ((some d, recipient) ∷ rest) groups h =
        let later =
          callback_groups-clients_of rest (add_to_group same_client d recipient groups)
            (add_to_group-Distinct d recipient groups h) in
        (
          later.0,
          λ c.
              later.1 c
              ∙ ap (λ front. front ++ clients_of c rest)
                  (group_of-add_to_group c d recipient groups)
              ∙ append_assoc (group_of c groups) (if same_client d c then recipient ∷ [] else [])
                  (clients_of c rest)
              ∙ ap (λ back. group_of c groups ++ back) (ground arith),
        )

    -- Where sameness of clients is symmetric and transitive, every client has one group, which holds
    -- the recipients with that client, in their order.
    pub callback_groups-one_each :
        (xs : List (Option Client × CallbackRecipient))
        → Distinct (callback_groups same_client xs [])
          × ((c : Client) → group_of c (callback_groups same_client xs []) ≡ clients_of c xs)
    unfolding group_of
    callback_groups-one_each xs = callback_groups-clients_of xs [] tt
