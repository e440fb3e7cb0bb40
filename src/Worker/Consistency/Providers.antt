-- ===== src/Worker/Consistency/Providers.antt =====
-- The events of providers keep the state consistent.
use wadm.Prelude.{
  String, ◌≡◌, sym, ◌∙◌, ap, subst, arith, ◌⊎◌, Bool, true, false, Option, none, some, List, [],
  ◌∷◌, lookup, insert, remove, lookup-insert, lookup-remove, contains_key, eq_iff, eq_refl, ◌==◌,
  Bool-cases, Option-cases, inl, inr,
}
use wadm.External.{External}
use wadm.Event.{ProviderStarted, ProviderStopped, ProviderHealthCheckInfo, ProviderInfo}
use wadm.Storage.{Host, Provider, pending}
use wadm.Storage.Sets.{set_remove, set_replace, same_provider}
use wadm.Storage.Store.Contract.{Lattice}
use wadm.Worker.Providers.{
  start_provider, complete_provider, add_provider, remove_provider, check_provider, health_status,
  started_info, stopped_info,
}
use wadm.Worker.Effects.Providers.{
  after_started, after_stopped, after_check, provider_after_stop, provider_after_check,
}
use wadm.Worker.Consistency.Places.{hosted_on, listed}
use wadm.Worker.Consistency.{IsConsistent, not_empty_of_key, updated-cases, updated-holds}

-- Sets without the providers of one identifier.
listed-set_remove :
    (a : ProviderInfo) (id : String) (infos : List ProviderInfo)
    → listed id (set_remove same_provider a infos) ≡ true
    → ((a.provider_id == id) ≡ false) × (listed id infos ≡ true)
unfolding set_remove
listed-set_remove a id [] h = absurd (ground (arith, h))
listed-set_remove a id (i ∷ infos) h = ground (
  arith,
  listed-set_remove a id infos,
  eq_iff a.provider_id i.provider_id,
  eq_iff i.provider_id id,
  eq_iff a.provider_id id,
)

complete_provider-hosts :
    (e : ProviderStarted) (p : Provider) → (complete_provider e p).hosts ≡ p.hosts
unfolding complete_provider
complete_provider-hosts e p = ground arith

module _ (e : ProviderStarted) where
  started-hosted :
      (found : Option Provider) → contains_key e.host_id (start_provider e found).0.hosts ≡ true
  unfolding start_provider lookup
  started-hosted none = ground (arith, eq_refl e.host_id)
  started-hosted (some p) = elim (Option-cases (lookup e.host_id p.hosts)) [
    | inl k ↦
        rw (k, start_provider)
          (rw (complete_provider-hosts e (record p { hosts = insert e.host_id pending p.hosts }))
            (ground (arith, lookup-insert e.host_id e.host_id pending p.hosts, eq_refl e.host_id)))
    | inr (status, k) ↦
        rw (k, start_provider) (rw (complete_provider-hosts e p) (ground (arith, k)))
  ]

  started-kept :
      (key : String) (found : Option Provider)
      → hosted_on key found ≡ true
      → contains_key key (start_provider e found).0.hosts ≡ true
  unfolding start_provider
  started-kept key none h = cc
  started-kept key (some p) h = elim (Option-cases (lookup e.host_id p.hosts)) [
    | inl k ↦
        rw (k, start_provider)
          (rw (complete_provider-hosts e (record p { hosts = insert e.host_id pending p.hosts }))
            (ground (arith, h, lookup-insert e.host_id key pending p.hosts)))
    | inr (status, k) ↦ rw (k, start_provider) (rw (complete_provider-hosts e p) h)
  ]

  module _ {x : External} (l : Lattice x) (v : IsConsistent l) where
    -- The inventory of a host after the event.
    started-host :
        (key : String) (h : Host x)
        → (after_started e l).hosts key ≡ some h
        → (l.hosts key ≡ some h)
          ⊎ ((e.host_id ≡ key)
              × (old : Host x) × (l.hosts key ≡ some old)
              × (add_provider e old ≡ h))
    started-host key h k = elim (Bool-cases (start_provider e (l.providers e.provider_id)).1) [
      | inl b ↦ elim (updated-cases (add_provider e) e.host_id l.hosts key h (rw b at k)) [
        | inl (_, there) ↦ inl there
        | inr changed ↦ inr changed
      ]
      | inr b ↦ inl (rw b at k)
    ]

    listed-add_provider :
        (old : Host x) (id : String)
        → listed id (add_provider e old).providers ≡ true
        → (e.provider_id == id) ≡ false
        → listed id old.providers ≡ true
    unfolding add_provider set_replace
    listed-add_provider old id c n =
        (listed-set_remove (started_info e) id old.providers (ground (arith, c, n))).1

    pub after_started-IsConsistent : IsConsistent (after_started e l)
    unfolding add_provider
    after_started-IsConsistent = record {
      keyed = λ key h k. elim (started-host key h k) [
        | inl there ↦ v.keyed key h there
        | inr (_, old, there, same) ↦ ap (λ h. h.id) (sym same) ∙ v.keyed key old there
      ];
      running = λ key h id k c. elim (started-host key h k) [
        | inl there ↦ v.running key h id there c
        | inr (_, old, there, same) ↦
            v.running key old id there
              (subst (λ h. contains_key id h.components ≡ true) (sym same) c)
      ];
      hosted = λ key h id k c. elim (started-host key h k) [
        | inl there ↦
            let before = v.hosted key h id there c in
            updated-holds (λ o. hosted_on key o ≡ true) e.provider_id _ l.providers id
              (λ same. started-kept key (l.providers e.provider_id) (rw same before)) (λ _. before)
        | inr (here, old, there, same) ↦
            updated-holds (λ o. hosted_on key o ≡ true) e.provider_id _ l.providers id
              (λ _. rw (← here) (started-hosted (l.providers e.provider_id)))
              (λ n. v.hosted key old id there (
                listed-add_provider old id (subst (λ h. listed id h.providers ≡ true) (sym same) c)
                  n))
      ];
    }

module _ (e : ProviderStopped) where
  stopped-kept :
      (key : String) (found : Option Provider)
      → (e.host_id == key) ≡ false
      → hosted_on key found ≡ true
      → hosted_on key (provider_after_stop e found) ≡ true
  stopped-kept key none n h = cc
  stopped-kept key (some p) n h =
      let kept : contains_key key (remove e.host_id p.hosts) ≡ true =
        ground (arith, n, h, lookup-remove e.host_id key p.hosts) in
      let there = not_empty_of_key key (remove e.host_id p.hosts) kept in
      elim (Option-cases (lookup e.host_id p.hosts)) [
        | inl k ↦ rw (k, provider_after_stop) h
        | inr (_, k) ↦ rw (k, there, provider_after_stop) kept
      ]

  module _ {x : External} (l : Lattice x) (v : IsConsistent l) where
    pub after_stopped-IsConsistent : IsConsistent (after_stopped e l)
    unfolding remove_provider
    after_stopped-IsConsistent = record {
      keyed = λ key h k. elim (updated-cases (remove_provider e) e.host_id l.hosts key h k) [
        | inl (_, there) ↦ v.keyed key h there
        | inr (_, old, there, same) ↦ ap (λ h. h.id) (sym same) ∙ v.keyed key old there
      ];
      running = λ key h id k c. elim (updated-cases (remove_provider e) e.host_id l.hosts key h k) [
        | inl (_, there) ↦ v.running key h id there c
        | inr (_, old, there, same) ↦
            v.running key old id there
              (subst (λ h. contains_key id h.components ≡ true) (sym same) c)
      ];
      hosted = λ key h id k c. elim (updated-cases (remove_provider e) e.host_id l.hosts key h k) [
        | inl (n, there) ↦
            let before = v.hosted key h id there c in
            updated-holds (λ o. hosted_on key o ≡ true) e.provider_id _ l.providers id
              (λ same. stopped-kept key (l.providers e.provider_id) n (rw same before))
              (λ _. before)
        | inr (here, old, there, same) ↦
            let c' =
              listed-set_remove (stopped_info e) id old.providers
                (subst (λ h. listed id h.providers ≡ true) (sym same) c) in
            updated-holds (λ o. hosted_on key o ≡ true) e.provider_id _ l.providers id
              (λ same'. absurd (ground (arith, c'.0, same', eq_iff e.provider_id id)))
              (λ _. v.hosted key old id there c'.1)
      ];
    }

module _ (e : ProviderHealthCheckInfo) (failing : Option Bool) where
  checked-kept :
      (key : String) (found : Option Provider)
      → hosted_on key found ≡ true
      → contains_key key (provider_after_check e failing found).hosts ≡ true
  unfolding check_provider
  checked-kept key none h = cc
  checked-kept key (some p) h =
      elim (Option-cases (health_status (lookup e.host_id p.hosts) failing)) [
        | inl k ↦ rw (k, check_provider) h
        | inr (status, k) ↦
            rw (k, check_provider) (ground (arith, h, lookup-insert e.host_id key status p.hosts))
      ]

  module _ {x : External} (l : Lattice x) (v : IsConsistent l) where
    pub after_check-IsConsistent : IsConsistent (after_check e failing l)
    after_check-IsConsistent = record {
      keyed = v.keyed;
      running = v.running;
      hosted = λ key h id k c.
          let before = v.hosted key h id k c in
          updated-holds (λ o. hosted_on key o ≡ true) e.provider_id _ l.providers id
            (λ same. checked-kept key (l.providers e.provider_id) (rw same before)) (λ _. before);
    }
