-- ===== src/Storage/Reaper/Reaped.antt =====
-- What is left when every step of the reaper succeeds.
use wadm.Prelude.{
  ℕ, ◌+◌, ◌*◌, ◌≤◌, String, ◌≡◌, refl, sym, ◌∙◌, ap, subst, arith, inl, inr, true, false, not, none,
  some, Map, lookup, keys, contains, contains_key, contains-keys, filter, filter_map, map,
  Bool-cases, ok, if◌then◌else◌,
}
use wadm.Prelude.Actions.{Ensures, Ensures-imp, Ensures-bind, Ensures-read}
use wadm.External.{External}
use wadm.Storage.{Component, Host, Provider}
use wadm.Storage.Store.{Store}
use wadm.Storage.Store.Contract.{IsStore, Lattice, erase, erase-eq, with_components, with_providers}
use wadm.Storage.Store.Sweep.{sweep, sweep-cases}
use wadm.Storage.Reaper.{
  is_stale, lists, reap_component, reap_provider, has_instances, has_hosts, reap_hosts,
  reap_components, reap_providers, reap_listed, reap,
}
use wadm.Storage.Reaper.Entries.{
  contains-filter, AllSeen, NoneStale, keys-map, IsPlaced, reaped-All, NoneLost, IsHosted,
  reaped_providers-All, unchanged, unreaped,
}

module _ {x : External} {σ : Type 0} (db : Store x σ) (view : σ → Lattice x)
    (is_store : IsStore db view) where
  -- When the step for the hosts succeeds, no host is left that was not seen for two intervals.
  pub reap_hosts-AllSeen :
      (interval now : ℕ) (s t : σ)
      → reap_hosts db interval now s ≡ (ok tt, t)
      → AllSeen interval now (view t).hosts
  unfolding reap_hosts
  reap_hosts-AllSeen interval now s t done key h there =
      (Ensures-read (λ s. db.hosts.list s) _ s
          (λ _ t. (view t).hosts key ≡ some h → now ≤ interval * 2 + h.last_seen)
          (λ hosts listed.
            let (distinct, found) = is_store.hosts.list_found s hosts listed in
            let stale = keys (filter (λ e. is_stale interval now e.1) hosts) in
            Ensures-imp _ _ (is_store.hosts.deleted stale s) (λ _ u gone left.
              let at : (if contains key stale then none else (view s).hosts key) ≡ some h =
                sym (erase-eq stale (view s).hosts key) ∙ sym (ap (λ l. l.hosts key) gone) ∙ left in
              elim (Bool-cases (is_stale interval now h)) [
                | inr k ↦ ground (arith, k)
                | inl k ↦ elim (Bool-cases (contains key stale)) [
                  | inl c ↦ absurd (ground (arith, c, at))
                  | inr c ↦ absurd (
                      ground (
                        arith,
                        c,
                        contains-filter (is_stale interval now) key h hosts
                            (found key ∙ ground (arith, c, at)) k,
                      ))
                ]
              ]))).at
        tt t done there

  components-effect :
      (hosts : Map (Host x)) (s : σ)
      → Ensures
          (reap_components db hosts s)
          (λ _ t. ((view t).hosts ≡ (view s).hosts) × NoneStale hosts (view t).components)
  unfolding reap_components
  components-effect hosts s =
      Ensures-read (λ s. db.components.list s) _ s _
        (λ entries listed.
          let (distinct, found) = is_store.components.list_found s entries listed in
          let reaped : Map Component =
            map (λ (e : String × Component). (e.0, reap_component hosts e.1)) entries in
          Ensures-bind _ _ s _ (is_store.components.stored (filter has_instances reaped) s)
            (λ _ u stored.
              Ensures-imp _ _
                (is_store.components.deleted (keys (filter (λ e. not (has_instances e)) reaped)) u)
                (λ _ v deleted.
                  let joined : view v
                      ≡ with_components (sweep has_instances reaped (view s).components) (view s) =
                    deleted
                    ∙ ap
                        (λ l.
                          with_components
                            (erase (keys (filter (λ e. not (has_instances e)) reaped)) l.components)
                            l)
                        stored in
                  (
                    ap (λ l. l.hosts) joined,
                    λ id c key there running.
                        let at = sym (ap (λ l. l.components id) joined) ∙ there in
                        elim (sweep-cases has_instances reaped (view s).components (IsPlaced hosts)
                          id (reaped-All hosts entries)) [
                            | inl (d, e, p) ↦
                                let same : d ≡ c = ground (arith, e, at) in
                                subst
                                  (λ d.
                                    (key : String)
                                    → contains_key key d.instances ≡ true
                                    → lists hosts d.id key ≡ true)
                                  same p key running
                            | inr (inl (e, _, _, _)) ↦ absurd (ground (arith, e, at))
                            | inr (inr (out, e)) ↦
                                let missing : contains id (keys entries) ≡ false =
                                  ap (contains id) (sym (keys-map (reap_component hosts) entries))
                                  ∙ out in
                                absurd (
                                  ground
                                    (arith, missing, contains-keys id entries, found id, e, at))
                          ],
                  ))))

  providers-effect :
      (hosts : Map (Host x)) (s : σ)
      → Ensures (reap_providers db hosts s) (λ _ t.
        ((view t).hosts ≡ (view s).hosts)
        × ((view t).components ≡ (view s).components)
        × NoneLost hosts (view t).providers)
  unfolding reap_providers
  providers-effect hosts s =
      Ensures-read (λ s. db.providers.list s) _ s _
        (λ entries listed.
          let (distinct, found) = is_store.providers.list_found s entries listed in
          let reaped : Map Provider = filter_map (reap_provider hosts) entries in
          Ensures-bind _ _ s _ (is_store.providers.stored (filter has_hosts reaped) s)
            (λ _ u stored.
              Ensures-imp _ _
                (is_store.providers.deleted (keys (filter (λ e. not (has_hosts e)) reaped)) u)
                (λ _ v deleted.
                  let joined : view v
                      ≡ with_providers (sweep has_hosts reaped (view s).providers) (view s) =
                    deleted
                    ∙ ap
                        (λ l.
                          with_providers
                            (erase (keys (filter (λ e. not (has_hosts e)) reaped)) l.providers) l)
                        stored in
                  (
                    ap (λ l. l.hosts) joined,
                    ap (λ l. l.components) joined,
                    λ id p key there running.
                        let at = sym (ap (λ l. l.providers id) joined) ∙ there in
                        elim (sweep-cases has_hosts reaped (view s).providers (IsHosted hosts) id
                          (reaped_providers-All hosts entries)) [
                            | inl (d, e, h) ↦
                                let same : d ≡ p = ground (arith, e, at) in
                                subst
                                  (λ (d : Provider).
                                    (key : String)
                                    → contains_key key d.hosts ≡ true
                                    → contains_key key hosts ≡ true)
                                  same h key running
                            | inr (inl (e, _, _, _)) ↦ absurd (ground (arith, e, at))
                            | inr (inr (out, e)) ↦
                                unchanged hosts id p
                                  (unreaped hosts id p entries (found id ∙ sym e ∙ at) out) key
                                  running
                          ],
                  ))))

  -- What a tick leaves, with the hosts that it found.
  pub record IsReaped (interval now : ℕ) (hosts : Map (Host x)) (l : Lattice x) : Type 0 where
    pub seen : AllSeen interval now l.hosts
    pub placed : NoneStale hosts l.components
    pub hosted : NoneLost hosts l.providers
    pub current : (key : String) → lookup key hosts ≡ l.hosts key

  -- After a tick whose steps all succeed: no host is stored that was not seen for two intervals,
  -- every instance of a component is on a stored host that lists the component, and every provider
  -- is on stored hosts only.
  pub reap-IsReaped :
      (interval now : ℕ) (s t u v : σ) (hosts : Map (Host x))
      → reap_hosts db interval now s ≡ (ok tt, t)
      → db.hosts.list t ≡ ok hosts
      → reap_components db hosts t ≡ (ok tt, u)
      → reap_providers db hosts u ≡ (ok tt, v)
      → (reap db interval now s ≡ v) × IsReaped interval now hosts (view v)
  unfolding reap reap_listed
  reap-IsReaped interval now s t u v hosts first listed second third =
      let (same_t, stale) = (components-effect hosts t).at tt u second in
      let (same_u, kept, lost) = (providers-effect hosts u).at tt v third in
      let same : (view v).hosts ≡ (view t).hosts = same_u ∙ same_t in
      (
        rw (first, listed, reap_listed, second, third) refl,
        record {
          seen = λ key h there.
              reap_hosts-AllSeen interval now s t first key h (sym (ap (λ f. f key) same) ∙ there);
          placed = λ id c key there. stale id c key (sym (ap (λ f. f id) kept) ∙ there);
          hosted = lost;
          current =
              λ key. (is_store.hosts.list_found t hosts listed).1 key ∙ sym (ap (λ f. f key) same);
        },
      )
