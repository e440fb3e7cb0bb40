-- ===== src/Worker/Consistency/Stopped.antt =====
-- Starting and stopping hosts keeps the state consistent.
use wadm.Prelude.{
  ℕ, String, ◌≡◌, refl, sym, ◌∙◌, ap, subst, arith, ◌⊎◌, true, false, Option, none, some, Map,
  lookup, remove, lookup-remove, contains_key, is_empty, eq_iff, eq_refl, ◌==◌, Bool-cases,
  Option-cases, inl, inr, ok,
}
use wadm.External.{External}
use wadm.Event.{HostStarted, HostStopped}
use wadm.Storage.{Host}
use wadm.Storage.Conversions.{host_of_started}
use wadm.Storage.Store.{Store}
use wadm.Worker.Hosts.{handle_host_stopped}
use wadm.Storage.Store.Contract.{IsStore, Lattice, View, update, with_hosts}
use wadm.Worker.Effects.Hosts.{HostRemoved, AfterStop, handle_host_stopped-effect}
use wadm.Worker.Consistency.Places.{runs_on, hosted_on, listed}
use wadm.Worker.Consistency.{IsConsistent, not_empty_of_key}

-- An entry that remains after one was put or taken out.
pub put-cases :
    {A : Type 0} (at : String) (value : Option A) (view : View A) (key : String) (a : A)
    → update at value view key ≡ some a
    → (((at == key) ≡ false) × (view key ≡ some a)) ⊎ ((at ≡ key) × (value ≡ some a))
unfolding update
put-cases at value view key a h = elim (Bool-cases (at == key)) [
  | inl e ↦ inr (ground (arith, eq_iff at key, e), ground (arith, e, h))
  | inr e ↦ inl (e, ground (arith, e, h))
]

module _ {A : Type 0} (gone : String) (m : Map A) where
  kept_elsewhere :
      (key : String)
      → (gone == key) ≡ false
      → contains_key key m ≡ true
      → contains_key key (remove gone m) ≡ true
  kept_elsewhere key n h = ground (arith, n, h, lookup-remove gone key m)

  not_there : contains_key gone (remove gone m) ≡ false
  not_there = ground (arith, lookup-remove gone gone m, eq_refl gone)

module _ {x : External} {id : String} {current : Host x} {l l' : Lattice x}
    (keyed : current.id ≡ id) (r : HostRemoved id current l l') where
  -- Components and providers keep running on the other hosts.
  stopped-runs :
      (key cid : String)
      → (id == key) ≡ false
      → runs_on key (l.components cid) ≡ true
      → runs_on key (l'.components cid) ≡ true
  stopped-runs key cid n h =
      let untouched : l'.components cid ≡ r.first.components cid =
        ap (λ l. l.components cid) r.removed ∙ ap (λ c. c cid) r.providers_stopped.components in
      let n' : (current.id == key) ≡ false = rw keyed n in
      rw untouched (elim (r.components_stopped.component cid) [
        | inl (c, e, p) ↦
            rw (e, p.stopped)
              (kept_elsewhere current.id p.old.instances key n' (ground (arith, h, p.there)))
        | inr (inl (e, c, p, empty)) ↦
            let kept =
              kept_elsewhere current.id p.old.instances key n' (ground (arith, h, p.there)) in
            let full = not_empty_of_key key (remove current.id p.old.instances) kept in
            absurd (ground (arith, empty, full, ap (λ c. is_empty c.instances) p.stopped))
        | inr (inr (_, e)) ↦ rw e h
      ])

  -- No component of the inventory runs on the host any more.
  pub stopped-no_component :
      (cid : String)
      → contains_key cid current.components ≡ true
      → runs_on id (l'.components cid) ≡ false
  stopped-no_component cid h =
      let untouched : l'.components cid ≡ r.first.components cid =
        ap (λ l. l.components cid) r.removed ∙ ap (λ c. c cid) r.providers_stopped.components in
      rw untouched (elim (r.components_stopped.component cid) [
        | inl (c, e, p) ↦ rw (e, p.stopped, ← keyed) (not_there current.id p.old.instances)
        | inr (inl (e, _, _, _)) ↦ rw e refl
        | inr (inr (inl n, e)) ↦ rw (e, n) refl
        | inr (inr (inr n, e)) ↦ cc
      ])

  stopped-hosted :
      (key pid : String)
      → (id == key) ≡ false
      → hosted_on key (l.providers pid) ≡ true
      → hosted_on key (l'.providers pid) ≡ true
  stopped-hosted key pid n h =
      let untouched : l'.providers pid ≡ r.second.providers pid =
        ap (λ l. l.providers pid) r.removed in
      let before : r.first.providers pid ≡ l.providers pid =
        ap (λ p. p pid) r.components_stopped.providers in
      rw untouched (elim (r.providers_stopped.provider pid) [
        | inl (c, e, p) ↦
            rw (e, p.stopped)
              (kept_elsewhere id p.old.hosts key n (ground (arith, h, before, p.there)))
        | inr (inl (e, c, p, empty)) ↦
            let kept = kept_elsewhere id p.old.hosts key n (ground (arith, h, before, p.there)) in
            let full = not_empty_of_key key (remove id p.old.hosts) kept in
            absurd (ground (arith, empty, full, ap (λ p. is_empty p.hosts) p.stopped))
        | inr (inr (_, e)) ↦ rw (e, before) h
      ])

  -- No provider of the inventory has a status on the host any more.
  pub stopped-no_provider :
      (pid : String) → listed pid current.providers ≡ true → hosted_on id (l'.providers pid) ≡ false
  stopped-no_provider pid h =
      let untouched : l'.providers pid ≡ r.second.providers pid =
        ap (λ l. l.providers pid) r.removed in
      rw untouched (elim (r.providers_stopped.provider pid) [
        | inl (c, e, p) ↦ rw (e, p.stopped) (not_there id p.old.hosts)
        | inr (inl (e, _, _, _)) ↦ rw e refl
        | inr (inr (n, e)) ↦ rw e (elim (Option-cases (r.first.providers pid)) [
          | inl k ↦ rw k refl
          | inr (p, k) ↦ rw k (ground (arith, n, k, h))
        ])
      ])

  removed-host :
      (key : String) (h : Host x)
      → l'.hosts key ≡ some h
      → ((id == key) ≡ false) × (l.hosts key ≡ some h)
  removed-host key h k =
      let before : r.second.hosts key ≡ l.hosts key =
        ap (λ h. h key) r.providers_stopped.hosts ∙ ap (λ h. h key) r.components_stopped.hosts in
      let now : update id none r.second.hosts key ≡ some h =
        sym (ap (λ l. l.hosts key) r.removed) ∙ k in
      elim (put-cases id none r.second.hosts key h now) [
        | inl (n, there) ↦ (n, sym before ∙ there)
        | inr (_, gone) ↦ absurd (ground (arith, gone))
      ]

  HostRemoved-IsConsistent : IsConsistent l → IsConsistent l'
  HostRemoved-IsConsistent v = record {
    keyed = λ key h k. v.keyed key h (removed-host key h k).1;
    running = λ key h cid k c.
        let (n, there) = removed-host key h k in
        stopped-runs key cid n (v.running key h cid there c);
    hosted = λ key h pid k c.
        let (n, there) = removed-host key h k in
        stopped-hosted key pid n (v.hosted key h pid there c);
  }

pub AfterStop-IsConsistent :
    {x : External} (id : String) (l l' : Lattice x)
    → IsConsistent l
    → AfterStop id l l'
    → IsConsistent l'
AfterStop-IsConsistent id l l' v (inl (_, same)) = subst IsConsistent (sym same) v
AfterStop-IsConsistent id l l' v (inr (current, there, r)) =
    HostRemoved-IsConsistent (v.keyed id current there) r v

-- A new host has nothing on it.
pub after_start-IsConsistent :
    {x : External} (now : ℕ) (e : HostStarted) (l : Lattice x)
    → IsConsistent l
    → IsConsistent (with_hosts (update e.id (some (host_of_started x now e)) l.hosts) l)
unfolding host_of_started lookup
after_start-IsConsistent {x} now e l v = record {
  keyed = λ key h k. elim (put-cases e.id _ l.hosts key h k) [
    | inl (_, there) ↦ v.keyed key h there
    | inr (here, same) ↦ let eq : host_of_started x now e ≡ h = cc in ap (λ h. h.id) (sym eq) ∙ here
  ];
  running = λ key h id k c. elim (put-cases e.id _ l.hosts key h k) [
    | inl (_, there) ↦ v.running key h id there c
    | inr (here, same) ↦
        let eq : host_of_started x now e ≡ h = cc in
        let none_listed : false ≡ true =
          subst (λ h. contains_key id h.components ≡ true) (sym eq) c in
        cc
  ];
  hosted = λ key h id k c. elim (put-cases e.id _ l.hosts key h k) [
    | inl (_, there) ↦ v.hosted key h id there c
    | inr (here, same) ↦
        let eq : host_of_started x now e ≡ h = cc in
        let none_listed : false ≡ true = subst (λ h. listed id h.providers ≡ true) (sym eq) c in cc
  ];
}

-- What a stopped host leaves: it is gone, and what its inventory listed no longer runs there.
pub record IsCleared {x : External} (id : String) (current : Host x) (l : Lattice x) : Type 0 where
  pub gone : l.hosts id ≡ none
  pub no_component :
      (cid : String)
      → contains_key cid current.components ≡ true
      → runs_on id (l.components cid) ≡ false
  pub no_provider :
      (pid : String) → listed pid current.providers ≡ true → hosted_on id (l.providers pid) ≡ false

module _ {x : External} {σ : Type 0} (db : Store x σ) (view : σ → Lattice x)
    (is_store : IsStore db view) where
  -- A successful update for a stopped host that is stored under its identifier leaves no host, and
  -- no component and no provider of its inventory on it. What runs or is hosted elsewhere still is.
  pub handle_host_stopped-IsCleared :
      (e : HostStopped) (current : Host x) (s t : σ)
      → (view s).hosts e.id ≡ some current
      → current.id ≡ e.id
      → handle_host_stopped db e s ≡ (ok tt, t)
      → IsCleared e.id current (view t)
        × ((key id : String)
            → (e.id == key) ≡ false
            → (runs_on key ((view s).components id) ≡ true
                → runs_on key ((view t).components id) ≡ true)
              × (hosted_on key ((view s).providers id) ≡ true
                  → hosted_on key ((view t).providers id) ≡ true))
  unfolding update
  handle_host_stopped-IsCleared e current s t there keyed done =
      elim ((handle_host_stopped-effect db view is_store e s).at tt t done) [
        | inl (n, _) ↦ absurd (ground (arith, n, there))
        | inr (c, found, r) ↦
            let same : c ≡ current = cc in
            let r' = subst (λ c. HostRemoved e.id c (view s) (view t)) same r in
            (
              record {
                gone = ap (λ l. l.hosts e.id) r'.removed ∙ rw (eq_refl e.id) refl;
                no_component = stopped-no_component keyed r';
                no_provider = stopped-no_provider keyed r';
              },
              λ key id n. (stopped-runs keyed r' key id n, stopped-hosted keyed r' key id n),
            )
      ]
