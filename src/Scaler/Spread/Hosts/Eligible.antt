-- ===== src/Scaler/Spread/Hosts/Eligible.antt =====
-- A host is ineligible exactly when it meets the requirements of no spread.
use wadm.Prelude.{
  String, Bool, false, not, ◌≡◌, refl, ◌∙◌, ap, List, [], ◌∷◌, arith, Map, keys, contains,
  contains-append, Distinct, filter, filter-ext, any, All, All-imp, All-swap, flat_map, eq_iff,
  eq_refl,
}
use wadm.External.{External}
use wadm.Manifest.{Spread}
use wadm.Storage.{Host}
use wadm.Scaler.Spread.Hosts.{satisfies, eligible_hosts, compute_ineligible_hosts}

module _ {ℓ} {A : Type ℓ} (p : String × A → Bool) where
  -- a key that is not in a list is in no part of it
  contains-filter_out :
      (k : String) (m : Map A)
      → contains k (keys m) ≡ false
      → contains k (keys (filter p m)) ≡ false
  contains-filter_out k [] h = refl
  contains-filter_out k (e ∷ m) h = ground (arith, contains-filter_out k m)

  keep_tail :
      (h : String × A) (m xs : Map A)
      → contains h.0 (keys xs) ≡ false
      → All (λ e. contains e.0 (keys (filter p m)) ≡ p e) xs
      → All (λ e. contains e.0 (keys (filter p (h ∷ m))) ≡ p e) xs
  keep_tail h m [] out ih = tt
  keep_tail h m (e ∷ xs) out (ih, ihs) =
      (ground (arith, ih, eq_iff e.0 h.0, eq_iff h.0 e.0), keep_tail h m xs (ground arith) ihs)

  -- an entry of a map with distinct keys is kept just when its key is
  contains-filter :
      (m : Map A) → Distinct (keys m) → All (λ e. contains e.0 (keys (filter p m)) ≡ p e) m
  contains-filter [] d = tt
  contains-filter (h ∷ m) (out, d) = (
    ground (arith, contains-filter_out h.0 m out, eq_refl h.0),
    keep_tail h m m out (contains-filter m d),
  )

module _ {x : External} (hosts : Map (Host x)) (d : Distinct (keys hosts)) where
  abbrev eligible_ids : List Spread → List String
  eligible_ids = flat_map (λ spread. keys (eligible_hosts hosts spread))

  eligible_for_any :
      (e : String × Host x) (spreads : List Spread)
      → All
          (λ s. contains e.0 (keys (eligible_hosts hosts s)) ≡ satisfies e.1.labels s.requirements)
          spreads
      → contains e.0 (eligible_ids spreads) ≡ any (λ s. satisfies e.1.labels s.requirements) spreads
  eligible_for_any e [] h = refl
  eligible_for_any e (s ∷ ss) (h, hs) =
      contains-append e.0 (keys (eligible_hosts hosts s)) (eligible_ids ss)
      ∙ ground (arith, h, eligible_for_any e ss hs)

  -- Where no host is listed twice, the ineligible hosts are those that satisfy no spread.
  pub compute_ineligible_hosts_lem :
      (spreads : List Spread)
      → compute_ineligible_hosts hosts spreads
        ≡ filter (λ e. not (any (λ s. satisfies e.1.labels s.requirements) spreads)) hosts
  unfolding compute_ineligible_hosts
  compute_ineligible_hosts_lem spreads = filter-ext _ _ hosts (
      All-imp (λ e h. ap not (eligible_for_any e spreads h)) hosts
        (All-swap _ spreads hosts (λ s. unfold eligible_hosts in contains-filter _ hosts d)))
