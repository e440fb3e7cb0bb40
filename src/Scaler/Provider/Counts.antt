-- ===== src/Scaler/Provider/Counts.antt =====
-- How many providers a spread starts and stops.
use Prim.Native.Nat.{compare, Ordering}
use wadm.Prelude.{
  ℕ, zero, suc, ◌+◌, ◌-◌, ◌≤◌, ◌<◌, String, ◌≡◌, ◌≢◌, ◌⊎◌, inl, inr, refl, ap, arith, Bool, not,
  is_some, List, [], ◌∷◌, ◌++◌, Map, map, filter, length, take, is_empty, if◌then◌else◌, Message,
}
use wadm.External.{External}
use wadm.Manifest.{Spread}
use wadm.Storage.{Host}
use wadm.Command.{Command}
use wadm.Scaler.Spread.Hosts.{spreadscaler_annotations}
use wadm.Scaler.Provider.{ProviderSpreadConfig, stop, start, on_host}
use wadm.Scaler.Provider.Spreading.{
  running_hosts, free_hosts, running_for_spread, running_for_other, stop_some, spread_result,
}

module _ {A : Type 0} where
  -- The first list begins the second one.
  abbrev pub IsPrefix : List A → List A → Type 0
  IsPrefix xs ys = (rest : List A) × (xs ++ rest ≡ ys)

  take-IsPrefix : (n : ℕ) (xs : List A) → IsPrefix (take n xs) xs
  take-IsPrefix zero xs = (xs, refl)
  take-IsPrefix (suc n) [] = ([], refl)
  take-IsPrefix (suc n) (x ∷ xs) = let (rest, e) = take-IsPrefix n xs in (rest, rw e refl)

  length-take :
      (n : ℕ) (xs : List A)
      → (length (take n xs) ≤ n)
        × ((length (take n xs) ≡ n) ⊎ (take n xs ≡ xs))
        × (length (take n xs) ≤ length xs)
  length-take zero xs = (omega arith, inl refl, omega arith)
  length-take (suc n) [] = (omega arith, inr refl, omega arith)
  length-take (suc n) (x ∷ xs) = ground (arith, length-take n xs)

  length-map : {B : Type 0} (f : A → B) (xs : List A) → length (map f xs) ≡ length xs
  length-map f [] = refl
  length-map f (x ∷ xs) = ground (arith, length-map f xs)

  filter-filter : (p : A → Bool) (xs : List A) → filter p (filter p xs) ≡ filter p xs
  filter-filter p [] = refl
  filter-filter p (x ∷ xs) = ground (arith, filter-filter p xs)

module _ {x : External} (c : ProviderSpreadConfig) (id : String) (spread : Spread) (count : ℕ)
    (hosts : Map (Host x)) where
  abbrev current : ℕ
  current = length (running_hosts c hosts)

  skip_empty :
      (n : ℕ) (f : String × Host x → Command) (hs : Map (Host x))
      → (if is_empty hs then [] else take n (map f hs)) ≡ take n (map f hs)
  skip_empty zero f [] = refl
  skip_empty (suc n) f [] = refl
  skip_empty n f (h ∷ hs) = refl

  -- What a spread may do, by the hosts that it allows.
  pub record IsBounded (commands : List Command) (failures : List Message) : Type 0 where
    pub stops :
        count < length (running_hosts c hosts)
        → IsPrefix commands (
            map
              (λ e. stop c (spreadscaler_annotations spread.name id) e.1.id)
              (running_for_spread c id spread hosts))
          × (count + length commands ≤ length (running_hosts c hosts))
          × ((count + length commands ≡ length (running_hosts c hosts))
              ⊎ (length commands ≡ length (running_for_spread c id spread hosts)))
          × (failures ≡ [])
    pub starts :
        length (running_hosts c hosts) < count
        → IsPrefix commands (
            map
              (λ e. start c (spreadscaler_annotations spread.name id) e.1.id)
              (free_hosts c hosts))
          × (length (running_hosts c hosts) + length commands ≤ count)
          × (failures ≡ []
              → count
                ≤ length (running_hosts c hosts)
                  + length (running_for_other c id spread hosts)
                  + length commands)
          × (failures ≢ [] → length commands ≡ length (free_hosts c hosts))
    pub settled : length (running_hosts c hosts) ≡ count → (commands ≡ []) × (failures ≡ [])

  abbrev annotations : Map String
  annotations = spreadscaler_annotations spread.name id

  abbrev result : List Command × List Message
  result = spread_result c id (spread, count) hosts

  free-eq : free_hosts c (free_hosts c hosts) ≡ free_hosts c hosts
  free-eq = filter-filter (λ e. not (is_some (on_host c e.1))) hosts

  -- Taking `n` of the commands for some hosts.
  taken :
      (n : ℕ) (f : String × Host x → Command) (hs : Map (Host x))
      → IsPrefix (take n (map f hs)) (map f hs)
        × (length (take n (map f hs)) ≤ n)
        × (length (take n (map f hs)) ≤ length hs)
        × ((length (take n (map f hs)) ≡ n) ⊎ (length (take n (map f hs)) ≡ length hs))
  taken n f hs =
      let (most, exact, few) = length-take n (map f hs) in
      let same = length-map f hs in
      (
        take-IsPrefix n (map f hs),
        most,
        omega (arith, same, few),
        elim exact [ inl e ↦ inl e | inr e ↦ inr (rw e same) ],
      )

  spread_result-stops :
      count < current → (result.0 ≡ stop_some c id spread (current - count) hosts) × (result.1 ≡ [])
  unfolding spread_result
  spread_result-stops h =
      let gt : compare current count ≡ Ordering.gt = ground arith in
      rw (spread_result, gt) (skip_empty _ _ (running_for_spread c id spread hosts), refl)

  spread_result-settled : current ≡ count → (result.0 ≡ []) × (result.1 ≡ [])
  unfolding spread_result
  spread_result-settled h = ground (arith, h)

  spread_result-starts :
      current < count
      → let n = count - current - length (running_for_other c id spread hosts) in
        (result.0 ≡ take n (map (λ e. start c annotations e.1.id) (free_hosts c hosts)))
        × (result.1 ≡ [] → n ≤ length result.0)
        × (result.1 ≢ [] → length result.0 < n)
  unfolding spread_result
  spread_result-starts h =
      let lt : compare current count ≡ Ordering.lt = ground arith in
      let n = count - current - length (running_for_other c id spread hosts) in
      rw (spread_result, lt, free-eq) (refl, λ e. ground (arith, e), λ e. ground (arith, e))

  -- Where more hosts run the provider than the count, the commands of a spread stop it on the
  -- first hosts that run it for the spread, and leave exactly the count or stop it on all of them,
  -- without a failure. Where fewer do, they start it on the first hosts that do not run it, never
  -- more than are missing; without a failure, the hosts that run it, those of them that run it for
  -- others once more, and the starts reach the count; with one, every free host starts it. At the
  -- count there is no command and no failure.
  pub spread_result-IsBounded :
      let (commands, failures) = spread_result c id (spread, count) hosts in
      IsBounded commands failures
  spread_result-IsBounded = record {
    stops = λ h.
        let (e, quiet) = spread_result-stops h in
        let n = current - count in
        let (begins, most, few, exact) =
          taken n (λ e. stop c annotations e.1.id) (running_for_spread c id spread hosts) in
        rw e (
          begins,
          omega (arith, h, most),
          elim exact [ inl m ↦ inl (omega (arith, h, m)) | inr m ↦ inr m ],
          quiet,
        );
    starts = λ h.
        let (e, full, short) = spread_result-starts h in
        let size = ap length e in
        let (begins, most, few, exact) =
          taken (count - current - length (running_for_other c id spread hosts))
            (λ e. start c annotations e.1.id) (free_hosts c hosts) in
        rw e (
          begins,
          omega (arith, h, most),
          λ q. omega (arith, h, size, full q),
          λ q. elim exact [ inl m ↦ absurd (omega (arith, size, short q, m)) | inr m ↦ m ],
        );
    settled = λ h. spread_result-settled h;
  }
