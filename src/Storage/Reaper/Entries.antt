-- ===== src/Storage/Reaper/Entries.antt =====
-- The entries that the reaper leaves.
use wadm.Prelude.{
  ℕ, ◌+◌, ◌*◌, ◌≤◌, String, ◌≡◌, refl, sym, ◌∙◌, ap, subst, arith, inl, inr, Bool, true, false,
  none, some, List, [], ◌∷◌, Map, lookup, keys, contains, contains_key, filter, filter_map, map,
  length, eq_iff, ◌==◌, All, All-filter_map, All-tabulate, Option-cases, Bool-cases,
}
use wadm.External.{External}
use wadm.Storage.{Component, Host, Provider}
use wadm.Storage.Store.Contract.{View}
use wadm.Storage.Reaper.{lists, reap_component, reap_provider}

lookup-retain :
    {A : Type 0} (p : String → Bool) (key : String) (m : Map A)
    → contains_key key (filter (λ e. p e.0) m) ≡ true
    → p key ≡ true
unfolding lookup
lookup-retain p key [] h = cc
lookup-retain p key (e ∷ m) h = ground (arith, h, lookup-retain p key m, eq_iff e.0 key)

pub contains-filter :
    {A : Type 0} (p : A → Bool) (key : String) (a : A) (m : Map A)
    → lookup key m ≡ some a
    → p a ≡ true
    → contains key (keys (filter (λ e. p e.1) m)) ≡ true
unfolding lookup
contains-filter p key a [] found h = cc
contains-filter p key a (e ∷ m) found h =
    ground (arith, found, h, contains-filter p key a m, eq_iff e.0 key)

-- No host that the reaper leaves was last seen two intervals ago.
abbrev pub AllSeen : {x : External} → ℕ → ℕ → View (Host x) → Type 0
AllSeen interval now hosts =
    (key : String) (h : Host _) → hosts key ≡ some h → now ≤ interval * 2 + h.last_seen

-- Every stored instance of a component is on a host that is stored and lists the component.
abbrev pub NoneStale : {x : External} → Map (Host x) → View Component → Type 0
NoneStale hosts components =
    (id : String) (c : Component) (key : String)
    → components id ≡ some c
    → contains_key key c.instances ≡ true
    → lists hosts c.id key ≡ true

pub keys-map : {A B : Type 0} (f : A → B) (m : Map A) → keys (map (λ e. (e.0, f e.1)) m) ≡ keys m
keys-map f [] = refl
keys-map f (e ∷ m) = ap (λ ks. e.0 ∷ ks) (keys-map f m)

module _ {x : External} (hosts : Map (Host x)) where
  -- Every instance of the component is where it can run.
  abbrev pub IsPlaced : String → Component → Type 0
  IsPlaced id c = (key : String) → contains_key key c.instances ≡ true → lists hosts c.id key ≡ true

  reap_component-IsPlaced : (id : String) (c : Component) → IsPlaced id (reap_component hosts c)
  unfolding reap_component
  reap_component-IsPlaced id c key h = lookup-retain (lists hosts c.id) key c.instances h

  pub reaped-All :
      (m : Map Component)
      → All
          (λ (e : String × Component). IsPlaced e.0 e.1)
          (map (λ e. (e.0, reap_component hosts e.1)) m)
  reaped-All [] = tt
  reaped-All (e ∷ m) = (reap_component-IsPlaced e.0 e.1, reaped-All m)

-- Every stored provider is on stored hosts only.
abbrev pub NoneLost : {x : External} → Map (Host x) → View Provider → Type 0
NoneLost hosts providers =
    (id : String) (p : Provider) (key : String)
    → providers id ≡ some p
    → contains_key key p.hosts ≡ true
    → contains_key key hosts ≡ true

length-filter : {A : Type 0} (p : A → Bool) (xs : List A) → length (filter p xs) ≤ length xs
length-filter p [] = omega arith
length-filter p (a ∷ xs) = ground (arith, length-filter p xs)

filter-eq :
    {A : Type 0} (p : A → Bool) (xs : List A) → length xs ≡ length (filter p xs) → filter p xs ≡ xs
filter-eq p [] h = refl
filter-eq p (a ∷ xs) h = elim (Bool-cases (p a)) [
  | inl k ↦ rw k (ap (λ t. a ∷ t) (filter-eq p xs (ground (arith, h, k))))
  | inr k ↦ absurd (ground (arith, h, k, length-filter p xs))
]

module _ {x : External} (hosts : Map (Host x)) where
  abbrev pub IsHosted : String → Provider → Type 0
  IsHosted id p = (key : String) → contains_key key p.hosts ≡ true → contains_key key hosts ≡ true

  reap_provider-IsHosted :
      (e y : String × Provider) → reap_provider hosts e ≡ some y → IsHosted y.0 y.1
  unfolding reap_provider
  reap_provider-IsHosted e y made =
      let kept = filter (λ h. contains_key h.0 hosts) e.1.hosts in
      let same : kept ≡ y.1.hosts = ground (arith, made) in
      subst
        (λ (m : Map _). (key : String) → contains_key key m ≡ true → contains_key key hosts ≡ true)
        same (λ key h. lookup-retain (λ k. contains_key k hosts) key e.1.hosts h)

  pub reaped_providers-All :
      (m : Map Provider)
      → All (λ (e : String × Provider). IsHosted e.0 e.1) (filter_map (reap_provider hosts) m)
  reaped_providers-All m =
      All-filter_map (λ (y : String × Provider). IsHosted y.0 y.1) (reap_provider hosts) m
        (All-tabulate (λ e y made. reap_provider-IsHosted e y made) m)

  pub unchanged : (id : String) (p : Provider) → reap_provider hosts (id, p) ≡ none → IsHosted id p
  unfolding reap_provider
  unchanged id p k key h =
      let same = filter-eq (λ e. contains_key e.0 hosts) p.hosts (ground (arith, k)) in
      lookup-retain (λ k. contains_key k hosts) key p.hosts (ap (contains_key key) same ∙ h)

  reap_provider-key : (e y : String × Provider) → reap_provider hosts e ≡ some y → y.0 ≡ e.0
  unfolding reap_provider
  reap_provider-key e y made = ground (arith, made)

  pub unreaped :
      (id : String) (p : Provider) (m : Map Provider)
      → lookup id m ≡ some p
      → contains id (keys (filter_map (reap_provider hosts) m)) ≡ false
      → reap_provider hosts (id, p) ≡ none
  unfolding lookup
  unreaped id p [] found out = cc
  unreaped id p (e ∷ m) found out = elim (Bool-cases (e.0 == id)) [
    | inr n ↦ elim (Option-cases (reap_provider hosts e)) [
      | inl k ↦ unreaped id p m (ground (arith, n, found)) (ground (arith, k, out))
      | inr (y, k) ↦ unreaped id p m (ground (arith, n, found)) (ground (arith, k, out))
    ]
    | inl b ↦
        let name : e.0 ≡ id = ground (arith, eq_iff e.0 id, b) in
        let value : e.1 ≡ p = ground (arith, b, found) in
        elim (Option-cases (reap_provider hosts e)) [
          | inl k ↦ ap (reap_provider hosts) (λ i. (sym name i, sym value i)) ∙ k
          | inr (y, k) ↦
              absurd (ground (arith, k, out, reap_provider-key e y k, name, eq_iff y.0 id))
        ]
  ]
