-- ===== src/Storage/Kv/Refines.antt =====
-- Where no other writer acts, the store over a bucket keeps the contract of a store.
use wadm.Prelude.{
  ℕ, String, ◌≡◌, refl, sym, ◌∙◌, ap, subst, arith, false, Option, none, some, [], ◌∷◌, Map, lookup,
  keys, Distinct, ok, err, ◌==◌, eqb, eq_iff, Result-cases, inl, inr, Bool-cases,
}
use wadm.External.{External}
use wadm.Manifest.Validation.Labels.{codes}
use wadm.Storage.{Component, Host, Provider}
use wadm.Storage.Store.{Table, Store}
use wadm.Storage.Store.Contract.{
  View, Lattice, IsTable, IsStore, overwrite, erase, with_components, with_hosts, with_providers,
}
use wadm.Storage.Kv.{
  Bucket, Codec, entry_data, internal_list, list_items, get_item, store_many, delete_many,
  generate_key,
}
use wadm.Storage.Kv.Atomic.{IsBucket, Stands, listed}
use wadm.Storage.Kv.Maps.{IsCodec, seen, Applied, store_many-Applied, delete_many-Applied}

-- The operations at one kind, as the trait has them: a read gives back no state.
abbrev pub kv_table : {B σ A : Type 0} → Bucket B σ → Codec B A → ℕ → String → Table A σ
kv_table bucket codec attempts key = record {
  get = λ id s. (get_item bucket codec key id s).0;
  list = λ s. (list_items bucket codec key s).0;
  store_many = store_many bucket codec attempts key;
  delete_many = delete_many bucket codec attempts key;
}

-- What the bytes of an entry stand for.
abbrev pub map_of : {B A : Type 0} → Codec B A → Option B → Map A
map_of codec none = []
map_of codec (some b) = elim (codec.decode b) [ ok m ↦ m | err e ↦ [] ]

-- No other writer acts.
abbrev pub IsQuiet : {B σ : Type 0} {bucket : Bucket B σ} → IsBucket bucket → Type 0
IsQuiet is_bucket =
    (s t : _) (key : String)
    → is_bucket.Later s t
    → is_bucket.content t key ≡ is_bucket.content s key

module _ {B σ A : Type 0} (bucket : Bucket B σ) (codec : Codec B A) (is_bucket : IsBucket bucket)
    (is_codec : IsCodec codec) (quiet : IsQuiet is_bucket) (key : String) where
  abbrev pub items_at : σ → Map A
  items_at s = map_of codec (is_bucket.content s key)

  map_of-Stands :
      (held : Option B) (m : Map A) → Stands bucket codec is_bucket held m → map_of codec held ≡ m
  map_of-Stands none m h = sym h
  map_of-Stands (some b) m h = rw (h, map_of) refl

  Stands-Distinct :
      (held : Option B) (m : Map A) → Stands bucket codec is_bucket held m → Distinct (keys m)
  Stands-Distinct none m h = subst (λ m. Distinct (keys m)) (sym h) tt
  Stands-Distinct (some b) m h = is_codec.distinct m b h

  -- What is listed is what the entry stands for.
  list_items_lem :
      (s : σ) (m : Map A)
      → (list_items bucket codec key s).0 ≡ ok m
      → (items_at s ≡ m) × Distinct (keys m)
  unfolding list_items internal_list
  list_items_lem s m h = elim (Result-cases (entry_data codec (bucket.entry key s).0)) [
    | inr (e, k) ↦ absurd (ground (arith, k, h))
    | inl (d, k) ↦
        let (stands, _) = listed bucket codec is_bucket key s d.0 d.1 k in
        let same : d.0 ≡ m = ground (arith, k, h) in
        let here = quiet s (bucket.entry key s).1 key (is_bucket.entry_later key s) in
        let stands' = subst (λ c. Stands bucket codec is_bucket c d.0) here stands in
        (
          map_of-Stands _ d.0 stands' ∙ same,
          subst (λ m. Distinct (keys m)) same (Stands-Distinct _ d.0 stands),
        )
  ]

  get_item_lem :
      (id : String) (s : σ) (found : Option A)
      → (get_item bucket codec key id s).0 ≡ ok found
      → lookup id (items_at s) ≡ found
  unfolding get_item
  get_item_lem id s found h = elim (Result-cases (list_items bucket codec key s).0) [
    | inr (e, k) ↦ absurd (ground (arith, k, h))
    | inl (m, k) ↦ rw (list_items_lem s m k).0 (ground (arith, k, h))
  ]

  -- A write, where no other writer acts.
  applied :
      (change : View A → View A) (s t : σ)
      → Applied bucket codec is_bucket is_codec key change s t
      → (seen (items_at t) ≡ change (seen (items_at s)))
        × ((other : String)
            → (key == other) ≡ false
            → is_bucket.content t other ≡ is_bucket.content s other)
  applied change s t a =
      let here = quiet s a.moment key a.later in
      let before : items_at s ≡ a.current =
        map_of-Stands _ a.current
          (subst (λ c. Stands bucket codec is_bucket c a.current) here a.stands) in
      let after : items_at t ≡ a.next = map_of-Stands _ a.next a.stands_next in
      (
        ap seen after ∙ a.changed ∙ ap (λ m. change (seen m)) (sym before),
        λ other n. a.others other n ∙ quiet s a.moment other a.later,
      )

  -- The table at one part of a view that reads this entry there and follows its writes.
  pub kv_table-IsTable :
      {L : Type 0} (attempts : ℕ) (view : σ → L) (get : L → View A) (put : View A → L → L)
      → ((s : σ) → get (view s) ≡ seen (items_at s))
      → ((change : View A → View A) (s t : σ)
          → seen (items_at t) ≡ change (seen (items_at s))
          → ((other : String)
              → (key == other) ≡ false
              → is_bucket.content t other ≡ is_bucket.content s other)
          → view t ≡ put (change (get (view s))) (view s))
      → IsTable (kv_table bucket codec attempts key) view get put
  kv_table-IsTable attempts view get put reads writes = record {
    get_found = λ id s found h. ap (λ v. v id) (reads s) ∙ get_item_lem id s found h;
    list_found = λ s entries h.
        let (same, distinct) = list_items_lem s entries h in
        (distinct, λ id. sym (ap (λ v. v id) (reads s ∙ ap seen same)));
    stored = λ entries s. record {
      at = λ _ t done.
          let a =
            store_many-Applied bucket codec is_bucket is_codec attempts key entries s t done in
          let (own, others) = applied (overwrite entries) s t a in
          writes (overwrite entries) s t own others;
    };
    deleted = λ ids s. record {
      at = λ _ t done.
          let a = delete_many-Applied bucket codec is_bucket is_codec attempts key ids s t done in
          let (own, others) = applied (erase ids) s t a in writes (erase ids) s t own others;
    };
  }

-- The three kinds of one lattice.
abbrev pub component_key : String → String
component_key lattice_id = generate_key "component" lattice_id

abbrev pub host_key : String → String
host_key lattice_id = generate_key "host" lattice_id

abbrev pub provider_key : String → String
provider_key lattice_id = generate_key "provider" lattice_id

pub record Codecs (x : External) (B : Type 0) : Type 0 where
  pub components : Codec B Component
  pub hosts : Codec B (Host x)
  pub providers : Codec B Provider

abbrev pub kv_store :
    {x : External} {B σ : Type 0} → Bucket B σ → Codecs x B → ℕ → String → Store x σ
kv_store bucket codecs attempts lattice_id = record {
  components = kv_table bucket codecs.components attempts (component_key lattice_id);
  hosts = kv_table bucket codecs.hosts attempts (host_key lattice_id);
  providers = kv_table bucket codecs.providers attempts (provider_key lattice_id);
}

abbrev first_codes : String → ℕ
first_codes s = elim (codes s) [ [] ↦ 0 | c ∷ cs ↦ c ]

-- Keys that start differently are different keys.
apart : (a b : String) → eqb (first_codes a) (first_codes b) ≡ false → (a == b) ≡ false
apart a b n = elim (Bool-cases (a == b)) [
  | inl e ↦
      let same : first_codes a ≡ first_codes b =
        let same_text : a ≡ b = ground (arith, eq_iff a b, e) in ap first_codes same_text in
      absurd (ground (arith, n, same))
  | inr e ↦ e
]

module _ {x : External} {B σ : Type 0} (bucket : Bucket B σ) (codecs : Codecs x B)
    (is_bucket : IsBucket bucket) (quiet : IsQuiet is_bucket) (lattice_id : String) where
  -- What the bucket holds for the lattice.
  abbrev pub kv_view : σ → Lattice x
  kv_view s = record {
    components = seen (map_of codecs.components (is_bucket.content s (component_key lattice_id)));
    hosts = seen (map_of codecs.hosts (is_bucket.content s (host_key lattice_id)));
    providers = seen (map_of codecs.providers (is_bucket.content s (provider_key lattice_id)));
  }

  -- Where no other writer acts, the store over the bucket keeps the contract of a store.
  pub kv_store-IsStore :
      (attempts : ℕ)
      → IsCodec codecs.components
      → IsCodec codecs.hosts
      → IsCodec codecs.providers
      → IsStore (kv_store bucket codecs attempts lattice_id) kv_view
  kv_store-IsStore attempts c h p =
      let comps = component_key lattice_id in
      let hosts = host_key lattice_id in
      let provs = provider_key lattice_id in
      record {
        components =
            kv_table-IsTable bucket codecs.components is_bucket c quiet comps attempts kv_view
              (λ l. l.components) with_components (λ s. refl)
              (λ change s t own others i. record {
                components = own i;
                hosts = seen (map_of codecs.hosts (others hosts (apart comps hosts refl) i));
                providers =
                    seen (map_of codecs.providers (others provs (apart comps provs refl) i));
              });
        hosts =
            kv_table-IsTable bucket codecs.hosts is_bucket h quiet hosts attempts kv_view
              (λ l. l.hosts) with_hosts (λ s. refl)
              (λ change s t own others i. record {
                components =
                    seen (map_of codecs.components (others comps (apart hosts comps refl) i));
                hosts = own i;
                providers =
                    seen (map_of codecs.providers (others provs (apart hosts provs refl) i));
              });
        providers =
            kv_table-IsTable bucket codecs.providers is_bucket p quiet provs attempts kv_view
              (λ l. l.providers) with_providers (λ s. refl)
              (λ change s t own others i. record {
                components =
                    seen (map_of codecs.components (others comps (apart provs comps refl) i));
                hosts = seen (map_of codecs.hosts (others hosts (apart provs hosts refl) i));
                providers = own i;
              });
      }
