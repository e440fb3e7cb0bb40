-- ===== src/Examples/Memory.antt =====
-- A bucket in memory, with the maps themselves as bytes, and the store over it.
use wadm.Prelude.{
  ℕ, suc, String, ◌≡◌, refl, sym, ap, subst, arith, Bool, true, false, not, ◌&&◌, some, List, [],
  ◌∷◌, Map, lookup, insert, keys, Distinct, contains, lookup-insert, eq_refl, Result, ok, err, eqb,
  Bool-cases, inl, inr, if◌then◌else◌,
}
use wadm.Storage.{Component, Host, Provider}
use wadm.Storage.Store.{Store}
use wadm.Storage.Store.Contract.{Lattice, IsStore}
use wadm.Storage.Kv.{Operation, Entry, Answer, written, refused, Bucket}
use wadm.Storage.Kv.Atomic.{IsBucket, revision_of, held}
use wadm.Storage.Kv.Maps.{IsCodec}
use wadm.Storage.Kv.Refines.{Codecs, kv_store, kv_view, IsQuiet, kv_store-IsStore}
use wadm.Examples.{texts}

pub data Bytes : Type 0 where
  components : Map Component → Bytes
  hosts : Map (Host texts) → Bytes
  providers : Map Provider → Bytes

abbrev pub Memory : Type 0
Memory = Map (Entry Bytes)

abbrev pub next_entry : ℕ → Bytes → Entry Bytes
next_entry r b = record { operation = Operation.put; value = b; revision = suc r }

abbrev pub write : Bool → String → Bytes → ℕ → Memory → Answer × Memory
write true key bytes r s = (written, insert key (next_entry r bytes) s)
write false key bytes r s = (refused "wrong last sequence", s)

abbrev pub bucket : Bucket Bytes Memory
bucket = record {
  entry = λ key s. (ok (lookup key s), s);
  update = λ key bytes r s. write (eqb (revision_of (lookup key s)) r) key bytes r s;
}

abbrev no_twice : List String → Bool
no_twice [] = true
no_twice (k ∷ ks) = not (contains k ks) && no_twice ks

no_twice-Distinct : (ks : List String) → no_twice ks ≡ true → Distinct ks
no_twice-Distinct [] h = tt
no_twice-Distinct (k ∷ ks) h = (ground (arith, h), no_twice-Distinct ks (ground (arith, h)))

abbrev checked : {A B : Type 0} → (Map A → B) → Map A → Result B
checked f m = if no_twice (keys m) then ok (f m) else err "duplicate key"

checked_iff :
    {A B : Type 0} (f : Map A → B) (m : Map A) (b : B)
    → checked f m ≡ ok b
    → (no_twice (keys m) ≡ true) × (f m ≡ b)
checked_iff f m b h = elim (Bool-cases (no_twice (keys m))) [
  | inl k ↦ (k, ground (arith, k, h))
  | inr k ↦ absurd (ground (arith, k, h))
]

abbrev as_components : Bytes → Result (Map Component)
as_components (components m) = checked (λ m. m) m
as_components (hosts m) = err "not a component"
as_components (providers m) = err "not a component"

abbrev as_hosts : Bytes → Result (Map (Host texts))
as_hosts (components m) = err "not a host"
as_hosts (hosts m) = checked (λ m. m) m
as_hosts (providers m) = err "not a host"

abbrev as_providers : Bytes → Result (Map Provider)
as_providers (components m) = err "not a provider"
as_providers (hosts m) = err "not a provider"
as_providers (providers m) = checked (λ m. m) m

abbrev pub codecs : Codecs texts Bytes
codecs = record {
  components = record { encode = checked components; decode = as_components };
  hosts = record { encode = checked hosts; decode = as_hosts };
  providers = record { encode = checked providers; decode = as_providers };
}

module _ {A : Type 0} (pack : Map A → Bytes) (unpack : Bytes → Result (Map A)) where
  checked-IsCodec :
      ((m : Map A) → unpack (pack m) ≡ checked (λ m. m) m)
      → ((b : Bytes) (m : Map A) → unpack b ≡ ok m → no_twice (keys m) ≡ true)
      → IsCodec (record { encode = checked pack; decode = unpack })
  checked-IsCodec back only = record {
    round_trip = λ m b e.
        let (k, same) = checked_iff pack m b e in
        subst (λ b. unpack b ≡ ok m) same (rw (back m, k) refl);
    distinct = λ m b e. no_twice-Distinct (keys m) (only b m e);
  }

only_checked : {A : Type 0} (m n : Map A) → checked (λ m. m) m ≡ ok n → no_twice (keys n) ≡ true
only_checked m n e =
    let (k, same) = checked_iff (λ m. m) m n e in subst (λ m. no_twice (keys m) ≡ true) same k

components_only :
    (b : Bytes) (m : Map Component) → as_components b ≡ ok m → no_twice (keys m) ≡ true
components_only (components n) m e = only_checked n m e
components_only (hosts n) m e = cc
components_only (providers n) m e = cc

hosts_only : (b : Bytes) (m : Map (Host texts)) → as_hosts b ≡ ok m → no_twice (keys m) ≡ true
hosts_only (components n) m e = cc
hosts_only (hosts n) m e = only_checked n m e
hosts_only (providers n) m e = cc

providers_only : (b : Bytes) (m : Map Provider) → as_providers b ≡ ok m → no_twice (keys m) ≡ true
providers_only (components n) m e = cc
providers_only (hosts n) m e = cc
providers_only (providers n) m e = only_checked n m e

pub components-IsCodec : IsCodec (codecs.components)
components-IsCodec = checked-IsCodec components as_components (λ m. refl) components_only

pub hosts-IsCodec : IsCodec (codecs.hosts)
hosts-IsCodec = checked-IsCodec hosts as_hosts (λ m. refl) hosts_only

pub providers-IsCodec : IsCodec (codecs.providers)
providers-IsCodec = checked-IsCodec providers as_providers (λ m. refl) providers_only

pub write-refused :
    (b : Bool) (key : String) (bytes : Bytes) (r : ℕ) (s t : Memory) (message : String)
    → write b key bytes r s ≡ (refused message, t)
    → s ≡ t
write-refused true key bytes r s t m h = cc
write-refused false key bytes r s t m h = cc

pub write-written :
    (b : Bool) (key : String) (bytes : Bytes) (r : ℕ) (s t : Memory)
    → write b key bytes r s ≡ (written, t)
    → (b ≡ true) × (insert key (next_entry r bytes) s ≡ t)
write-written true key bytes r s t h = (refl, cc)
write-written false key bytes r s t h = cc

-- Nobody else writes to it.
abbrev pub bucket-IsBucket : IsBucket bucket
bucket-IsBucket = record {
  Later = λ s t. s ≡ t;
  content = λ s key. held (lookup key s);
  revision = λ s key. revision_of (lookup key s);
  later_refl = λ s. refl;
  later_trans = λ s t u p q. cc;
  same_revision = λ s t key p e. ap (λ s. held (lookup key s)) p;
  entry_later = λ key s. refl;
  entry_found = λ key s t found h.
      let same : s ≡ t = cc in
      let here : lookup key s ≡ found = cc in
      (
        subst (λ s. held (lookup key s) ≡ held found) same (ap held here),
        subst (λ s. revision_of (lookup key s) ≡ revision_of found) same (ap revision_of here),
      );
  update_refused = λ key bytes r s t message h.
      write-refused (eqb (revision_of (lookup key s)) r) key bytes r s t message h;
  update_written = λ key bytes r s t h.
      let (e, next) = write-written (eqb (revision_of (lookup key s)) r) key bytes r s t h in
      (
        s,
        refl,
        ground (arith, e),
        subst (λ t. held (lookup key t) ≡ some bytes) next
            (rw (lookup-insert key key (next_entry r bytes) s, eq_refl key) refl),
        λ other n.
            subst (λ t. held (lookup other t) ≡ held (lookup other s)) next
              (rw (lookup-insert key other (next_entry r bytes) s, n) refl),
      );
}

pub bucket-IsQuiet : IsQuiet bucket-IsBucket
bucket-IsQuiet = λ s t key p. ap (λ s. held (lookup key s)) (sym p)

abbrev pub db : Store texts Memory
db = kv_store bucket codecs 3 "default"

abbrev pub view : Memory → Lattice texts
view = kv_view bucket codecs bucket-IsBucket bucket-IsQuiet "default"

pub db-IsStore : IsStore db view
db-IsStore =
    kv_store-IsStore bucket codecs bucket-IsBucket bucket-IsQuiet "default" 3 components-IsCodec
      hosts-IsCodec providers-IsCodec
