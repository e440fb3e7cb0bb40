-- ===== src/Storage/Kv/Maps.antt =====
-- The writes of a kind's map, and that what is written is read back.
use wadm.Prelude.{
  ℕ, String, ◌≡◌, refl, sym, ◌∙◌, ap, subst, arith, inl, inr, false, Option, none, some, List, [],
  ◌∷◌, Map, lookup, insert, remove, lookup-insert, lookup-remove, keys, Distinct, contains_key,
  Result, ok, ◌==◌, Result-cases, Bool-cases,
}
use mathlib.Core.Path.{fun_ext}
use wadm.Storage.Sets.{map_from_iter}
use wadm.Storage.Store.Contract.{View, update, overwrite, erase}
use wadm.Storage.Kv.{Bucket, Codec, store_items, remove_ids, remove_items, store_many, delete_many}
use wadm.Storage.Kv.Atomic.{IsBucket, Stands, update_with_retries-IsUpdated}

module _ {A : Type 0} where
  -- A map as a function of its keys.
  abbrev pub seen : Map A → View A
  seen m = λ id. lookup id m

  seen-insert : (k : String) (a : A) (m : Map A) → seen (insert k a m) ≡ update k (some a) (seen m)
  unfolding update
  seen-insert k a m = fun_ext (λ id. lookup-insert k id a m)

  seen-remove : (k : String) (m : Map A) → seen (remove k m) ≡ update k none (seen m)
  unfolding update
  seen-remove k m = fun_ext (λ id. lookup-remove k id m)

  pub seen-map_from_iter :
      (acc items : Map A) → seen (map_from_iter acc items) ≡ overwrite items (seen acc)
  unfolding map_from_iter overwrite
  seen-map_from_iter acc [] = refl
  seen-map_from_iter acc ((k, a) ∷ items) =
      seen-map_from_iter (insert k a acc) items ∙ ap (overwrite items) (seen-insert k a acc)

  pub seen-remove_ids :
      (ids : List String) (m : Map A) → seen (remove_ids ids m).0 ≡ erase ids (seen m)
  unfolding remove_ids erase
  seen-remove_ids [] m = refl
  seen-remove_ids (id ∷ ids) m =
      seen-remove_ids ids (remove id m) ∙ ap (erase ids) (seen-remove id m)

  not_contained : (k : String) (m : Map A) → contains_key k m ≡ false → remove k m ≡ m
  unfolding remove lookup
  not_contained k [] h = refl
  not_contained k ((j, a) ∷ m) h = ground (arith, h, not_contained k m)

  pub remove_ids-unchanged :
      (ids : List String) (m : Map A) → (remove_ids ids m).1 ≡ false → (remove_ids ids m).0 ≡ m
  unfolding remove_ids
  remove_ids-unchanged [] m h = refl
  remove_ids-unchanged (id ∷ ids) m h =
      let same = not_contained id m (ground (arith, h)) in
      remove_ids-unchanged ids (remove id m) (ground (arith, h)) ∙ same

-- serde_json reads back what it wrote, and a map that is read has distinct keys.
pub record IsCodec {B A : Type 0} (codec : Codec B A) : Type 0 where
  pub round_trip : (m : Map A) (b : B) → codec.encode m ≡ ok b → codec.decode b ≡ ok m
  pub distinct : (m : Map A) (b : B) → codec.decode b ≡ ok m → Distinct (keys m)

module _ {B σ A : Type 0} (bucket : Bucket B σ) (codec : Codec B A) (is_bucket : IsBucket bucket)
    (is_codec : IsCodec codec) where
  -- At one moment the entry held `current`; afterwards it stands for a map that agrees with
  -- `change`, and the other entries are as they were at that moment.
  pub record Applied (key : String) (change : View A → View A) (s t : σ) : Type 0 where
    pub moment : σ
    pub later : is_bucket.Later s moment
    pub current : Map A
    pub stands : Stands bucket codec is_bucket (is_bucket.content moment key) current
    pub next : Map A
    pub stands_next : Stands bucket codec is_bucket (is_bucket.content t key) next
    pub changed : seen next ≡ change (seen current)
    pub others :
        (other : String)
        → (key == other) ≡ false
        → is_bucket.content t other ≡ is_bucket.content moment other

  -- However many attempts it takes and whatever other writers do, a successful store has written
  -- its items over what the entry held at one moment, and nothing else.
  pub store_many-Applied :
      (attempts : ℕ) (key : String) (items : Map A) (s t : σ)
      → store_many bucket codec attempts key items s ≡ (ok tt, t)
      → Applied key (overwrite items) s t
  unfolding store_many store_items
  store_many-Applied attempts key items s t done =
      let up =
        (update_with_retries-IsUpdated bucket codec is_bucket attempts key (store_items codec items)
            s).at
          tt t done in
      elim (Result-cases (codec.encode (map_from_iter up.current items))) [
        | inr (e, k) ↦ elim up.outcome [
          | inl (made, _) ↦ absurd (ground (arith, k, made))
          | inr (_, made, _, _) ↦ absurd (ground (arith, k, made))
        ]
        | inl (b, k) ↦ elim up.outcome [
          | inl (made, _) ↦ absurd (ground (arith, k, made))
          | inr (bytes, made, now, others) ↦
              let same : b ≡ bytes = cc in
              record {
                moment = up.moment;
                later = up.later;
                current = up.current;
                stands = up.stands;
                next = map_from_iter up.current items;
                stands_next =
                    rw (now, ← same) (is_codec.round_trip (map_from_iter up.current items) b k);
                changed = seen-map_from_iter up.current items;
                others = others;
              }
        ]
      ]

  removed :
      (ids : List String) (current : Map A) (r : Result (Option B))
      → remove_items codec ids current ≡ r
      → ((r ≡ ok none) → (remove_ids ids current).0 ≡ current)
        × ((b : B) → r ≡ ok (some b) → codec.decode b ≡ ok (remove_ids ids current).0)
  unfolding remove_items
  removed ids current r made = elim (Bool-cases (remove_ids ids current).1) [
    | inl u ↦ elim (Result-cases (codec.encode (remove_ids ids current).0)) [
      | inl (b, k) ↦ (
        λ e. absurd (ground (arith, u, k, made, e)),
        λ c e.
            is_codec.round_trip (remove_ids ids current).0 c
              (k ∙ ap ok (ground (arith, u, k, made, e))),
      )
      | inr (f, k) ↦ (
        λ e. absurd (ground (arith, u, k, made, e)),
        λ c e. absurd (ground (arith, u, k, made, e)),
      )
    ]
    | inr u ↦ (λ e. remove_ids-unchanged ids current u, λ c e. absurd (ground (arith, u, made, e)))
  ]

  -- A successful deletion has taken its items out of what the entry held at one moment, and has
  -- changed nothing else.
  pub delete_many-Applied :
      (attempts : ℕ) (key : String) (ids : List String) (s t : σ)
      → delete_many bucket codec attempts key ids s ≡ (ok tt, t)
      → Applied key (erase ids) s t
  unfolding delete_many
  delete_many-Applied attempts key ids s t done =
      let up =
        (update_with_retries-IsUpdated bucket codec is_bucket attempts key (remove_items codec ids)
            s).at
          tt t done in
      let (unchanged, made_of) = removed ids up.current (remove_items codec ids up.current) refl in
      elim up.outcome [
        | inl (made, same) ↦ record {
          moment = up.moment;
          later = up.later;
          current = up.current;
          stands = up.stands;
          next = up.current;
          stands_next =
              subst (λ s. Stands bucket codec is_bucket (is_bucket.content s key) up.current)
                (sym same) up.stands;
          changed = ap seen (sym (unchanged made)) ∙ seen-remove_ids ids up.current;
          others = λ other n. ap (λ s. is_bucket.content s other) same;
        }
        | inr (bytes, made, now, others) ↦ record {
          moment = up.moment;
          later = up.later;
          current = up.current;
          stands = up.stands;
          next = (remove_ids ids up.current).0;
          stands_next = rw now (made_of bytes made);
          changed = seen-remove_ids ids up.current;
          others = others;
        }
      ]
