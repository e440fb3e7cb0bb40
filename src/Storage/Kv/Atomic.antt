-- ===== src/Storage/Kv/Atomic.antt =====
-- No update is lost: a write that succeeds is the updater applied to what the entry holds at the
-- moment of the write, whatever other writers do in between.
use Prim.Native.Nat.{suc, zero}
use wadm.Prelude.{
  ℕ, String, ◌≡◌, ◌≢◌, refl, sym, ◌∙◌, ap, subst, arith, ◌⊎◌, inl, inr, false, Option, none, some,
  [], Map, Result, ok, err, ◌==◌, Result-cases, Bool-cases,
}
use wadm.Prelude.Actions.{Action, Ensures, Ensures-imp, Ensures-pure}
use wadm.Storage.Kv.{
  Operation, Entry, Answer, written, refused, Bucket, Codec, is_wrong_sequence, operation_data,
  entry_data, internal_list, write_once, attempt, update_with_retries,
}

-- The bytes that an entry holds.
abbrev pub held_by : {B : Type 0} → Operation → B → Option B
held_by Operation.put value = some value
held_by Operation.delete value = none
held_by Operation.purge value = none

abbrev pub held : {B : Type 0} → Option (Entry B) → Option B
held none = none
held (some e) = held_by e.operation e.value

abbrev pub revision_of : {B : Type 0} → Option (Entry B) → ℕ
revision_of none = 0
revision_of (some e) = e.revision

-- What a bucket promises. Other writers act before a call takes effect: `Later` relates the states
-- between which they alone have acted. A revision tells what the entry holds.
pub record IsBucket {B σ : Type 0} (bucket : Bucket B σ) : Type 1 where
  pub Later : σ → σ → Type 0
  pub content : σ → String → Option B
  pub revision : σ → String → ℕ
  pub later_refl : (s : σ) → Later s s
  pub later_trans : (s t u : σ) → Later s t → Later t u → Later s u
  pub same_revision :
      (s t : σ) (key : String)
      → Later s t
      → revision s key ≡ revision t key
      → content s key ≡ content t key
  pub entry_later : (key : String) (s : σ) → Later s (bucket.entry key s).1
  pub entry_found :
      (key : String) (s t : σ) (found : Option (Entry B))
      → bucket.entry key s ≡ (ok found, t)
      → (content t key ≡ held found) × (revision t key ≡ revision_of found)
  pub update_refused :
      (key : String) (bytes : B) (r : ℕ) (s t : σ) (message : String)
      → bucket.update key bytes r s ≡ (refused message, t)
      → Later s t
  pub update_written :
      (key : String) (bytes : B) (r : ℕ) (s t : σ)
      → bucket.update key bytes r s ≡ (written, t)
      → (u : σ) × Later s u
        × (revision u key ≡ r)
        × (content t key ≡ some bytes)
        × ((other : String) → (key == other) ≡ false → content t other ≡ content u other)

Answer-cases : (a : Answer) → (a ≡ written) ⊎ ((m : String) × (a ≡ refused m))
Answer-cases written = inl refl
Answer-cases (refused m) = inr (m, refl)

module _ {B σ A : Type 0} (bucket : Bucket B σ) (codec : Codec B A)
    (is_bucket : IsBucket bucket) where
  -- The map that bytes stand for.
  abbrev pub Stands : Option B → Map A → Type 0
  Stands none m = m ≡ []
  Stands (some b) m = codec.decode b ≡ ok m

  -- At some moment after `s` the entry held the map `current`; then either the updater had nothing
  -- to write, or its bytes were written, and nothing else.
  pub record IsUpdated (key : String) (updater : Map A → Result (Option B)) (s t : σ) : Type 0 where
    pub moment : σ
    pub later : is_bucket.Later s moment
    pub current : Map A
    pub stands : Stands (is_bucket.content moment key) current
    pub outcome :
        ((updater current ≡ ok none) × (t ≡ moment))
        ⊎ ((bytes : B) × (updater current ≡ ok (some bytes))
            × (is_bucket.content t key ≡ some bytes)
            × ((other : String)
                → (key == other) ≡ false
                → is_bucket.content t other ≡ is_bucket.content moment other))

  operation_lem :
      (o : Operation) (value : B) (n : ℕ) (m : Map A) (r : ℕ)
      → operation_data codec o value n ≡ ok (m, r)
      → Stands (held_by o value) m × (n ≡ r)
  unfolding operation_data
  operation_lem Operation.put value n m r h = elim (Result-cases (codec.decode value)) [
    | inl (d, k) ↦ (k ∙ ap ok (ground (arith, k, h)), ground (arith, k, h))
    | inr (e, k) ↦ absurd (ground (arith, k, h))
  ]
  operation_lem Operation.delete value n m r h = (cc, ground (arith, h))
  operation_lem Operation.purge value n m r h = (cc, ground (arith, h))

  data_lem :
      (found : Option (Entry B)) (m : Map A) (r : ℕ)
      → entry_data codec (ok found) ≡ ok (m, r)
      → Stands (held found) m × (revision_of found ≡ r)
  unfolding entry_data
  data_lem none m r h = (cc, ground (arith, h))
  data_lem (some e) m r h = operation_lem e.operation e.value e.revision m r h

  entry_data-err : (e : String) (d : Map A × ℕ) → entry_data codec (err e) ≢ ok d
  unfolding entry_data
  entry_data-err e d h = cc

  pub listed :
      (key : String) (s : σ) (m : Map A) (r : ℕ)
      → entry_data codec (bucket.entry key s).0 ≡ ok (m, r)
      → let t = (bucket.entry key s).1 in
        Stands (is_bucket.content t key) m × (is_bucket.revision t key ≡ r)
  listed key s m r h = elim (Result-cases (bucket.entry key s).0) [
    | inr (e, k) ↦ absurd (entry_data-err e (m, r) (ap (entry_data codec) (sym k) ∙ h))
    | inl (found, k) ↦
        let (c, v) =
          is_bucket.entry_found key s (bucket.entry key s).1 found
            (λ i. (k i, (bucket.entry key s).1)) in
        let (stands, revision) = data_lem found m r (ap (entry_data codec) (sym k) ∙ h) in
        (rw c stands, v ∙ revision)
  ]

  IsUpdated-later :
      (key : String) (updater : Map A → Result (Option B)) (s t u : σ)
      → is_bucket.Later s t
      → IsUpdated key updater t u
      → IsUpdated key updater s u
  IsUpdated-later key updater s t u later up = record {
    moment = up.moment;
    later = is_bucket.later_trans s t up.moment later up.later;
    current = up.current;
    stands = up.stands;
    outcome = up.outcome;
  }

  -- The updater's result, where `current` is what the entry held when its revision was `r`.
  once-IsUpdated :
      (key : String) (updater : Map A → Result (Option B)) (again : Action σ (Unit {0}))
      (current : Map A) (result : Result (Option B)) (r : ℕ) (s : σ)
      → updater current ≡ result
      → Stands (is_bucket.content s key) current
      → is_bucket.revision s key ≡ r
      → ((t : σ) → Ensures (again t) (λ _ u. IsUpdated key updater t u))
      → Ensures (write_once bucket codec key result r again s) (λ _ u. IsUpdated key updater s u)
  unfolding write_once
  once-IsUpdated key updater again current (err e) r s made stands rev more = record {
    at = λ a t h. cc;
  }
  once-IsUpdated key updater again current (ok none) r s made stands rev more =
      Ensures-pure tt s _ (record {
        moment = s;
        later = is_bucket.later_refl s;
        current = current;
        stands = stands;
        outcome = inl (made, refl);
      })
  once-IsUpdated key updater again current (ok (some bytes)) r s made stands rev more =
      let t = (bucket.update key bytes r s).1 in
      elim (Answer-cases (bucket.update key bytes r s).0) [
        | inl k ↦
            let (u, later, rev_u, now, others) =
              is_bucket.update_written key bytes r s t (λ i. (k i, t)) in
            let same = is_bucket.same_revision s u key later (rev ∙ sym rev_u) in
            rw (k, write_once)
              (Ensures-pure tt t _ (record {
                moment = u;
                later = later;
                current = current;
                stands = subst (λ c. Stands c current) same stands;
                outcome = inr (bytes, made, now, others);
              }))
        | inr (message, k) ↦ elim (Bool-cases (is_wrong_sequence message)) [
          | inl b ↦
              rw (k, b, write_once)
                (Ensures-imp _ _ (more t) (λ _ u up.
                  IsUpdated-later key updater s t u
                    (is_bucket.update_refused key bytes r s t message (λ i. (k i, t))) up))
          | inr b ↦ rw (k, b, write_once) (record { at = λ a u h. cc })
        ]
      ]

  -- However often the write has to be tried again: a success updates what the entry held at one
  -- moment, and no other entry.
  pub update_with_retries-IsUpdated :
      (attempts : ℕ) (key : String) (updater : Map A → Result (Option B)) (s : σ)
      → Ensures
          (update_with_retries bucket codec attempts key updater s)
          (λ _ t. IsUpdated key updater s t)
  unfolding update_with_retries internal_list attempt
  update_with_retries-IsUpdated zero key updater s = record { at = λ a t h. cc }
  update_with_retries-IsUpdated (suc n) key updater s =
      let t = (bucket.entry key s).1 in
      elim (Result-cases (entry_data codec (bucket.entry key s).0)) [
        | inr (e, k) ↦ rw (k, attempt) (record { at = λ a u h. cc })
        | inl (d, k) ↦
            let (stands, rev) = listed key s d.0 d.1 k in
            rw (k, attempt)
              (Ensures-imp _ _
                (once-IsUpdated key updater (update_with_retries bucket codec n key updater) d.0
                  (updater d.0) d.1 t refl stands rev
                  (λ u. update_with_retries-IsUpdated n key updater u))
                (λ _ u up. IsUpdated-later key updater s t u (is_bucket.entry_later key s) up))
      ]
