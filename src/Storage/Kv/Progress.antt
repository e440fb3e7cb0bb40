-- ===== src/Storage/Kv/Progress.antt =====
-- The loop of `update_with_retries` ends with a write: as many attempts are enough as other writers
-- overtake, and one more.
use Prim.Native.Nat.{suc, zero}
use wadm.Prelude.{ℕ, ◌<◌, String, ◌≡◌, refl, arith, true, Option, none, some, Map, Result, ok}
use wadm.Storage.Kv.{
  Bucket, Codec, written, refused, is_wrong_sequence, internal_list, write_once, attempt,
  update_with_retries,
}

module _ {B σ A : Type 0} (bucket : Bucket B σ) (codec : Codec B A) (key : String)
    (updater : Map A → Result (Option B)) where
  -- The calls of an attempt in `s`: the entry is read, and the updater has these bytes to write.
  pub record Reads (s : σ) (bytes : B) (revision : ℕ) : Type 0 where
    pub current : Map A
    pub listed : (internal_list bucket codec key s).0 ≡ ok (current, revision)
    pub made : updater current ≡ ok (some bytes)

  -- The attempts from `s` on: other writers overtake `n` of them, then there is nothing to write or
  -- the write is accepted.
  pub data Overtaken : ℕ → σ → Type 0 where
    idle :
        {s : σ}
        → (current : Map A) (revision : ℕ)
        → (internal_list bucket codec key s).0 ≡ ok (current, revision)
        → updater current ≡ ok none
        → Overtaken 0 s
    accepted :
        {s : σ}
        → (bytes : B) (revision : ℕ) → Reads s bytes revision
        → (bucket.update key bytes revision (internal_list bucket codec key s).1).0 ≡ written
        → Overtaken 0 s
    overtaken :
        {n : ℕ} {s : σ}
        → (bytes : B) (revision : ℕ) (message : String) → Reads s bytes revision
        → (bucket.update key bytes revision (internal_list bucket codec key s).1).0
          ≡ refused message
        → is_wrong_sequence message ≡ true
        → Overtaken n (bucket.update key bytes revision (internal_list bucket codec key s).1).1
        → Overtaken (suc n) s

  -- Where other writers overtake `n` attempts, and then there is nothing to write or the write is
  -- accepted, more than `n` attempts end with success.
  pub update_with_retries-ok :
      (attempts n : ℕ) (s : σ)
      → n < attempts
      → Overtaken n s
      → (update_with_retries bucket codec attempts key updater s).0 ≡ ok tt
  unfolding update_with_retries attempt write_once
  update_with_retries-ok zero n s more o = absurd (omega arith)
  update_with_retries-ok (suc attempts) _ s more (idle current revision l m) =
      rw (l, attempt, m, write_once) refl
  update_with_retries-ok (suc attempts) _ s more (accepted bytes revision r w) =
      rw (r.listed, attempt, r.made, write_once, w) refl
  update_with_retries-ok (suc attempts) _ s more (overtaken {n} bytes revision message r w k o) =
      rw (r.listed, attempt, r.made, write_once, w, k)
        (update_with_retries-ok attempts n _ (omega arith) o)
