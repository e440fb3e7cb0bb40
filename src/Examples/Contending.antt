-- ===== src/Examples/Contending.antt =====
-- A bucket in which another writer comes first, once.
use wadm.Prelude.{
  ℕ, zero, suc, ◌<◌, String, ◌≡◌, refl, arith, Bool, true, false, Option, none, some, List, [], ◌∷◌,
  Map, Result, ok, ◌==◌,
}
use wadm.Storage.{Component}
use wadm.Storage.Sets.{map_from_iter}
use wadm.Storage.Kv.{
  Answer, refused, Bucket, is_prefix, is_part, is_wrong_sequence, entry_data, operation_data,
  store_items, internal_list, update_with_retries,
}
use wadm.Storage.Kv.Progress.{Overtaken, Reads, accepted, overtaken, update_with_retries-ok}
use wadm.Examples.Memory.{Bytes, Memory, bucket, codecs, write}

-- The flag tells that the other writer is still to come.
abbrev Contended : Type 0
Contended = Bool × Memory

abbrev write_second : String → Bytes → ℕ → Contended → Answer × Contended
write_second key bytes r (true, s) =
    (refused "wrong last sequence: 7", (false, (write true key (Bytes.components []) r s).1))
write_second key bytes r (false, s) =
    let (answer, t) = bucket.update key bytes r s in (answer, (false, t))

abbrev contended : Bucket Bytes Contended
contended = record { entry = λ key s. (ok (wadm.Prelude.lookup key s.1), s); update = write_second }

abbrev one_item : Map Component
one_item =
    ("hello", record { id = "hello"; name = ""; issuer = ""; instances = []; reference = "" }) ∷ []

abbrev store_one : Map Component → Result (Option Bytes)
store_one = store_items codecs.components one_item

abbrev second : Contended
second = (write_second "k" (Bytes.components one_item) 0 (true, [])).1

first_read :
    Reads contended codecs.components "k" store_one (true, []) (Bytes.components one_item) 0
unfolding internal_list entry_data store_items map_from_iter wadm.Prelude.lookup wadm.Prelude.insert
first_read = record { current = []; listed = refl; made = refl }

second_read : Reads contended codecs.components "k" store_one second (Bytes.components one_item) 1
unfolding internal_list entry_data operation_data store_items map_from_iter wadm.Prelude.lookup
    wadm.Prelude.insert
second_read = record { current = []; listed = refl; made = refl }

once-Overtaken : Overtaken contended codecs.components "k" store_one 1 (true, [])
unfolding internal_list entry_data operation_data store_items map_from_iter is_prefix is_part
    is_wrong_sequence wadm.Prelude.lookup wadm.Prelude.insert
once-Overtaken =
    overtaken (Bytes.components one_item) 0 "wrong last sequence: 7" first_read refl refl
      (accepted (Bytes.components one_item) 1 second_read refl)

one_less : 1 < 2
one_less = omega arith

update_with_retries-ok_example :
    (update_with_retries contended codecs.components 2 "k" store_one (true, [])).0 ≡ ok tt
update_with_retries-ok_example =
    update_with_retries-ok contended codecs.components "k" store_one 2 1 (true, []) one_less
      once-Overtaken
