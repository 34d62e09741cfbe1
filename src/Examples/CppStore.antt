-- ===== src/Examples/CppStore.antt =====
-- examples/cpp/main.cpp, `KvStore`: a `std::map` from texts to byte vectors. The program never
-- goes through a map, so the order of its entries is not modelled.
use libsignal_zig.Prelude.{
  ◌+◌, ◌≤◌, ◌≡◌, length, All, refl, Option, none, some, List, [], ◌∷◌, if◌then◌else◌, eql, eql_iff,
  arith,
}
use libsignal_zig.Prelude.Bytes.{Bytes}
use libsignal_zig.Ffi.{Outcome, success, ◌>>=◌}
use libsignal_zig.Examples.{Kv, IsLawful}
use libsignal_zig.Examples.CStore.{KvRows, kv_max, c_kv}
use libsignal_zig.Examples.CStore

abbrev pub KvMap : Type 0
KvMap = List (Bytes × Bytes)

-- `s[k] = d`
unfoldable pub kv_put : KvMap → Bytes → Bytes → KvMap
kv_put [] k d = (k, d) ∷ []
kv_put ((j, e) ∷ s) k d = if eql j k then (j, d) ∷ s else (j, e) ∷ kv_put s k d

unfoldable pub kv_get : KvMap → Bytes → Option Bytes
kv_get [] k = none
kv_get ((j, d) ∷ s) k = let later = kv_get s k in if eql j k then some d else later

abbrev pub cpp_kv : Kv
cpp_kv = record { Store = KvMap; empty = []; put = λ s k d. success (kv_put s k d); get = kv_get }

-- In the map every key is found with what was put last under it.
pub kv_get-kv_put :
    (s : KvMap) (k d j : Bytes) → kv_get (kv_put s k d) j ≡ (if eql j k then some d else kv_get s j)
unfolding kv_get kv_put
kv_get-kv_put [] k d j = ground (arith, eql_iff k j, eql_iff j k)
kv_get-kv_put ((i, e) ∷ s) k d j =
    ground (arith, eql_iff i k, eql_iff j k, eql_iff i j, kv_get-kv_put s k d j)

unfoldable pub cpp_kv-IsLawful : IsLawful cpp_kv
unfolding kv_get
cpp_kv-IsLawful = record {
  IsKey = λ k. Unit;
  Room = λ n s. Unit;
  get-empty = λ k. refl;
  room-empty = λ n h. tt;
  get-put = λ n s k d short room. (kv_put s k d, refl, tt, kv_get-kv_put s k d);
  put-there = λ n s k d e found room. (kv_put s k d, refl, tt, kv_get-kv_put s k d);
}

-- Puts one after another.
unfoldable pub puts : (kv : Kv) → kv.Store → List (Bytes × Bytes) → Outcome kv.Store
puts kv s [] = success s
puts kv s ((k, d) ∷ rest) = kv.put s k d >>= λ s'. puts kv s' rest

-- From stores that agree, and within the room of the C program's, the same puts of keys of at most
-- 511 bytes succeed in both programs, and leave stores that agree on every key.
pub puts_agree :
    (ops : List (Bytes × Bytes)) (s : KvRows) (t : KvMap)
    → All (λ op. length op.0 ≤ 511) ops
    → length ops + length s ≤ kv_max
    → ((j : Bytes) → c_kv.get s j ≡ kv_get t j)
    → (s' : KvRows) × (t' : KvMap) × (puts c_kv s ops ≡ success s')
      × (puts cpp_kv t ops ≡ success t')
      × ((j : Bytes) → c_kv.get s' j ≡ kv_get t' j)
unfolding puts
puts_agree [] s t short room same = (s, t, refl, refl, same)
puts_agree ((k, d) ∷ ops) s t (fits, short) room same =
    let (s₁, put, room₁, found) = CStore.kv_get-kv_put (length ops) s k d fits room in
    let same₁ : (j : Bytes) → c_kv.get s₁ j ≡ kv_get (kv_put t k d) j =
      λ j. rw (found j, kv_get-kv_put t k d j, same j) in
    let (s', t', left, right, same') = puts_agree ops s₁ (kv_put t k d) short room₁ same₁ in
    (s', t', rw (put, left), right, same')
