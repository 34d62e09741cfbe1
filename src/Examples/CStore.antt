-- ===== src/Examples/CStore.antt =====
-- examples/c/main.c, `kv_t`: rows in an array of 128, each with a key of at most 511 characters.
use libsignal_zig.Prelude.{
  ℕ, suc, ◌+◌, ◌≤◌, ◌<◌, ◌≡◌, refl, ap, Option, none, some, List, [], ◌∷◌, ◌++◌, length, take, leb,
  le→leb, lt→leb, Bool-cases, inl, inr, All, All-append, if◌then◌else◌, eql, eql_iff, Option-cases,
  arith, length-append, length-take, take_within,
}
use libsignal_zig.Prelude.Bytes.{Bytes}
use libsignal_zig.Ffi.{Outcome, success, abort, ◌>>◌, abort_if}
use libsignal_zig.Examples.{Kv, IsLawful}

abbrev pub kv_max : ℕ
kv_max = 128

pub record KvRow : Type 0 where
  pub key : Bytes
  pub data_bytes : Bytes

-- The rows in use: `n` is their number. The bytes are owned, so they are values here.
abbrev pub KvRows : Type 0
KvRows = List KvRow

-- `for (…) if (strcmp(rows[i].key, k) == 0) { …; return; }`: the rows with the first match replaced.
unfoldable pub replace_first : Bytes → Bytes → KvRows → Option KvRows
replace_first k d [] = none
replace_first k d (row ∷ rows) =
    let later = replace_first k d rows in
    if eql row.key k
    then some (record { key = row.key; data_bytes = d } ∷ rows)
    else elim later [ none ↦ none | some rows' ↦ some (row ∷ rows') ]

-- `strncpy(key, k, 511)` cuts a longer key off.
unfoldable pub kv_put : KvRows → Bytes → Bytes → Outcome KvRows
kv_put s k d = elim (replace_first k d s) [
  | some rows ↦ success rows
  | none ↦ do
    abort_if (leb kv_max (length s))
    success (s ++ record { key = take 511 k; data_bytes = d } ∷ [])
]

unfoldable pub kv_get : KvRows → Bytes → Option Bytes
kv_get [] k = none
kv_get (row ∷ rows) k =
    let later = kv_get rows k in if eql row.key k then some row.data_bytes else later

abbrev pub kv_free : KvRows → KvRows
kv_free s = []

abbrev pub c_kv : Kv
c_kv = record { Store = KvRows; empty = []; put = kv_put; get = kv_get }

kv_get-replace_first :
    (k d j : Bytes) (s s' : KvRows)
    → replace_first k d s ≡ some s'
    → kv_get s' j ≡ (if eql j k then some d else kv_get s j)
unfolding replace_first kv_get
kv_get-replace_first k d j [] s' h = cc
kv_get-replace_first k d j (row ∷ rows) s' h = elim (Bool-cases (eql row.key k)) [
  | inl same ↦
      let replaced : s' ≡ record { key = row.key; data_bytes = d } ∷ rows = cc (rw same at h) in
      rw replaced (ground (arith, eql_iff row.key k, eql_iff j k, eql_iff row.key j))
  | inr other ↦ elim (Option-cases (replace_first k d rows)) [
    | inl absent ↦ cc (rw (other, absent) at h)
    | inr (rows', there) ↦
        let replaced : s' ≡ row ∷ rows' = cc (rw (other, there) at h) in
        rw replaced (
          ground (
            arith,
            eql_iff row.key k,
            eql_iff j k,
            eql_iff row.key j,
            kv_get-replace_first k d j rows rows' there,
          ))
  ]
]

kv_get-append :
    (k d j : Bytes) (s : KvRows)
    → replace_first k d s ≡ none
    → kv_get (s ++ record { key = k; data_bytes = d } ∷ []) j
      ≡ (if eql j k then some d else kv_get s j)
unfolding replace_first kv_get
kv_get-append k d j [] h = ground (arith, eql_iff k j, eql_iff j k)
kv_get-append k d j (row ∷ rows) h = elim (Bool-cases (eql row.key k)) [
  | inl same ↦ cc (rw same at h)
  | inr other ↦ elim (Option-cases (replace_first k d rows)) [
    | inl absent ↦
        ground (
          arith,
          eql_iff row.key k,
          eql_iff j k,
          eql_iff row.key j,
          kv_get-append k d j rows absent,
        )
    | inr (rows', there) ↦ cc (rw (other, there) at h)
  ]
]

length-replace_first :
    (k d : Bytes) (s s' : KvRows) → replace_first k d s ≡ some s' → length s' ≡ length s
unfolding replace_first
length-replace_first k d [] s' h = cc
length-replace_first k d (row ∷ rows) s' h = elim (Bool-cases (eql row.key k)) [
  | inl same ↦
      let replaced : s' ≡ record { key = row.key; data_bytes = d } ∷ rows = cc (rw same at h) in
      rw replaced
  | inr other ↦ elim (Option-cases (replace_first k d rows)) [
    | inl absent ↦ cc (rw (other, absent) at h)
    | inr (rows', there) ↦
        let replaced : s' ≡ row ∷ rows' = cc (rw (other, there) at h) in
        rw replaced (ap suc (length-replace_first k d rows rows' there))
  ]
]

-- A key of at most 511 bytes that is put in a store with room is found with what was put, last,
-- under it; every other key is found as before; and the store grows by one row at most.
pub kv_get-kv_put :
    (n : ℕ) (s : KvRows) (k d : Bytes)
    → length k ≤ 511
    → suc n + length s ≤ kv_max
    → (s' : KvRows) × (kv_put s k d ≡ success s')
      × (n + length s' ≤ kv_max)
      × ((j : Bytes) → kv_get s' j ≡ (if eql j k then some d else kv_get s j))
unfolding kv_put
kv_get-kv_put n s k d short room = elim (Option-cases (replace_first k d s)) [
  | inl absent ↦ (
    s ++ record { key = k; data_bytes = d } ∷ [],
    rw (kv_put, absent, lt→leb kv_max (length s) (omega arith), take_within 511 k short),
    omega (arith, length-append s (record { key = k; data_bytes = d } ∷ [])),
    λ j. kv_get-append k d j s absent,
  )
  | inr (rows, there) ↦ (
    rows,
    rw (kv_put, there),
    omega (arith, length-replace_first k d s rows there),
    λ j. kv_get-replace_first k d j s rows there,
  )
]

kv_get_absent : (k d : Bytes) (s : KvRows) → replace_first k d s ≡ none → kv_get s k ≡ none
unfolding replace_first kv_get
kv_get_absent k d [] absent = refl
kv_get_absent k d (row ∷ rows) absent = ground (arith, kv_get_absent k d rows)

-- A key that is found keeps its row, so that the store need not have room.
pub kv_put_there :
    (n : ℕ) (s : KvRows) (k d e : Bytes)
    → kv_get s k ≡ some e
    → n + length s ≤ kv_max
    → (s' : KvRows) × (kv_put s k d ≡ success s')
      × (n + length s' ≤ kv_max)
      × ((j : Bytes) → kv_get s' j ≡ (if eql j k then some d else kv_get s j))
unfolding kv_put
kv_put_there n s k d e found room = elim (Option-cases (replace_first k d s)) [
  | inl absent ↦ cc (found, kv_get_absent k d s absent)
  | inr (rows, there) ↦ (
    rows,
    rw (kv_put, there),
    omega (arith, length-replace_first k d s rows there),
    λ j. kv_get-replace_first k d j s rows there,
  )
]

unfoldable pub c_kv-IsLawful : IsLawful c_kv
unfolding kv_get
c_kv-IsLawful = record {
  IsKey = λ k. length k ≤ 511;
  Room = λ n s. n + length s ≤ kv_max;
  get-empty = λ k. refl;
  room-empty = λ n h. omega arith;
  get-put = kv_get-kv_put;
  put-there = kv_put_there;
}

-- A full store takes no new key: the program aborts.
pub kv_put_full :
    (s : KvRows) (k d : Bytes)
    → kv_max ≤ length s
    → replace_first k d s ≡ none
    → kv_put s k d ≡ abort
unfolding kv_put
kv_put_full s k d full absent = rw (kv_put, absent, le→leb kv_max (length s) full)

abbrev pub Cut : KvRows → Type 0
Cut = All (λ row. length row.key ≤ 511)

kv_get_long : (s : KvRows) (k : Bytes) → Cut s → 511 < length k → kv_get s k ≡ none
unfolding kv_get
kv_get_long [] k h long = refl
kv_get_long (row ∷ rows) k (cut, h) long =
    ground (arith, eql_iff row.key k, ap (λ (b : Bytes). length b), kv_get_long rows k h long)

replace_first_long :
    (k d : Bytes) (s : KvRows) → Cut s → 511 < length k → replace_first k d s ≡ none
unfolding replace_first
replace_first_long k d [] h long = refl
replace_first_long k d (row ∷ rows) (cut, h) long =
    ground
      (arith, eql_iff row.key k, ap (λ (b : Bytes). length b), replace_first_long k d rows h long)

-- In a store whose keys have at most 511 bytes, and with room, a longer key is cut off where it
-- is stored, so that what is put under it takes a row, each time, and is not found.
pub kv_get-kv_put_long :
    (s : KvRows) (k d : Bytes)
    → Cut s
    → 511 < length k
    → length s < kv_max
    → (s' : KvRows) × (kv_put s k d ≡ success s')
      × Cut s'
      × (length s' ≡ suc (length s))
      × (kv_get s' k ≡ none)
unfolding kv_put
kv_get-kv_put_long s k d h long room =
    let row : KvRow = record { key = take 511 k; data_bytes = d } in
    let cut : Cut (s ++ row ∷ []) =
      All-append (λ (r : KvRow). length r.key ≤ 511) s (row ∷ []) h
        (omega (arith, length-take 511 k), tt) in
    (
      s ++ row ∷ [],
      rw (kv_put, replace_first_long k d s h long, lt→leb kv_max (length s) room),
      cut,
      omega (arith, length-append s (row ∷ [])),
      kv_get_long (s ++ row ∷ []) k cut long,
    )
