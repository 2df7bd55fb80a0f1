-- ===== src/Flows/Unknown/Bounds.antt =====
-- The registry of unknown occurrences as a whole (crates/pktflow-flows/src/unknown.rs).
use pktflow.Prelude.{
  ℕ, zero, suc, ◌≤◌, ◌<◌, ◌≡◌, refl, true, Option, none, some, ◌^◌, length, leb, ◌≟◌, if◌then◌else◌,
  arith, Bool-cases, Option-cases, inl, inr, le→leb,
}
use pktflow.Prelude.Map.{Map, get, remove, get_or, contains_key, get-insert}
use pktflow.Core.Packet.{SystemTime, UnknownDiagnostics}
use pktflow.Flows.Unknown.{
  EndpointKey, endpoint_key_eq, UnknownKey, unknown_key_eq, UnknownGroup, UnknownRegistryConfig,
  UnknownRegistry, key_of, new_group, update, coldest, evict_to, enforce_max_groups, number_key,
  record_occurrence, group, ingest,
}
use pktflow.Flows.Unknown.Occurrence.{
  Recorded, HasRoom, length-insert_room, update-IsNext, update-new_group,
}
use pktflow.Flows.Unknown.Groups.{
  AllBounded, update-IsBounded, get_or-IsBounded, insert-AllBounded, remove-AllBounded,
  remove-length, coldest-none, coldest-Coldest,
}

some_key :
    (k : UnknownKey) (m : Map UnknownKey UnknownGroup)
    → contains_key k m ≡ true
    → length (remove k m) < length m
unfolding contains_key
some_key k m h = elim (Option-cases (get k m)) [
  | inl e ↦ cc (rw (e, contains_key) at h)
  | inr (v, e) ↦ remove-length k v m e
]

evict_to-AllBounded :
    (fuel size max_groups : ℕ) (r : UnknownRegistry)
    → AllBounded size r.groups
    → length r.groups ≤ fuel
    → AllBounded size (evict_to fuel r max_groups).groups
      × (length (evict_to fuel r max_groups).groups ≤ max_groups)
unfolding evict_to
evict_to-AllBounded zero size max_groups r b h = (b, omega arith)
evict_to-AllBounded (suc fuel) size max_groups r b h =
    elim (Bool-cases (leb (length r.groups) max_groups)) [
      | inl e ↦ rw e (b, ground arith)
      | inr e ↦ elim (Option-cases (coldest r.seqs r.groups)) [
        | inl none_left ↦ absurd (
            let empty = coldest-none r.seqs r.groups none_left in
            let n : length r.groups ≡ 0 = rw empty refl in ground arith)
        | inr (g, found) ↦
            rw (e, found, evict_to)
              (evict_to-AllBounded fuel size max_groups
                (record {
                  groups = remove g.key r.groups;
                  seqs = remove g.key r.seqs;
                  next_seq = r.next_seq;
                })
                (remove-AllBounded size g.key r.groups b)
                (let less =
                    some_key g.key r.groups ((coldest-Coldest size r.seqs r.groups g b found).0) in
                  omega arith))
      ]
    ]

number_key-groups : (k : UnknownKey) (r : UnknownRegistry) → (number_key k r).groups ≡ r.groups
unfolding number_key
number_key-groups k r = ground arith

record_occurrence-AllBounded :
    (r : UnknownRegistry) (diag : UnknownDiagnostics) (bytes : ℕ) (ts : SystemTime)
    (ep : Option EndpointKey) (config : UnknownRegistryConfig)
    → AllBounded config.samples_per_group r.groups
    → AllBounded config.samples_per_group (record_occurrence r diag bytes ts ep config).groups
unfolding record_occurrence
record_occurrence-AllBounded r diag bytes ts ep config b =
    let size = config.samples_per_group in
    let k = key_of diag.context in
    rw (number_key-groups k r) (
      insert-AllBounded size k _ r.groups
        (update-IsBounded k _ diag bytes ts ep config (get_or-IsBounded size k ts r.groups b)) b)

-- Where every group of the registry stands under its own key, with at most `max 1 samples_per_group`
-- samples and at most 64 endpoints, this holds of every group behind an occurrence too, and then
-- there are at most `max_groups` of them, however many there were before.
pub ingest-AllBounded :
    (r : UnknownRegistry) (diag : UnknownDiagnostics) (bytes : ℕ) (ts : SystemTime)
    (ep : Option EndpointKey) (config : UnknownRegistryConfig)
    → AllBounded config.samples_per_group r.groups
    → AllBounded config.samples_per_group (ingest r diag bytes ts ep config).groups
      × (length (ingest r diag bytes ts ep config).groups ≤ config.max_groups)
unfolding ingest enforce_max_groups
ingest-AllBounded r diag bytes ts ep config b =
    let next = record_occurrence r diag bytes ts ep config in
    evict_to-AllBounded (length next.groups) config.samples_per_group config.max_groups next
      (record_occurrence-AllBounded r diag bytes ts ep config b) (omega arith)

evict_to_fits :
    (fuel max_groups : ℕ) (r : UnknownRegistry)
    → length r.groups ≤ max_groups
    → evict_to fuel r max_groups ≡ r
unfolding evict_to
evict_to_fits zero max_groups r h = refl
evict_to_fits (suc fuel) max_groups r h = rw (le→leb (length r.groups) max_groups h) refl

record_occurrence-group :
    (r : UnknownRegistry) (diag : UnknownDiagnostics) (bytes : ℕ) (ts : SystemTime)
    (ep : Option EndpointKey) (config : UnknownRegistryConfig) (k : UnknownKey)
    → group (record_occurrence r diag bytes ts ep config) k ≡ (
        if key_of diag.context ≟ k
        then some (
            update
              (get_or (key_of diag.context) (new_group (key_of diag.context) ts) r.groups)
              diag
              bytes
              ts
              ep
              config)
        else group r k)
unfolding record_occurrence group
record_occurrence-group r diag bytes ts ep config k =
    rw (number_key-groups (key_of diag.context) r) (get-insert (key_of diag.context) k _ r.groups)

record_occurrence_fits :
    (r : UnknownRegistry) (diag : UnknownDiagnostics) (bytes : ℕ) (ts : SystemTime)
    (ep : Option EndpointKey) (config : UnknownRegistryConfig)
    → HasRoom r (key_of diag.context) config.max_groups
    → length (record_occurrence r diag bytes ts ep config).groups ≤ config.max_groups
unfolding record_occurrence
record_occurrence_fits r diag bytes ts ep config room =
    rw (number_key-groups (key_of diag.context) r)
      (length-insert_room r (key_of diag.context) _ config.max_groups room)

ingest_fits :
    (r : UnknownRegistry) (diag : UnknownDiagnostics) (bytes : ℕ) (ts : SystemTime)
    (ep : Option EndpointKey) (config : UnknownRegistryConfig)
    → HasRoom r (key_of diag.context) config.max_groups
    → ingest r diag bytes ts ep config ≡ record_occurrence r diag bytes ts ep config
unfolding ingest enforce_max_groups
ingest_fits r diag bytes ts ep config room =
    evict_to_fits (length (record_occurrence r diag bytes ts ep config).groups) config.max_groups
      (record_occurrence r diag bytes ts ep config)
      (record_occurrence_fits r diag bytes ts ep config room)

get_or-group :
    (r : UnknownRegistry) (k : UnknownKey) (d : UnknownGroup)
    → get_or k d r.groups ≡ (elim (group r k) [ none ↦ d | some g ↦ g ])
unfolding get_or group
get_or-group r k d = refl

record_occurrence-Recorded :
    (r : UnknownRegistry) (diag : UnknownDiagnostics) (bytes : ℕ) (ts : SystemTime)
    (ep : Option EndpointKey) (config : UnknownRegistryConfig) (k : UnknownKey)
    → bytes < 2 ^ 32
    → Recorded r diag bytes ts ep config.samples_per_group k
        (group (record_occurrence r diag bytes ts ep config) k)
record_occurrence-Recorded r diag bytes ts ep config k u32 =
    let key = key_of diag.context in
    elim (Bool-cases (key ≟ k)) [
      | inr e ↦ rw (record_occurrence-group r diag bytes ts ep config k, e) (Recorded.other e)
      | inl e ↦
          let same : key ≡ k = ground (arith, e) in
          rw
            (
              record_occurrence-group r diag bytes ts ep config k,
              e,
              same,
              get_or-group r k (new_group k ts),
            )
            (elim (Option-cases (group r k)) [
              | inl absent ↦
                  rw (absent, update-new_group k diag bytes ts ep config u32)
                    (Recorded.fresh e absent)
              | inr (g, found) ↦
                  rw found (Recorded.again g _ e found (update-IsNext g diag bytes ts ep config))
            ])
    ]

-- Take an occurrence for whose key the registry has room: it is below its cap, or within it with
-- the key there already. It leaves the groups of all other keys as they were. A key without a group
-- gets one with a count of one, the bytes and the time of the occurrence in all totals and bounds,
-- its endpoint, its ranking and its sample. In the group of a key that has one, the count grows by
-- one and the total by the bytes, modulo 2^64; the byte and time bounds take the occurrence in; a new
-- endpoint is added, or, behind 64 of them, only marked as overflow; the ranking with the higher top
-- score stays, the later of equal ones; and the sample comes last, for the oldest if the ring is full.
pub ingest-group :
    (r : UnknownRegistry) (diag : UnknownDiagnostics) (bytes : ℕ) (ts : SystemTime)
    (ep : Option EndpointKey) (config : UnknownRegistryConfig) (k : UnknownKey)
    → bytes < 2 ^ 32
    → HasRoom r (key_of diag.context) config.max_groups
    → Recorded r diag bytes ts ep config.samples_per_group k
        (group (ingest r diag bytes ts ep config) k)
ingest-group r diag bytes ts ep config k u32 room =
    rw (ingest_fits r diag bytes ts ep config room)
      (record_occurrence-Recorded r diag bytes ts ep config k u32)
