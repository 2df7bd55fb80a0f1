-- ===== src/Flows/Unknown/Groups.antt =====
-- The bounds of one group, and the choice of the group to evict
-- (crates/pktflow-flows/src/unknown.rs).
use pktflow.Prelude.{
  Eq, ℕ, ◌-◌, ◌≤◌, ◌<◌, ◌≡◌, refl, ◌∙◌, List, [], ◌∷◌, Bool, true, false, Option, none, some,
  length, length-append, max, ◌≟◌, if◌then◌else◌, arith, Bool-cases, Option-cases, inl, inr,
}
use mathlib.Core.Path.{subst}
use pktflow.Prelude.Map.{Map, get, insert, remove, get_or, contains_key}
use pktflow.Core.Packet.{SystemTime, UnknownDiagnostics}
use pktflow.Flows.Rollup.{pop_front}
use pktflow.Flows.Unknown.{
  EndpointKey, endpoint_key_eq, UnknownKey, unknown_key_eq, UnknownGroup, UnknownRegistryConfig,
  new_group, add_endpoint, push_sample, update, colder, coldest,
}

-- A group under its own key, within the bounds of a ring of `size` samples.
unfoldable pub IsBounded : ℕ → UnknownKey → UnknownGroup → Type 0
IsBounded size k g = (g.key ≡ k) × (length g.samples ≤ max size 1) × (length g.endpoints ≤ 64)

unfoldable pub AllBounded : ℕ → Map UnknownKey UnknownGroup → Type 0
AllBounded size [] = Unit {0}
AllBounded size ((k, g) ∷ m) = IsBounded size k g × AllBounded size m

add_endpoint-length :
    (eps : List EndpointKey) (overflow : Bool) (ep : Option EndpointKey)
    → length eps ≤ 64
    → length ((add_endpoint eps overflow ep).0) ≤ 64
unfolding add_endpoint
add_endpoint-length eps overflow none h = h
add_endpoint-length eps overflow (some ep) h = ground (arith, length-append eps (ep ∷ []))

pop_front-length : (xs : List (List ℕ)) → length (pop_front xs) ≡ length xs - 1
pop_front-length [] = refl
pop_front-length (x ∷ xs) = omega arith

push_sample-length :
    (size : ℕ) (samples : List (List ℕ)) (sample : List ℕ)
    → length samples ≤ max size 1
    → length (push_sample size samples sample) ≤ max size 1
unfolding push_sample
push_sample-length size samples sample h = ground (
  arith,
  length-append samples (sample ∷ []),
  length-append (pop_front samples) (sample ∷ []),
  pop_front-length samples,
)

pub update-IsBounded :
    (k : UnknownKey) (g : UnknownGroup) (diag : UnknownDiagnostics) (bytes : ℕ) (ts : SystemTime)
    (ep : Option EndpointKey) (config : UnknownRegistryConfig)
    → IsBounded config.samples_per_group k g
    → IsBounded config.samples_per_group k (update g diag bytes ts ep config)
unfolding update IsBounded
update-IsBounded k g diag bytes ts ep config (same, ring, set) = (
  same,
  push_sample-length config.samples_per_group g.samples diag.sample ring,
  add_endpoint-length g.endpoints g.endpoints_overflow ep set,
)

pub get_or-IsBounded :
    (size : ℕ) (k : UnknownKey) (ts : SystemTime) (m : Map UnknownKey UnknownGroup)
    → AllBounded size m
    → IsBounded size k (get_or k (new_group k ts) m)
unfolding get_or get new_group IsBounded AllBounded
get_or-IsBounded size k ts [] b = (refl, omega arith, omega arith)
get_or-IsBounded size k ts ((j, g) ∷ m) ((same, ring, set), rest) = elim (Bool-cases (j ≟ k)) [
  | inl e ↦ rw (e, get_or) (same ∙ ground arith, ring, set)
  | inr e ↦ rw (e, get_or) (get_or-IsBounded size k ts m rest)
]

pub insert-AllBounded :
    (size : ℕ) (k : UnknownKey) (g : UnknownGroup) (m : Map UnknownKey UnknownGroup)
    → IsBounded size k g
    → AllBounded size m
    → AllBounded size (insert k g m)
unfolding insert AllBounded
insert-AllBounded size k g [] b bs = (b, tt)
insert-AllBounded size k g ((j, h) ∷ m) b (b', bs) = elim (Bool-cases (j ≟ k)) [
  | inl e ↦ rw e (b, bs)
  | inr e ↦ rw e (b', insert-AllBounded size k g m b bs)
]

pub remove-AllBounded :
    (size : ℕ) (k : UnknownKey) (m : Map UnknownKey UnknownGroup)
    → AllBounded size m
    → AllBounded size (remove k m)
unfolding remove AllBounded
remove-AllBounded size k [] bs = bs
remove-AllBounded size k ((j, h) ∷ m) (b, bs) = elim (Bool-cases (j ≟ k)) [
  | inl e ↦ rw e (remove-AllBounded size k m bs)
  | inr e ↦ rw e (b, remove-AllBounded size k m bs)
]

module _ {ℓ κ} {K : Type ℓ} {V : Type κ} ⦃e : Eq K⦄ where
  remove-length_le : (k : K) (m : Map K V) → length (remove k m) ≤ length m
  unfolding remove
  remove-length_le k [] = omega arith
  remove-length_le k ((j, v) ∷ m) = ground (arith, remove-length_le k m)

  pub remove-length :
      (k : K) (v : V) (m : Map K V) → get k m ≡ some v → length (remove k m) < length m
  unfolding remove get
  remove-length k v [] h = ground arith
  remove-length k v ((j, w) ∷ m) h = ground (arith, remove-length_le k m, remove-length k v m)

-- The coldest group stands in the map, and no group of the map is colder.
pub NoneColder : Map UnknownKey ℕ → UnknownGroup → Map UnknownKey UnknownGroup → Type 0
NoneColder seqs g [] = Unit {0}
NoneColder seqs g ((k, h) ∷ m) = (colder seqs h g ≡ false) × NoneColder seqs g m

NoneColder-weaken :
    (seqs : Map UnknownKey ℕ) (g h : UnknownGroup) (m : Map UnknownKey UnknownGroup)
    → colder seqs h g ≡ false
    → NoneColder seqs h m
    → NoneColder seqs g m
unfolding NoneColder colder
NoneColder-weaken seqs g h [] l n = tt
NoneColder-weaken seqs g h ((k, x) ∷ m) l (n, ns) =
    (ground arith, NoneColder-weaken seqs g h m l ns)

pub coldest-none :
    (seqs : Map UnknownKey ℕ) (m : Map UnknownKey UnknownGroup) → coldest seqs m ≡ none → m ≡ []
unfolding coldest
coldest-none seqs [] h = refl
coldest-none seqs ((k, g) ∷ m) h = ground arith

-- One step of the search, by the cases of the rest.
coldest_cons :
    (seqs : Map UnknownKey ℕ) (k : UnknownKey) (x y : UnknownGroup)
    (m : Map UnknownKey UnknownGroup)
    → coldest seqs m ≡ some y
    → coldest seqs ((k, x) ∷ m) ≡ some (if colder seqs y x then y else x)
unfolding coldest
coldest_cons seqs k x y m h = ground arith

coldest_last :
    (seqs : Map UnknownKey ℕ) (k : UnknownKey) (x : UnknownGroup) (m : Map UnknownKey UnknownGroup)
    → coldest seqs m ≡ none
    → coldest seqs ((k, x) ∷ m) ≡ some x
unfolding coldest
coldest_last seqs k x m h = ground arith

colder_self : (seqs : Map UnknownKey ℕ) (g : UnknownGroup) → colder seqs g g ≡ false
unfolding colder
colder_self seqs g = ground arith

colder_asym :
    (seqs : Map UnknownKey ℕ) (g h : UnknownGroup)
    → colder seqs g h ≡ true
    → colder seqs h g ≡ false
unfolding colder
colder_asym seqs g h l = ground arith

abbrev Coldest : Map UnknownKey ℕ → Map UnknownKey UnknownGroup → UnknownGroup → Type 0
Coldest seqs m g = (contains_key g.key m ≡ true) × NoneColder seqs g m

contains_key_head :
    (k : UnknownKey) (x : UnknownGroup) (m : Map UnknownKey UnknownGroup)
    → x.key ≡ k
    → contains_key x.key ((k, x) ∷ m) ≡ true
unfolding contains_key get
contains_key_head k x m same = ground arith

contains_key_tail :
    (j k : UnknownKey) (x : UnknownGroup) (m : Map UnknownKey UnknownGroup)
    → contains_key j m ≡ true
    → contains_key j ((k, x) ∷ m) ≡ true
unfolding contains_key get
contains_key_tail j k x m h = ground arith

head-Coldest :
    (seqs : Map UnknownKey ℕ) (k : UnknownKey) (x : UnknownGroup) (m : Map UnknownKey UnknownGroup)
    → x.key ≡ k
    → NoneColder seqs x m
    → Coldest seqs ((k, x) ∷ m) x
unfolding NoneColder
head-Coldest seqs k x m same n = (contains_key_head k x m same, (colder_self seqs x, n))

pub coldest-Coldest :
    (size : ℕ) (seqs : Map UnknownKey ℕ) (m : Map UnknownKey UnknownGroup) (g : UnknownGroup)
    → AllBounded size m
    → coldest seqs m ≡ some g
    → Coldest seqs m g
unfolding coldest AllBounded IsBounded NoneColder
coldest-Coldest size seqs [] g b h = ground arith
coldest-Coldest size seqs ((k, x) ∷ m) g (b, bs) h = elim (Option-cases (coldest seqs m)) [
  | inl e ↦
      let same : x ≡ g = cc (coldest_last seqs k x m e, h) in
      subst (λ z. Coldest seqs ((k, x) ∷ m) z) same
        (head-Coldest seqs k x m b.0 (rw (coldest-none seqs m e) tt))
  | inr (y, e) ↦
      let (there, least) = coldest-Coldest size seqs m y bs e in
      elim (Bool-cases (colder seqs y x)) [
        | inl c ↦
            let same : y ≡ g = cc (rw c at (coldest_cons seqs k x y m e), h) in
            subst (λ z. Coldest seqs ((k, x) ∷ m) z) same
              (contains_key_tail y.key k x m there, (colder_asym seqs y x c, least))
        | inr c ↦
            let same : x ≡ g = cc (rw c at (coldest_cons seqs k x y m e), h) in
            subst (λ z. Coldest seqs ((k, x) ∷ m) z) same
              (head-Coldest seqs k x m b.0 (NoneColder-weaken seqs x y m c least))
      ]
]
