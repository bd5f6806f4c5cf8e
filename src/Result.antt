-- ===== src/Result.antt =====
-- What a call returns: a value, or the `abort()` that ended the process, by its reason.
use residctl.Prelude.{◌≡◌, refl, ◌⊎◌, inl, inr, Bool, if◌then◌else◌, Option, none, some}

-- One constructor for each `abort()` of the sources that are modelled. `out_of_bounds` stands for an
-- access outside an array, `out_of_fuel` for a loop that the model cut off.
pub data Abort : Type 0 where
  chunk_size_zero chunk_count_out_of_range spec_gap spec_not_identity spec_empty : Abort
  spec_unaligned spec_len_unaligned spec_wrong_total : Abort
  no_region no_paths no_budget : Abort
  stat_unreadable shmem_below shmem_above : Abort
  evict_not_resident evict_pinned punch_failed : Abort
  no_covering_chunk not_fetching left_fetching demand_queue_full predicted_out_of_range : Abort
  fetch_misaligned fetch_io fetch_eof continue_failed continue_short : Abort
  trace_write_failed trace_bad_header trace_is_fault trace_bad_type : Abort
  signals_miscounted below_floor : Abort
  out_of_bounds out_of_fuel : Abort

pub data Result {ℓ} (A : Type ℓ) : Type ℓ where
  abort : Abort → Result A
  ok : A → Result A

-- The test that must hold, or the process ends.
abbrev pub guard : (holds : Bool) (reason : Abort) → Result (Unit {0})
guard holds reason = if holds then ok tt else abort reason

abbrev pub or_abort {ℓ} : {A : Type ℓ} → Option A → Abort → Result A
or_abort (some a) reason = ok a
or_abort none reason = abort reason

infixl 5 ◌>>=◌ ◌>>◌
abbrev pub ◌>>=◌ {ℓ κ} : {A : Type ℓ} {B : Type κ} (m : Result A) (next : A → Result B) → Result B
abort reason >>= next = abort reason
ok a >>= next = next a

abbrev pub ◌>>◌ {ℓ} : {B : Type ℓ} (m : Result (Unit {0})) (next : Result B) → Result B
m >> next = m >>= λ done. next

pub >>=-eq-ok {ℓ κ} :
    {A : Type ℓ} {B : Type κ} {b : B} (m : Result A) (next : A → Result B)
    → (m >>= next) ≡ ok b
    → (a : A) × (m ≡ ok a) × (next a ≡ ok b)
>>=-eq-ok (abort reason) next h = cc
>>=-eq-ok (ok a) next h = (a, refl, h)

pub Result-cases {ℓ} :
    {A : Type ℓ} (m : Result A) → ((a : A) × (m ≡ ok a)) ⊎ ((x : Abort) × (m ≡ abort x))
Result-cases (ok a) = inl (a, refl)
Result-cases (abort x) = inr (x, refl)
