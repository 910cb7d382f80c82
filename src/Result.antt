-- ===== src/Result.antt =====
-- What a Rust function of the program can do: return, return an error, or panic. Errors are those
-- that the source builds, and `external` for what third-party code returns.
use probe_run.Base.{ℕ, ◌≡◌, refl, ap, Bool, true, false, Option, none, some}

pub data Panic : Type 0 where
  overflow assertion expectation todo unimplemented unreachable index : Panic

pub data Error : Type 0 where
  external : ℕ → Error
  missing_debug_info : ℕ → Error
  overlapping_fdes : ℕ → ℕ → Error
  no_thumb_bit : ℕ → Error
  section_missing section_misaligned main_missing : Error
  vector_table_short : ℕ → Error
  rtt_without_breakpoints no_up_channel control_block_not_found malformed_frame no_defmt_data :
      Error
  no_elf_file : Error
  no_probe many_probes invalid_filter invalid_digit empty_number number_too_large : Error

pub data Result {ℓ} (A : Type ℓ) : Type ℓ where
  ok : A → Result A
  err : Error → Result A
  panic : Panic → Result A

infixl 5 ◌>>=◌
abbrev pub ◌>>=◌ {ℓ κ} : {A : Type ℓ} {B : Type κ} → Result A → (A → Result B) → Result B
ok a >>= f = f a
err e >>= f = err e
panic p >>= f = panic p

-- A bind that returns had a result to go on with.
pub >>=-eq-ok {ℓ κ} :
    {A : Type ℓ} {B : Type κ} (r : Result A) (k : A → Result B) {result : B}
    → (r >>= k) ≡ ok result
    → (a : A) × (r ≡ ok a) × (k a ≡ ok result)
>>=-eq-ok (panic p) k e = cc
>>=-eq-ok (err x) k e = cc
>>=-eq-ok (ok a) k e = (a, refl, e)

-- `assert!` and `assert_eq!`
abbrev pub assert : Bool → Result (Unit {0})
assert true = ok tt
assert false = panic assertion

-- `?` on an `Option`, with the error that `ok_or` names
abbrev pub ok_or {ℓ} : {A : Type ℓ} → Option A → Error → Result A
ok_or none e = err e
ok_or (some a) e = ok a

abbrev value_or {ℓ} : {A : Type ℓ} → A → Result A → A
value_or d (ok a) = a
value_or d _ = d

pub ok-injective {ℓ} : {A : Type ℓ} {a b : A} → ok a ≡ ok b → a ≡ b
ok-injective {a = a} e = ap (value_or a) e
