-- ===== src/V6/Error.antt =====
-- heraclitus-log/src/v6/error.rs: results of the v6 readers, and the bounds checks on what they read.
use crates.Prelude.{ℕ, ◌+◌, ◌^◌, String, ◌≡◌, refl, ◌⊎◌, inl, inr}
use crates.Prelude.{List, ltb, leb, if◌then◌else◌, length, take, drop}

-- What a corruption error says. The numbers that the messages print are not kept.
pub data Fault : Type 0 where
  varint_overflow varint_non_canonical varint_too_long varint_truncated varint_exceeds_usize : Fault
  segment_unknown generation_unknown generation_exists root_differs no_authority_left : Fault
  lsn_reversed hlc_reversed too_many_records duplicate_generations active_missing : Fault
  plan_takes_authority plan_takes_active : Fault
  offset_overflow slice_out_of_bounds invalid_boolean invalid_presence exceeds_u32 : Fault
  string_too_long not_utf8 unknown_code too_many_generations too_many_segments body_too_long : Fault
  file_too_small bad_magic bad_version bad_header_len header_crc_differs bad_footer_magic : Fault
  bad_footer_len file_crc_differs body_len_exceeds_usize body_len_differs body_digest_differs :
      Fault
  trailing_bytes segments_unordered : Fault

pub data V6Error : Type 0 where
  corrupt : String → Fault → V6Error

pub data V6Result {ℓ} (A : Type ℓ) : Type ℓ where
  ok : A → V6Result A
  err : V6Error → V6Result A

infixl 5 ◌>>=◌
abbrev pub ◌>>=◌ {ℓ κ} : {A : Type ℓ} {B : Type κ} → V6Result A → (A → V6Result B) → V6Result B
ok a >>= f = f a
err e >>= f = err e

-- A step that succeeds hands its result to the rest.
pub bind-ok {ℓ κ} :
    {A : Type ℓ} {B : Type κ} {r : V6Result A} {a : A} {x : V6Result B} (f : A → V6Result B)
    → r ≡ ok a
    → f a ≡ x
    → r >>= f ≡ x
bind-ok f e h = rw e h

pub bind-eq-ok {ℓ κ} :
    {A : Type ℓ} {B : Type κ} (r : V6Result A) (f : A → V6Result B) {b : B}
    → r >>= f ≡ ok b
    → (a : A) × (r ≡ ok a) × (f a ≡ ok b)
bind-eq-ok (ok a) f h = (a, refl, h)
bind-eq-ok (err e) f h = cc

pub ok_inj {ℓ} : {A : Type ℓ} {a b : A} → ◌≡◌ {A = V6Result A} (ok a) (ok b) → a ≡ b
ok_inj h = cc

-- `buf[at .. at + len]`, whose end is a `usize`.
unfoldable pub slice_at : ℕ → List ℕ → ℕ → ℕ → String → V6Result (List ℕ)
slice_at usize_bits buf at len ctx =
    if leb (2 ^ usize_bits) (at + len)
    then err (corrupt ctx offset_overflow)
    else if ltb (length buf) (at + len)
    then err (corrupt ctx slice_out_of_bounds)
    else ok (take len (drop at buf))

pub V6Result-cases :
    {A : Type 0} → (r : V6Result A) → ((e : V6Error) × (r ≡ err e)) ⊎ ((a : A) × (r ≡ ok a))
V6Result-cases (err e) = inl (e, refl)
V6Result-cases (ok a) = inr (a, refl)
