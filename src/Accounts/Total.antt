-- ===== src/Accounts/Total.antt =====
-- When a read succeeds: in range it always does.
use kassandra.Base.{
  ℕ, ◌+◌, ◌≤◌, ◌≡◌, refl, arith, ◌↔◌, List, length, length-take, length-drop, get_elem?, some,
  le→leb, drop, Result, ok, err, ◌>>=◌, ◌>>◌,
}
use kassandra.Platform.{Platform}
use kassandra.Bytes.RoundTrip.{of_le}
use kassandra.Accounts.Common.{
  AccountType, slice, get_uint, read_u8, read_u16_le, read_u64_le, read_i64_le, read_bool,
  read_pubkey, assert_account,
}
pub use kassandra.Accounts.Common.{tag_of}

abbrev pub Succeeds {ℓ} : {A : Type ℓ} → Result A → Type ℓ
Succeeds {A} m = (a : A) × (m ≡ ok a)

pub ok-Succeeds {ℓ} : {A : Type ℓ} (a : A) → Succeeds (ok a)
ok-Succeeds a = (a, refl)

pub >>=-Succeeds {ℓ κ} :
    {A : Type ℓ} {B : Type κ} {m : Result A} {f : A → Result B}
    → Succeeds m
    → ((a : A) → Succeeds (f a))
    → Succeeds (m >>= f)
>>=-Succeeds {f} (a, e) k = rw e (k a)

get_uint-Succeeds :
    (n : ℕ) (raw : List ℕ) (off : ℕ) → off + n ≤ length raw → Succeeds (get_uint n raw off)
unfolding get_uint
get_uint-Succeeds n raw off h = (of_le (slice raw off n), rw (le→leb _ _ h))

module _ (raw : List ℕ) (off : ℕ) where
  pub read_u8-Succeeds : off + 1 ≤ length raw → Succeeds (read_u8 raw off)
  unfolding read_u8
  read_u8-Succeeds h = get_uint-Succeeds 1 raw off h

  pub read_u16_le-Succeeds : off + 2 ≤ length raw → Succeeds (read_u16_le raw off)
  unfolding read_u16_le
  read_u16_le-Succeeds h = get_uint-Succeeds 2 raw off h

  pub read_u64_le-Succeeds : off + 8 ≤ length raw → Succeeds (read_u64_le raw off)
  unfolding read_u64_le
  read_u64_le-Succeeds h = get_uint-Succeeds 8 raw off h

  pub read_i64_le-Succeeds : off + 8 ≤ length raw → Succeeds (read_i64_le raw off)
  unfolding read_i64_le
  read_i64_le-Succeeds h = >>=-Succeeds (get_uint-Succeeds 8 raw off h) λ _. ok-Succeeds _

  pub read_bool-Succeeds : off + 1 ≤ length raw → Succeeds (read_bool raw off)
  unfolding read_bool
  read_bool-Succeeds h = >>=-Succeeds (get_uint-Succeeds 1 raw off h) λ _. ok-Succeeds _

pub read_pubkey-Succeeds :
    (p : Platform) (raw : List ℕ) (off : ℕ)
    → off + 32 ≤ length raw
    → Succeeds (read_pubkey p raw off)
unfolding read_pubkey slice
read_pubkey-Succeeds p raw off h =
    p.of_bytes_total _ (omega (arith, length-take 32 (drop off raw), length-drop off raw))

-- `assertAccount` passes exactly the data of the size under the tag.
pub assert_account_iff :
    (raw : List ℕ) (t : AccountType) (size : ℕ)
    → (assert_account raw t size ≡ ok tt)
      ↔ ((length raw ≡ size) × (get_elem? raw 0 ≡ some (tag_of t)))
unfolding assert_account
assert_account_iff raw t size = ground arith

-- What comes behind a check that fails is never reached.
pub bind-assert_account {ℓ} :
    {B : Type ℓ} (m : Result (Unit {0})) (k : Result B) → Succeeds (m >> k) → m ≡ ok tt
bind-assert_account (ok tt) k s = refl
bind-assert_account (err e) k s = cc (s.1)
