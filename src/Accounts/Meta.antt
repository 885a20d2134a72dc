-- ===== src/Accounts/Meta.antt =====
-- sdks/oracles/ts/src/accounts/oracleMeta.ts: the decoder of the length-prefixed metadata account.
-- The offset that its closures move is passed along.
pub mod RoundTrip
use kassandra.Base.{
  ℕ, zero, suc, ◌+◌, List, [], ◌∷◌, Option, none, some, Result, ok, err, wrong_tag, ◌>>=◌, ◌>>◌,
  guard, get_elem?, ◌==◌,
}
use kassandra.Platform.{Platform}
use kassandra.Accounts.Common.{AccountType, tag_of, read_pubkey, read_u16_le, slice}

pub record OracleMeta (Address Text : Type 0) : Type 0 where
  pub account_type : AccountType
  pub oracle : Address
  pub subject : Text
  pub options : List Text
  pub uri : Text
  pub uri_hash : List ℕ

-- `u16()`: the value, and the offset behind it.
unfoldable pub next_u16 : List ℕ → ℕ → Result (ℕ × ℕ)
next_u16 raw off = do v ← read_u16_le raw off; ok (v, off + 2)

-- `data[off]`, where `undefined` stops the loop over the options as 0 does.
abbrev pub count_at : List ℕ → ℕ → ℕ
count_at raw off = elim (get_elem? raw off) [ none ↦ 0 | some n ↦ n ]

module _ (p : Platform) where
  -- `str(u16())`
  unfoldable pub next_text : List ℕ → ℕ → Result (p.Text × ℕ)
  unfolding next_u16
  next_text raw off = do
    (len, start) ← next_u16 raw off
    ok (p.text_decode (slice raw start len), start + len)

  -- The loop over the options.
  unfoldable pub next_texts : ℕ → List ℕ → ℕ → Result (List p.Text × ℕ)
  unfolding next_text
  next_texts zero raw off = ok ([], off)
  next_texts (suc n) raw off = do
    (t, off') ← next_text raw off
    (ts, end) ← next_texts n raw off'
    ok (t ∷ ts, end)

  unfoldable pub decode_oracle_meta : List ℕ → Result (OracleMeta p.Address p.Text)
  decode_oracle_meta raw = do
    elim (get_elem? raw 0) [
      | none ↦ err (wrong_tag (tag_of AccountType.oracle_meta) 0)
      | some tag ↦
          guard (tag == tag_of AccountType.oracle_meta)
            (wrong_tag (tag_of AccountType.oracle_meta) tag)
    ]
    oracle ← read_pubkey p raw 2
    (subject, off) ← next_text raw 34
    (options, off') ← next_texts (count_at raw off) raw (off + 1)
    (uri, end) ← next_text raw off'
    ok (record {
      account_type = AccountType.oracle_meta;
      oracle = oracle;
      subject = subject;
      options = options;
      uri = uri;
      uri_hash = slice raw end 32;
    })
