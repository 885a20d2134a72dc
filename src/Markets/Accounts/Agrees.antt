-- ===== src/Markets/Accounts/Agrees.antt =====
-- What the market SDK reads of an oracle is what the oracle SDK decodes.
use kassandra.Base.{ℕ, ◌≡◌, arith, List, ok, length}
use kassandra.Platform.{Platform}
use kassandra.Accounts.Oracle.{Oracle, decode_oracle}
use kassandra.Accounts.Oracle.Accepts.{decode_oracle_accepts}
use kassandra.Markets.Accounts.Oracle.{decode_market_oracle}

module _ (p : Platform) where
  -- Data that the oracle SDK decodes as an oracle, the market SDK reads too, and its number of options,
  -- phase and winning option are those of the decoded oracle.
  pub decode_market_oracle-decode_oracle :
      (raw : List ℕ) (o : Oracle p.Address)
      → decode_oracle p raw ≡ ok o
      → decode_market_oracle raw
        ≡ ok (record {
          options_count = o.options_count;
          phase = o.phase_raw;
          resolved_option = o.resolved_option;
        })
  unfolding decode_oracle decode_market_oracle
  decode_market_oracle-decode_oracle raw o h =
      let size : length raw ≡ 368 = ((decode_oracle_accepts p raw).0 (o, h)).0 in ground arith
