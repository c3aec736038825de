-- ===== src/Persistence/Genesis.antt =====
-- The tables after the migrations: the three `@world` accounts of drizzle/0002_seed_world_accounts.sql
-- and their balance rows (drizzle/0004_ledger_invariants.sql). The ids are made up by the database.
use miniledger.Base.{ℕ, String, none, some, [], ◌∷◌}
use miniledger.Domain.Account.{system}
use miniledger.Persistence.Store.{Db, AccountRow, no_rows}
use miniledger.Persistence.Balances.{opened}

abbrev pub world_row : ℕ → String → String → AccountRow
world_row now id currency = record {
  id = id;
  type = system;
  currency = currency;
  overdraft_floor = none;
  handle = some "@world";
  owner_id = none;
  created_at = now;
}

abbrev pub genesis : ℕ → String → String → String → Db
genesis now usd eur jpy = record no_rows {
  accounts = world_row now usd "USD" ∷ world_row now eur "EUR" ∷ world_row now jpy "JPY" ∷ [];
  balances = (usd, opened) ∷ (eur, opened) ∷ (jpy, opened) ∷ [];
}
