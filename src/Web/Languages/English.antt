-- ===== src/Web/Languages/English.antt =====
-- web/src/lib/dictionaries.ts: the English texts.
use miniledger.Base.{String, [], ◌∷◌, Map}

unfoldable pub en : Map String
en =
    ("common.signedIn", "Signed in")
    ∷ ("common.logout", "Log out")
    ∷ ("common.language", "Language")
    ∷ ("common.cancel", "Cancel")
    ∷ ("common.apiDocs", "API docs")
    ∷ ("brand.suffix", "Dashboard")
    ∷ ("nav.overview", "Overview")
    ∷ ("nav.accounts", "Accounts")
    ∷ ("nav.transfer", "Transfer")
    ∷ ("nav.integrity", "Integrity")
    ∷ ("errors.unavailable", "The ledger service is unavailable. Please try again shortly.")
    ∷ (
      "errors.invalidCredentials",
      "Invalid credentials. Check the email and password and try again.",
    )
    ∷ (
      "errors.loginUnavailable",
      "The authorization service is unavailable. Please try again in a moment.",
    )
    ∷ ("login.title", "Sign in to MiniLedger")
    ∷ (
      "login.subtitle",
      "The dashboard authenticates against AccessCore. Sign in with an AccessCore account that holds the ledger operator capability.",
    )
    ∷ ("login.email", "Email")
    ∷ ("login.password", "Password")
    ∷ ("login.submit", "Log in")
    ∷ (
      "login.demoHint",
      "Prefilled with the shared demo account, which signs in through AccessCore. Demo data resets nightly.",
    )
    ∷ ("login.useDemo", "Use demo account")
    ∷ ("overview.title", "Overview")
    ∷ (
      "overview.description",
      "A double-entry ledger: money moves between accounts as balanced postings, transfers are idempotent, balances stay correct under concurrency, and every posting is chained into a tamper-evident audit trail.",
    )
    ∷ ("overview.accountsTitle", "Accounts")
    ∷ ("overview.accountsBody", "Open accounts and watch balances move.")
    ∷ ("overview.transferTitle", "Transfer")
    ∷ ("overview.transferBody", "Move money with an idempotency key — retries never double-spend.")
    ∷ ("overview.integrityTitle", "Integrity")
    ∷ ("overview.integrityBody", "Verify the per-account hash chain and prove money is conserved.")
    ∷ ("overview.open", "Open")
    ∷ ("accounts.title", "Accounts")
    ∷ (
      "accounts.description",
      "Your accounts and the shared system accounts. Balances are stored in minor units and shown here formatted to the currency.",
    )
    ∷ ("accounts.open", "Open account")
    ∷ ("accounts.opening", "Opening…")
    ∷ ("accounts.currency", "Currency")
    ∷ ("accounts.openTitle", "Open an account")
    ∷ (
      "accounts.openDescription",
      "Creates a user account you own, in the chosen currency, with a zero balance.",
    )
    ∷ ("accounts.thAccount", "Account")
    ∷ ("accounts.thType", "Type")
    ∷ ("accounts.thCurrency", "Currency")
    ∷ ("accounts.thBalance", "Balance")
    ∷ ("accounts.empty", "No accounts yet. Open one to get started.")
    ∷ ("accounts.system", "system")
    ∷ ("accounts.you", "you")
    ∷ ("accounts.thActions", "Actions")
    ∷ ("accounts.statement", "Statement")
    ∷ ("accounts.loadError", "Accounts could not be loaded from the ledger.")
    ∷ ("statement.title", "Statement")
    ∷ ("statement.back", "← Accounts")
    ∷ ("statement.sectionTitle", "Postings")
    ∷ (
      "statement.sectionDescription",
      "Every posting on this account in sequence, each with the amount and the balance it produced — the raw, append-only history.",
    )
    ∷ ("statement.thSeq", "Seq")
    ∷ ("statement.thDate", "Date (UTC)")
    ∷ ("statement.thTxn", "Transaction")
    ∷ ("statement.thAmount", "Amount")
    ∷ ("statement.thBalance", "Balance")
    ∷ ("statement.empty", "No postings on this account yet.")
    ∷ ("statement.loadMore", "Load more")
    ∷ ("statement.loading", "Loading…")
    ∷ ("statement.notFound", "No such account, or it is not visible to you.")
    ∷ ("statement.loadError", "The statement could not be loaded from the ledger.")
    ∷ ("transfer.title", "Transfer")
    ∷ (
      "transfer.description",
      "Move money between accounts. Deposit from @world, move between your accounts, or withdraw back to @world. Both sides post together — the ledger stays balanced.",
    )
    ∷ ("transfer.formTitle", "New transfer")
    ∷ (
      "transfer.formDescription",
      "Same-currency, double-entry. An idempotency key makes a retried transfer a no-op — never a double spend.",
    )
    ∷ ("transfer.from", "From")
    ∷ ("transfer.fromHint", "@world funds deposits; your accounts fund transfers.")
    ∷ ("transfer.to", "To")
    ∷ ("transfer.noCounterparties", "No same-currency account to send to")
    ∷ ("transfer.amount", "Amount")
    ∷ ("transfer.amountHint", "In {currency}, e.g. 100.00")
    ∷ ("transfer.idempotencyKey", "Idempotency key")
    ∷ (
      "transfer.idempotencyHint",
      "Optional. Reuse the same key to retry safely — it will not double-spend.",
    )
    ∷ ("transfer.optional", "optional")
    ∷ ("transfer.generate", "Generate")
    ∷ ("transfer.send", "Send transfer")
    ∷ ("transfer.sending", "Sending…")
    ∷ ("transfer.posted", "Posted")
    ∷ ("transfer.needAccounts", "Open an account first to make a transfer.")
    ∷ ("integrity.title", "Integrity")
    ∷ (
      "integrity.description",
      "Prove the ledger has not been tampered with: money is conserved across every account, and each account is an unbroken hash chain reconciled to its balance.",
    )
    ∷ ("integrity.reverify", "Re-verify")
    ∷ ("integrity.verifying", "Verifying…")
    ∷ ("integrity.conservationTitle", "Conservation of money")
    ∷ (
      "integrity.conservationDescription",
      "Every posting is balanced, so the sum across all accounts must be exactly zero — per currency. Any drift would mean value was invented or lost.",
    )
    ∷ ("integrity.conserved", "Conserved")
    ∷ ("integrity.notConserved", "Not conserved")
    ∷ (
      "integrity.conservationExplainer",
      "The signed total of every account nets to zero, per currency.",
    )
    ∷ ("integrity.chainTitle", "Per-account hash chain")
    ∷ (
      "integrity.chainDescription",
      "Each posting is chained (SHA-256) to the previous one and reconciled to the stored balance. A tampered or missing posting breaks the chain at a known sequence.",
    )
    ∷ ("integrity.thAccount", "Account")
    ∷ ("integrity.thPostings", "Postings")
    ∷ ("integrity.thBalance", "Balance")
    ∷ ("integrity.thChain", "Chain")
    ∷ ("integrity.intact", "Intact")
    ∷ ("integrity.broken", "Broken at #{seq}")
    ∷ ("integrity.noAccounts", "No accounts to verify yet.")
    ∷ ("integrity.loadError", "The integrity report could not be loaded from the ledger.")
    ∷ []
