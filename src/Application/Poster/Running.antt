-- ===== src/Application/Poster/Running.antt =====
-- The loop of LedgerPoster.post over the postings (run_postings): the chain of each account, and its
-- floor.
use miniledger.Base.{
  ℕ, suc, ℤ, ◌+ℤ◌, ◌≤ℤ◌, ◌≡◌, refl, sym, ap, ◌∙◌, inl, inr, String, true, Option, none, some, List,
  [], ◌∷◌, length, All, Map, lookup, insert, lookup-insert_eq, lookup-insert_ne, IsDistinct,
  insert-IsDistinct, Result, ok, err, ◌==◌, eq_iff, arith, Bool-cases, Option-cases, subst,
}
use miniledger.Kernel.Currency
use miniledger.Kernel.Currency.{Currency}
use miniledger.Kernel.Money
use miniledger.Domain.Journal.{Posting}
use miniledger.Domain.Overdraft.{is_sufficient}
use miniledger.Domain.HashChain.{hash_posting}
use miniledger.Persistence.Failure.{Failure}
use miniledger.Persistence.Store.{PostingRow, LockedBalance}
use miniledger.Persistence.Platform.{Platform, IsCanonical}
use miniledger.Persistence.Balances.Locks.{HasCanonicalKeys, insert-HasCanonicalKeys}
use miniledger.Persistence.Journals.{PostingLine, posting_row, to_posting_rows}
use miniledger.Application.Poster.{
  Posted, push_line, sufficient, floor_of, line_of, state_after, run_postings,
}
use miniledger.Ledger.Chain.{Above, Linked, Linked-nil, rows_for, content_of}

module _ (platform : Platform) (currency : Currency) (floors : Map (Option ℤ)) (id : String) where
  -- The test of one posting at a state.
  abbrev pub Suffices : Posting → LockedBalance → Type 0
  Suffices p state =
      sufficient (
        is_sufficient (Money.of state.balance currency) p.amount
          (floor_of (lookup p.account_id.value floors)))
      ≡ ok tt

  -- A round of the loop that succeeds.
  pub record Round (p : Posting) (ps : List Posting) (running : Map LockedBalance)
      (lines : List PostingLine) (running' : Map LockedBalance) : Type 0 where
    pub state : LockedBalance
    pub found : lookup p.account_id.value running ≡ some state
    pub suffices : Suffices p state
    pub more : List PostingLine
    pub lines_eq : lines ≡ (line_of platform id p state ∷ more)
    pub rest :
        run_postings platform currency floors id ps
          (insert p.account_id.value (state_after (line_of platform id p state)) running)
        ≡ ok (more, running')

  push_line-ok :
      (line : PostingLine) (r : Result Posted Failure) {lines : List PostingLine}
      {running' : Map LockedBalance}
      → push_line line r ≡ ok (lines, running')
      → (more : List PostingLine) × (lines ≡ (line ∷ more)) × (r ≡ ok (more, running'))
  push_line-ok line (err e) h = cc h
  push_line-ok line (ok (more, running)) h = (more, cc h, cc h)

  push_line-suffices :
      (r : Result (Unit {0}) Failure) (line : PostingLine) (rest : Result Posted Failure)
      {posted : Posted}
      → elim r [ err e ↦ err e | ok _ ↦ push_line line rest ] ≡ ok posted
      → (r ≡ ok tt) × (push_line line rest ≡ ok posted)
  push_line-suffices (err e) line rest h = cc h
  push_line-suffices (ok _) line rest h = (refl, h)

  pub run_postings-Round :
      (p : Posting) (ps : List Posting) (running : Map LockedBalance) {lines : List PostingLine}
      {running' : Map LockedBalance}
      → run_postings platform currency floors id (p ∷ ps) running ≡ ok (lines, running')
      → Round p ps running lines running'
  unfolding run_postings
  run_postings-Round p ps running {lines} {running'} h =
      elim (Option-cases (lookup p.account_id.value running)) [
        | inl missing ↦ cc (rw (missing, run_postings) at h)
        | inr (state, found) ↦
            let line = line_of platform id p state in
            let (passed, pushed) =
              push_line-suffices
                (sufficient (
                  is_sufficient (Money.of state.balance currency) p.amount
                    (floor_of (lookup p.account_id.value floors))))
                line
                (run_postings platform currency floors id ps
                  (insert p.account_id.value (state_after line) running))
                (rw (found, run_postings) at h) in
            let (more, same, rest) = push_line-ok line _ pushed in
            record {
              state = state;
              found = found;
              suffices = passed;
              more = more;
              lines_eq = same;
              rest = rest;
            }
      ]

  run_postings-nil :
      (running : Map LockedBalance) {lines : List PostingLine} {running' : Map LockedBalance}
      → run_postings platform currency floors id [] running ≡ ok (lines, running')
      → (lines ≡ []) × (running ≡ running')
  unfolding run_postings
  run_postings-nil running h = (cc h, cc h)

  -- One line for each posting.
  pub length-run_postings :
      (ps : List Posting) (running : Map LockedBalance) {lines : List PostingLine}
      {running' : Map LockedBalance}
      → run_postings platform currency floors id ps running ≡ ok (lines, running')
      → length lines ≡ length ps
  length-run_postings [] running h = ap length (run_postings-nil running h).0
  length-run_postings (p ∷ ps) running h =
      let r = run_postings-Round p ps running h in
      ap length r.lines_eq ∙ ap suc (length-run_postings ps _ r.rest)

  -- A row in front of the rows of an account, and a step of the state of that account.
  Linked-cons :
      (a : String) (row : PostingRow) (rows : List PostingRow) (state : LockedBalance)
      (o' : Option LockedBalance)
      → (row.account_id == a) ≡ true
      → row.prev_hash ≡ state.chain_hash
      → row.balance_after ≡ state.balance +ℤ row.amount
      → row.hash ≡ hash_posting platform.sha256 state.chain_hash (content_of row)
      → Linked platform.sha256
          (some (record { balance = row.balance_after; chain_hash = some row.hash }))
          (rows_for a rows)
          o'
      → Linked platform.sha256 (some state) (rows_for a (row ∷ rows)) o'
  Linked-cons a row rows state none same e1 e2 e3 l = absurd l
  Linked-cons a row rows state (some s') same e1 e2 e3 l = rw same (e1, e2, e3, l)

  -- For every account the rows that the lines make continue its chain, from its state before the
  -- loop to its state after.
  pub run_postings-Linked :
      (now seq : ℕ) (a : String) (ps : List Posting) (running : Map LockedBalance)
      {lines : List PostingLine} {running' : Map LockedBalance}
      → run_postings platform currency floors id ps running ≡ ok (lines, running')
      → Linked platform.sha256
          (lookup a running)
          (rows_for a (to_posting_rows id now seq ps lines))
          (lookup a running')
  unfolding to_posting_rows line_of
  run_postings-Linked now seq a [] running {lines} {running'} h =
      subst (λ m. Linked platform.sha256 (lookup a running) [] (lookup a m))
        (run_postings-nil running h).1 (Linked-nil platform.sha256 (lookup a running))
  run_postings-Linked now seq a (p ∷ ps) running {lines} {running'} h =
      let r = run_postings-Round p ps running h in
      let line = line_of platform id p r.state in
      let key = p.account_id.value in
      let next = insert key (state_after line) running in
      let tail = run_postings-Linked now (suc seq) a ps next r.rest in
      rw r.lines_eq (elim (Bool-cases (key == a)) [
        | inl same ↦
            let here =
              subst (λ k. lookup k running ≡ some r.state) ((eq_iff key a).0 same) r.found in
            rw here (
              Linked-cons a (posting_row id now seq p line)
                (to_posting_rows id now (suc seq) ps r.more) r.state (lookup a running') same refl
                refl refl (rw (lookup-insert_eq key a (state_after line) running same) at tail))
        | inr other ↦
            rw other (rw (lookup-insert_ne key a (state_after line) running other) at tail)
      ])

  is_sufficient-Above :
      (p : Posting) (state : LockedBalance) {floor : ℤ}
      → floor_of (lookup p.account_id.value floors) ≡ some floor
      → Suffices p state
      → floor ≤ℤ state.balance +ℤ p.amount.amount
  unfolding is_sufficient Money.add
  is_sufficient-Above p state {floor} e h =
      elim (Bool-cases (Currency.equals currency p.amount.currency)) [
        | inl same ↦ ground arith
        | inr other ↦ ground arith
      ]

  -- An account with a floor that starts at or above it ends at or above it.
  pub run_postings-Above :
      (a : String) {floor : ℤ} (ps : List Posting) (running : Map LockedBalance)
      {lines : List PostingLine} {running' : Map LockedBalance}
      → floor_of (lookup a floors) ≡ some floor
      → run_postings platform currency floors id ps running ≡ ok (lines, running')
      → Above floor (lookup a running)
      → Above floor (lookup a running')
  run_postings-Above a {floor} [] running e h above =
      subst (λ m. Above floor (lookup a m)) (run_postings-nil running h).1 above
  run_postings-Above a {floor} (p ∷ ps) running {lines} {running'} e h above =
      let r = run_postings-Round p ps running h in
      let line = line_of platform id p r.state in
      let key = p.account_id.value in
      run_postings-Above a {floor = floor} ps (insert key (state_after line) running) e r.rest
        (elim (Bool-cases (key == a)) [
          | inl same ↦ rw (lookup-insert_eq key a (state_after line) running same) (
              unfold line_of in
              is_sufficient-Above p r.state {floor = floor}
                (subst (λ k. floor_of (lookup k floors) ≡ some floor) (sym ((eq_iff key a).0 same))
                  e)
                r.suffices)
          | inr other ↦ rw (lookup-insert_ne key a (state_after line) running other) above
        ])

  -- The keys stay distinct, and an account is in the map after the loop if it was before.
  pub run_postings-IsDistinct :
      (ps : List Posting) (running : Map LockedBalance) {lines : List PostingLine}
      {running' : Map LockedBalance}
      → run_postings platform currency floors id ps running ≡ ok (lines, running')
      → IsDistinct running
      → IsDistinct running'
  run_postings-IsDistinct [] running h d = subst IsDistinct (run_postings-nil running h).1 d
  run_postings-IsDistinct (p ∷ ps) running h d =
      let r = run_postings-Round p ps running h in
      run_postings-IsDistinct ps _ r.rest (insert-IsDistinct _ _ running d)

  pub run_postings-HasCanonicalKeys :
      (ps : List Posting) (running : Map LockedBalance) {lines : List PostingLine}
      {running' : Map LockedBalance}
      → All (λ p. IsCanonical platform p.account_id.value) ps
      → run_postings platform currency floors id ps running ≡ ok (lines, running')
      → HasCanonicalKeys platform running
      → HasCanonicalKeys platform running'
  run_postings-HasCanonicalKeys [] running c h k =
      subst (HasCanonicalKeys platform) (run_postings-nil running h).1 k
  run_postings-HasCanonicalKeys (p ∷ ps) running c h k =
      let r = run_postings-Round p ps running h in
      run_postings-HasCanonicalKeys ps _ c.1 r.rest
        (insert-HasCanonicalKeys platform _ _ running c.0 k)
