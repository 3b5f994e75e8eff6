-- ===== src/Catalog/Transactions.antt =====
-- src/storage/irc_transaction.cpp and src/storage/irc_transaction_manager.cpp. A transaction is
-- known to the manager by a number.
use duckdb_iceberg.Common.{
  ℕ, ◌≡◌, refl, List, [], ◌∷◌, All, eqb, if◌then◌else◌, Bool-cases, inl, inr,
}

pub data TransactionState : Type 0 where
  not_yet_started started finished : TransactionState

unfoldable pub start : TransactionState
start = not_yet_started

unfoldable pub commit : TransactionState → TransactionState
commit started = finished
commit s = s

unfoldable pub rollback : TransactionState → TransactionState
rollback started = finished
rollback s = s

abbrev pub Transactions : Type 0
Transactions = List (ℕ × TransactionState)

-- `transactions.erase`
abbrev pub erase : ℕ → Transactions → Transactions
erase id [] = []
erase id ((k, s) ∷ ts) = if eqb k id then erase id ts else (k, s) ∷ erase id ts

unfoldable pub start_transaction : ℕ → Transactions → Transactions
unfolding start
start_transaction id transactions = (id, start) ∷ erase id transactions

-- What `end_state` does to the transaction of the number, before it is erased.
abbrev change : (TransactionState → TransactionState) → ℕ → Transactions → Transactions
change end_state id [] = []
change end_state id ((k, s) ∷ ts) =
    (k, if eqb k id then end_state s else s) ∷ change end_state id ts

unfoldable pub commit_transaction : ℕ → Transactions → Transactions
unfolding commit
commit_transaction id transactions = erase id (change commit id transactions)

unfoldable pub rollback_transaction : ℕ → Transactions → Transactions
unfolding rollback
rollback_transaction id transactions = erase id (change rollback id transactions)

-- The calls of the manager, from the one table of transactions to the other.
pub data Reaches : Transactions → Transactions → Type 0 where
  done : {ts : Transactions} → Reaches ts ts
  starts : {ts us : Transactions} (id : ℕ) → Reaches (start_transaction id ts) us → Reaches ts us
  commits : {ts us : Transactions} (id : ℕ) → Reaches (commit_transaction id ts) us → Reaches ts us
  rolls_back :
      {ts us : Transactions} (id : ℕ) → Reaches (rollback_transaction id ts) us → Reaches ts us

abbrev pub IsUnstarted : ℕ × TransactionState → Type 0
IsUnstarted (id, s) = s ≡ not_yet_started

erase-IsUnstarted :
    (id : ℕ) (ts : Transactions) → All IsUnstarted ts → All IsUnstarted (erase id ts)
erase-IsUnstarted id [] h = tt
erase-IsUnstarted id ((k, s) ∷ ts) (p, h) = elim (Bool-cases (eqb k id)) [
  | inl here ↦ rw here (erase-IsUnstarted id ts h)
  | inr there ↦ rw there (p, erase-IsUnstarted id ts h)
]

change-IsUnstarted :
    (end_state : TransactionState → TransactionState) (id : ℕ) (ts : Transactions)
    → end_state not_yet_started ≡ not_yet_started
    → All IsUnstarted ts
    → All IsUnstarted (change end_state id ts)
change-IsUnstarted end_state id [] e h = tt
change-IsUnstarted end_state id ((k, s) ∷ ts) e (p, h) = (
  elim (Bool-cases (eqb k id)) [ inl here ↦ rw (here, p, e) | inr there ↦ rw (there, p) ],
  change-IsUnstarted end_state id ts e h,
)

Reaches-IsUnstarted :
    {ts us : Transactions} → Reaches ts us → All IsUnstarted ts → All IsUnstarted us
unfolding start_transaction commit_transaction rollback_transaction
Reaches-IsUnstarted done h = h
Reaches-IsUnstarted (starts {ts = ts} id r) h =
    Reaches-IsUnstarted r (refl, erase-IsUnstarted id ts h)
Reaches-IsUnstarted (commits {ts = ts} id r) h =
    Reaches-IsUnstarted r (erase-IsUnstarted id _ (change-IsUnstarted commit id ts refl h))
Reaches-IsUnstarted (rolls_back {ts = ts} id r) h =
    Reaches-IsUnstarted r (erase-IsUnstarted id _ (change-IsUnstarted rollback id ts refl h))

-- A transaction that neither `Commit` nor `Rollback` changes.
abbrev pub IsStill : ℕ × TransactionState → Type 0
IsStill (id, s) = (s ≡ not_yet_started) × (commit s ≡ s) × (rollback s ≡ s)

IsUnstarted-IsStill : (ts : Transactions) → All IsUnstarted ts → All IsStill ts
unfolding commit rollback
IsUnstarted-IsStill [] h = tt
IsUnstarted-IsStill ((k, s) ∷ ts) (p, h) = ((p, rw p refl, rw p refl), IsUnstarted-IsStill ts h)

-- If no transaction of the manager is started, then after any sequence of its calls each of its
-- transactions is one that is not started and that neither `Commit` nor `Rollback` changes.
pub Reaches-IsStill : {ts us : Transactions} → Reaches ts us → All IsUnstarted ts → All IsStill us
Reaches-IsStill {us = us} calls h = IsUnstarted-IsStill us (Reaches-IsUnstarted calls h)
