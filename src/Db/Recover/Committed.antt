-- ===== src/Db/Recover/Committed.antt =====
-- What `_recover_wal` takes from a log: the changes of committed transactions.
use snapdb.Prelude.{ℕ, ◌≡◌, refl, sym, ap, ◌∙◌, List, [], ◌∷◌, ◌++◌}
use snapdb.Prelude.Eq.{nat_eq}
use snapdb.Schema.{Row}
use snapdb.Wal.{Record}
use snapdb.Db.Recover.{committed_from}

-- A change of a row, as a transaction logs it
pub data Change : Type 0 where
  insert : ℕ → Row → Change
  update : ℕ → Row → Change
  delete : ℕ → Change

abbrev pub record_of : Change → Record
record_of (Change.insert i row) = Record.insert i row
record_of (Change.update i row) = Record.update i row
record_of (Change.delete i) = Record.delete i

abbrev pub records : List Change → List Record
records [] = []
records (c ∷ cs) = record_of c ∷ records cs

-- How a transaction left the log: with its commit, with its rollback, or with neither.
pub data Ending : Type 0 where
  commits rolls_back stops : Ending

abbrev pub end_of : ℕ → Ending → List Record
end_of n commits = Record.commit n ∷ []
end_of n rolls_back = Record.rollback n ∷ []
end_of n stops = []

-- A transaction: its number, its changes and its end
abbrev pub Tx : Type 0
Tx = ℕ × List Change × Ending

-- The log of transactions that ran one after the other.
unfoldable pub log_of : List Tx → List Record
log_of [] = []
log_of ((n, cs, e) ∷ txs) = Record.begin n ∷ (records cs ++ (end_of n e ++ log_of txs))

unfoldable pub committed_records : List Tx → List Record
committed_records [] = []
committed_records ((n, cs, e) ∷ txs) = elim e [
  | commits ↦ records cs ++ committed_records txs
  | rolls_back ↦ committed_records txs
  | stops ↦ committed_records txs
]

append_assoc : (xs ys zs : List Record) → (xs ++ ys) ++ zs ≡ xs ++ (ys ++ zs)
append_assoc [] ys zs = refl
append_assoc (x ∷ xs) ys zs = ap (λ l. x ∷ l) (append_assoc xs ys zs)

append_nil : (xs : List Record) → xs ++ [] ≡ xs
append_nil [] = refl
append_nil (x ∷ xs) = ap (λ l. x ∷ l) (append_nil xs)

committed_from-records :
    (cs : List Change) (pending committed rest : List Record)
    → committed_from pending committed (records cs ++ rest)
      ≡ committed_from (pending ++ records cs) committed rest
unfolding committed_from
committed_from-records [] p c rest = ap (λ l. committed_from l c rest) (sym (append_nil p))
committed_from-records (Change.insert i row ∷ cs) p c rest =
    committed_from-records cs (p ++ (Record.insert i row ∷ [])) c rest
    ∙ ap (λ l. committed_from l c rest) (append_assoc p (Record.insert i row ∷ []) (records cs))
committed_from-records (Change.update i row ∷ cs) p c rest =
    committed_from-records cs (p ++ (Record.update i row ∷ [])) c rest
    ∙ ap (λ l. committed_from l c rest) (append_assoc p (Record.update i row ∷ []) (records cs))
committed_from-records (Change.delete i ∷ cs) p c rest =
    committed_from-records cs (p ++ (Record.delete i ∷ [])) c rest
    ∙ ap (λ l. committed_from l c rest) (append_assoc p (Record.delete i ∷ []) (records cs))

committed_from-log_of :
    (txs : List Tx) (pending committed : List Record)
    → committed_from pending committed (log_of txs) ≡ committed ++ committed_records txs
unfolding committed_from log_of committed_records
committed_from-log_of [] p c = sym (append_nil c)
committed_from-log_of ((n, cs, commits) ∷ txs) p c =
    committed_from-records cs [] c (Record.commit n ∷ log_of txs)
    ∙ committed_from-log_of txs [] (c ++ records cs)
    ∙ append_assoc c (records cs) (committed_records txs)
committed_from-log_of ((n, cs, rolls_back) ∷ txs) p c =
    committed_from-records cs [] c (Record.rollback n ∷ log_of txs) ∙ committed_from-log_of txs [] c
committed_from-log_of ((n, cs, stops) ∷ txs) p c =
    committed_from-records cs [] c (log_of txs) ∙ committed_from-log_of txs (records cs) c

-- From the log of transactions that ran one after the other, recovery takes exactly the changes of
-- those that committed, in the order of the log; one that was rolled back or cut off leaves
-- nothing.
pub committed-log_of : (txs : List Tx) → committed_from [] [] (log_of txs) ≡ committed_records txs
committed-log_of txs = committed_from-log_of txs [] []
