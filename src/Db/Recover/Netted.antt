-- ===== src/Db/Recover/Netted.antt =====
-- The netting of `_recover_wal`: what is left of the records in front of a delete of their row.
use snapdb.Prelude.{
  ℕ, ◌≡◌, refl, sym, ap, subst, Bool, true, false, ◌&&◌, ◌||◌, Option, none, some, List, [], ◌∷◌,
  ◌++◌, arith, if◌then◌else◌,
}
use snapdb.Prelude.Eq.{◌==◌, nat_eq}
use snapdb.Wal.{Record}
use snapdb.Db.Recover.{idx_of, has_idx, without, net_from}

append_assoc : (xs ys zs : List Record) → (xs ++ ys) ++ zs ≡ xs ++ (ys ++ zs)
append_assoc [] ys zs = refl
append_assoc (x ∷ xs) ys zs = ap (λ l. x ∷ l) (append_assoc xs ys zs)

append_nil : (xs : List Record) → xs ++ [] ≡ xs
append_nil [] = refl
append_nil (x ∷ xs) = ap (λ l. x ∷ l) (append_nil xs)

-- The last record of a row, if there is one.
unfoldable pub last_of : ℕ → List Record → Option Record
unfolding has_idx idx_of
last_of idx [] = none
last_of idx (r ∷ rs) = elim (last_of idx rs) [
  | some q ↦ some q
  | none ↦ if has_idx idx r then some r else none
]

unfoldable pub is_delete : ℕ → Record → Bool
is_delete idx (Record.delete i) = i == idx
is_delete idx (Record.insert i row) = false
is_delete idx (Record.update i row) = false
is_delete idx (Record.begin n) = false
is_delete idx (Record.commit n) = false
is_delete idx (Record.rollback n) = false

unfoldable pub any_of : ℕ → List Record → Bool
any_of idx [] = false
any_of idx (r ∷ rs) = has_idx idx r || any_of idx rs

unfoldable pub has_delete : ℕ → List Record → Bool
unfolding is_delete
has_delete idx [] = false
has_delete idx (r ∷ rs) = is_delete idx r || has_delete idx rs

-- The row has a record that a later delete of the row follows.
unfoldable pub is_overtaken : ℕ → List Record → Bool
unfolding has_delete
is_overtaken idx [] = false
is_overtaken idx (r ∷ rs) = has_idx idx r && has_delete idx rs || is_overtaken idx rs

last_of-append :
    (idx : ℕ) (rs : List Record) (r : Record)
    → last_of idx (rs ++ (r ∷ [])) ≡ (if has_idx idx r then some r else last_of idx rs)
unfolding last_of
last_of-append idx [] r = ground arith
last_of-append idx (q ∷ rs) r = ground (arith, last_of-append idx rs r)

last_of-without :
    (idx j : ℕ) (rs : List Record)
    → (idx == j) ≡ false
    → last_of idx (without j rs) ≡ last_of idx rs
unfolding last_of without has_idx idx_of
last_of-without idx j [] ne = refl
last_of-without idx j (Record.insert i row ∷ rs) ne = grind (arith, last_of-without idx j rs ne)
last_of-without idx j (Record.update i row ∷ rs) ne = grind (arith, last_of-without idx j rs ne)
last_of-without idx j (Record.delete i ∷ rs) ne = grind (arith, last_of-without idx j rs ne)
last_of-without idx j (Record.begin n ∷ rs) ne = grind (arith, last_of-without idx j rs ne)
last_of-without idx j (Record.commit n ∷ rs) ne = grind (arith, last_of-without idx j rs ne)
last_of-without idx j (Record.rollback n ∷ rs) ne = grind (arith, last_of-without idx j rs ne)

any_of-append :
    (idx : ℕ) (rs : List Record) (r : Record)
    → any_of idx (rs ++ (r ∷ [])) ≡ (any_of idx rs || has_idx idx r)
unfolding any_of
any_of-append idx [] r = ground arith
any_of-append idx (q ∷ rs) r = ground (arith, any_of-append idx rs r)

has_delete-append :
    (idx : ℕ) (rs : List Record) (r : Record)
    → has_delete idx (rs ++ (r ∷ [])) ≡ (has_delete idx rs || is_delete idx r)
unfolding has_delete
has_delete-append idx [] r = ground arith
has_delete-append idx (q ∷ rs) r = ground (arith, has_delete-append idx rs r)

is_overtaken-append :
    (idx : ℕ) (rs : List Record) (r : Record)
    → is_overtaken idx (rs ++ (r ∷ [])) ≡ (is_overtaken idx rs || any_of idx rs && is_delete idx r)
unfolding is_overtaken any_of has_delete
is_overtaken-append idx [] r = ground arith
is_overtaken-append idx (q ∷ rs) r =
    ground (arith, is_overtaken-append idx rs r, has_delete-append idx rs r)

any_of-without_self : (idx : ℕ) (rs : List Record) → any_of idx (without idx rs) ≡ false
unfolding any_of without
any_of-without_self idx [] = refl
any_of-without_self idx (r ∷ rs) = ground (arith, any_of-without_self idx rs)

has_delete-without :
    (idx j : ℕ) (rs : List Record) → has_delete idx (without j rs) ≡ true → has_delete idx rs ≡ true
unfolding has_delete without
has_delete-without idx j [] h = h
has_delete-without idx j (r ∷ rs) h = ground (arith, has_delete-without idx j rs)

is_overtaken-without :
    (idx j : ℕ) (rs : List Record)
    → is_overtaken idx rs ≡ false
    → is_overtaken idx (without j rs) ≡ false
unfolding is_overtaken without
is_overtaken-without idx j [] h = refl
is_overtaken-without idx j (r ∷ rs) h =
    ground (arith, is_overtaken-without idx j rs, has_delete-without idx j rs)

-- One round of the loop keeps every row's last record, and leaves no record before its delete.
abbrev Nets : List Record → List Record → Type 0
Nets netted rs =
    ((idx : ℕ) → last_of idx netted ≡ last_of idx rs)
    × ((idx : ℕ) → is_overtaken idx netted ≡ false)

net_plain :
    (netted done : List Record) (r : Record)
    → ((idx : ℕ) → is_delete idx r ≡ false)
    → Nets netted done
    → Nets (netted ++ (r ∷ [])) (done ++ (r ∷ []))
net_plain netted done r plain (l, o) = (
  (λ idx. ground (arith, last_of-append idx netted r, last_of-append idx done r, l idx)),
  (λ idx. ground (arith, is_overtaken-append idx netted r, o idx, plain idx)),
)

net_delete :
    (netted done : List Record) (j : ℕ)
    → Nets netted done
    → Nets (without j netted ++ (Record.delete j ∷ [])) (done ++ (Record.delete j ∷ []))
unfolding is_delete has_idx idx_of
net_delete netted done j (l, o) = (
  (λ idx. ground (
    arith,
    last_of-append idx (without j netted) (Record.delete j),
    last_of-append idx done (Record.delete j),
    last_of-without idx j netted,
    l idx,
  )),
  (λ idx. ground (
    arith,
    is_overtaken-append idx (without j netted) (Record.delete j),
    is_overtaken-without idx j netted (o idx),
    any_of-without_self idx netted,
  )),
)

append_cons : (done rs : List Record) (r : Record) → (done ++ (r ∷ [])) ++ rs ≡ done ++ (r ∷ rs)
append_cons done rs r = append_assoc done (r ∷ []) rs

net_from-Nets :
    (rs netted done : List Record) → Nets netted done → Nets (net_from netted rs) (done ++ rs)
unfolding net_from is_delete
net_from-Nets [] netted done h = subst (Nets netted) (sym (append_nil done)) h
net_from-Nets (Record.insert i row ∷ rs) netted done h =
    subst (Nets _) (append_cons done rs (Record.insert i row))
      (net_from-Nets rs _ _ (net_plain netted done (Record.insert i row) (λ idx. refl) h))
net_from-Nets (Record.update i row ∷ rs) netted done h =
    subst (Nets _) (append_cons done rs (Record.update i row))
      (net_from-Nets rs _ _ (net_plain netted done (Record.update i row) (λ idx. refl) h))
net_from-Nets (Record.delete i ∷ rs) netted done h =
    subst (Nets _) (append_cons done rs (Record.delete i))
      (net_from-Nets rs _ _ (net_delete netted done i h))
net_from-Nets (Record.begin n ∷ rs) netted done h =
    subst (Nets _) (append_cons done rs (Record.begin n))
      (net_from-Nets rs _ _ (net_plain netted done (Record.begin n) (λ idx. refl) h))
net_from-Nets (Record.commit n ∷ rs) netted done h =
    subst (Nets _) (append_cons done rs (Record.commit n))
      (net_from-Nets rs _ _ (net_plain netted done (Record.commit n) (λ idx. refl) h))
net_from-Nets (Record.rollback n ∷ rs) netted done h =
    subst (Nets _) (append_cons done rs (Record.rollback n))
      (net_from-Nets rs _ _ (net_plain netted done (Record.rollback n) (λ idx. refl) h))

-- Netting keeps the last record of every row, and afterwards no record of a row stands before a
-- delete of that row.
pub net_from-last_of :
    (rs : List Record)
    → ((idx : ℕ) → last_of idx (net_from [] rs) ≡ last_of idx rs)
      × ((idx : ℕ) → is_overtaken idx (net_from [] rs) ≡ false)
net_from-last_of rs = net_from-Nets rs [] [] ((λ idx. refl), (λ idx. unfold is_overtaken in refl))
