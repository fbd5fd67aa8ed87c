-- ===== src/Columnar/Table/Select/Laws.antt =====
-- `select` gives the rows that `get` reads and the predicate takes, from the offset on, up to the limit.
use snapdb.Prelude.{
  ℕ, zero, suc, ◌+◌, ◌-◌, ◌<◌, ◌≤◌, ◌≡◌, refl, sym, ap, ◌∙◌, Bool, true, false, Option, none, some,
  List, [], ◌∷◌, ◌++◌, length, take, drop, arith, ltb, if◌then◌else◌, Bool-cases, inl, inr,
  length-append,
}
use snapdb.Result.{ok, err}
use snapdb.Schema.{Row}
use snapdb.Columnar.Table.{Table, any_value, live_from, get}
use snapdb.Columnar.Table.Changes.{IsTable, AllRead, has_value, any_value_lem, get_lem, all_read}
use snapdb.Columnar.Table.Scan.{Mat, row_at}
use snapdb.Columnar.Table.Scan.Laws.{MatReads, mat_of_lem, row_at_lem, kept_lem, live_mask_lem}
use snapdb.Columnar.Table.Select.{select, select_from, taken, output, full, needed, all_known}

-- The rows from `i` on that `get` reads and the predicate takes
unfoldable pub get_rows : (Row → Bool) → Table → ℕ → ℕ → List Row
unfolding get
get_rows p t i zero = []
get_rows p t i (suc n) =
    let rest = get_rows p t (suc i) n in
    elim (get t i) [
      | err e ↦ rest
      | ok none ↦ rest
      | ok (some row) ↦ if p row then row ∷ rest else rest
    ]

-- Up to the limit, where so many rows are there already
unfoldable pub cut : Option ℕ → ℕ → List Row → List Row
cut none n rows = rows
cut (some limit) n rows = take (limit - n) rows

append_one : (xs : List Row) (x : Row) (ys : List Row) → (xs ++ (x ∷ [])) ++ ys ≡ xs ++ (x ∷ ys)
append_one [] x ys = refl
append_one (z ∷ xs) x ys = ap (λ l. z ∷ l) (append_one xs x ys)

append_nil : (xs : List Row) → xs ++ [] ≡ xs
append_nil [] = refl
append_nil (z ∷ xs) = ap (λ l. z ∷ l) (append_nil xs)

cut-full :
    (limit : Option ℕ) (result : List Row) (row : Row) (rows : List Row)
    → full limit result ≡ false
    → full limit (result ++ (row ∷ [])) ≡ true
    → cut limit (length result) (row ∷ rows) ≡ row ∷ []
unfolding full cut
cut-full none result row rows f g = ground (arith, g)
cut-full (some k) result row rows f g =
    let e : k - length result ≡ suc 0 = ground (arith, f, g, length-append result (row ∷ [])) in
    ap (λ m. take m (row ∷ rows)) e

cut_next :
    (limit : Option ℕ) (result : List Row) (row : Row) (rows : List Row)
    → full limit (result ++ (row ∷ [])) ≡ false
    → cut limit (length result) (row ∷ rows) ≡ row ∷ cut limit (length (result ++ (row ∷ []))) rows
unfolding full cut
cut_next none result row rows g = refl
cut_next (some k) result row rows g =
    let e : k - length result ≡ suc (k - length (result ++ (row ∷ []))) =
      ground (arith, g, length-append result (row ∷ [])) in
    ap (λ m. take m (row ∷ rows)) e

take_none : (m : ℕ) → take {A = Row} m [] ≡ []
take_none zero = refl
take_none (suc m) = refl

drop_none : (m : ℕ) → drop {A = Row} m [] ≡ []
drop_none zero = refl
drop_none (suc m) = refl

cut_none : (limit : Option ℕ) (n : ℕ) → cut limit n [] ≡ []
unfolding cut
cut_none none n = refl
cut_none (some k) n = take_none (k - n)

cut_empty : (limit : Option ℕ) (rows : List Row) → full limit [] ≡ true → cut limit 0 rows ≡ []
unfolding full cut
cut_empty none rows h = ground (arith, h)
cut_empty (some k) rows h = let e : k - 0 ≡ 0 = ground (arith, h) in ap (λ m. take m rows) e

-- Each entry of the live mask says whether the row has a value.
abbrev LiveRows : Table → ℕ → List Bool → Type 0
LiveRows t i [] = Unit
LiveRows t i (live ∷ lives) =
    ((row : Row) × AllRead i t.columns row × (live ≡ has_value row)) × LiveRows t (suc i) lives

live_rows :
    (t : Table) (i n : ℕ)
    → IsTable t
    → i + n ≤ t.row_count
    → (lives : List Bool) × (live_from t.columns i n ≡ ok lives)
      × LiveRows t i lives
      × (length lives ≡ n)
unfolding live_from
live_rows t i zero h l = ([], refl, tt, refl)
live_rows t i (suc n) h l =
    let (row, r) = all_read t.columns t.row_count i h.holds (omega (arith, l)) in
    let live : any_value t.columns i ≡ ok (has_value row) =
      any_value_lem t.row_count i r h.holds (omega (arith, l)) in
    let (lives, e, rows, size) = live_rows t (suc i) n h (omega (arith, l)) in
    (has_value row ∷ lives, ground (arith, live, e), ((row, r, refl), rows), ap suc size)

module _ (p : Row → Bool) (limit : Option ℕ) (offset : ℕ) (t : Table) (mat : Mat) (h : IsTable t)
    (m : MatReads t.columns mat) where
  -- What the loop gives from row `i` on
  abbrev Goal : List Bool → ℕ → ℕ → List Row → Type 0
  Goal lives i matched result =
      select_from (some p) none limit offset mat lives i matched result
      ≡ ok (
          result
          ++ cut limit (length result) (drop (offset - matched) (get_rows p t i (length lives))))

  loop_step :
      (lives : List Bool) (i matched : ℕ) (result : List Row) (row : Row) (live : Bool)
      → AllRead i t.columns row
      → live ≡ has_value row
      → i < t.row_count
      → full limit result ≡ false
      → Goal lives (suc i) matched result
      → Goal lives (suc i) (matched + 1) result
      → (full limit (result ++ (row ∷ [])) ≡ false
          → Goal lives (suc i) (matched + 1) (result ++ (row ∷ [])))
      → Goal (live ∷ lives) i matched result
  unfolding select_from get_rows taken output
  loop_step lives i matched result row live r b l f skip pass more =
      elim (Bool-cases (has_value row)) [
        | inr q ↦ ground (arith, b, q, read, skip)
        | inl q ↦ elim (Bool-cases (p row)) [
          | inr s ↦ ground (arith, b, q, s, read, at, skip)
          | inl s ↦ elim (Bool-cases (ltb matched offset)) [
            | inl u ↦
                let e : offset - matched ≡ suc (offset - (matched + 1)) = ground (arith, u) in
                ground (arith, b, q, s, u, read, at, pass, e)
            | inr u ↦
                let e : offset - matched ≡ 0 = ground (arith, u) in
                let e' : offset - (matched + 1) ≡ 0 = ground (arith, u) in
                elim (Bool-cases (full limit (result ++ (row ∷ [])))) [
                  | inl v ↦
                      let c = cut-full limit result row (get_rows p t (suc i) (length lives)) f v in
                      ground (arith, b, q, s, u, read, at, e, v, c)
                  | inr v ↦
                      let c = cut_next limit result row (get_rows p t (suc i) (length lives)) v in
                      let a = append_one result row (
                        cut limit (length (result ++ (row ∷ [])))
                          (get_rows p t (suc i) (length lives))) in
                      ground (arith, b, q, s, u, read, at, e, e', v, c, a, more v)
                ]
          ]
        ]
      ]
    where
      read : get t i ≡ ok (if has_value row then some row else none)
      read = get_lem t row i h l r ∙ ap (λ o. ok o) (kept_lem row)

      at : row_at mat i ≡ ok row
      at = row_at_lem i r m

  -- The loop adds to the result the rows behind the offset, up to the limit.
  loop :
      (lives : List Bool) (i matched : ℕ) (result : List Row)
      → LiveRows t i lives
      → i + length lives ≤ t.row_count
      → full limit result ≡ false
      → Goal lives i matched result
  loop [] i matched result r l f = ends i matched result
    where
      ends : (i matched : ℕ) (result : List Row) → Goal [] i matched result
      ends i matched result =
          unfold select_from get_rows in
          ap (λ r. ok r)
            (sym (
              ap (λ r. result ++ r)
                (ap (cut limit (length result)) (drop_none (offset - matched))
                  ∙ cut_none limit (length result))
              ∙ append_nil result))
  loop (live ∷ lives) i matched result ((row, r, b), rs) l f =
      loop_step lives i matched result row live r b (omega (arith, l)) f
        (loop lives (suc i) matched result rs (omega (arith, l)) f)
        (loop lives (suc i) (matched + 1) result rs (omega (arith, l)) f)
        (λ g. loop lives (suc i) (matched + 1) (result ++ (row ∷ [])) rs (omega (arith, l)) g)

-- On a well-formed columnar table, select with a predicate and all columns gives, in order, the
-- rows that get reads and the predicate takes, without the first offset of them and up to the
-- limit.
pub select-get_rows :
    (p : Row → Bool) (limit : Option ℕ) (offset : ℕ) (t : Table)
    → IsTable t
    → select (some p) none limit offset t
      ≡ ok (cut limit 0 (drop offset (get_rows p t 0 t.row_count)))
unfolding select all_known needed
select-get_rows p limit offset t h =
    let (mat, e, m) = mat_of_lem t.row_count t.columns h.holds in
    let (lives, f, rs, size) = live_rows t 0 t.row_count h (omega arith) in
    let live = live_mask_lem t lives h f in
    elim (Bool-cases (full limit [])) [
      | inl none_ ↦ ground (arith, none_, empty none_)
      | inr some_ ↦
          let out = loop p limit offset t mat h m lives 0 0 [] rs (omega (arith, size)) some_ in
          let out' : select_from (some p) none limit offset mat lives 0 0 []
              ≡ ok (cut limit 0 (drop offset (get_rows p t 0 t.row_count))) =
            from lives mat size out in
          ground (arith, some_, live, e, out')
    ]
  where
    from :
        (lives : List Bool) (mat : Mat)
        → length lives ≡ t.row_count
        → select_from (some p) none limit offset mat lives 0 0 []
          ≡ ok ([] ++ cut limit 0 (drop (offset - 0) (get_rows p t 0 (length lives))))
        → select_from (some p) none limit offset mat lives 0 0 []
          ≡ ok (cut limit 0 (drop offset (get_rows p t 0 t.row_count)))
    from lives mat size out =
        let z : offset - 0 ≡ offset = omega arith in
        out
        ∙ ap (λ n. ok (cut limit 0 (drop (offset - 0) (get_rows p t 0 n)))) size
        ∙ ap (λ k. ok (cut limit 0 (drop k (get_rows p t 0 t.row_count)))) z

    empty : full limit [] ≡ true → cut limit 0 (drop offset (get_rows p t 0 t.row_count)) ≡ []
    empty q = cut_empty limit (drop offset (get_rows p t 0 t.row_count)) q
