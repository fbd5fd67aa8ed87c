-- ===== src/Columnar/Column/Steps.antt =====
-- What the table relies on of each column: how its operations change what each row reads.
use snapdb.Prelude.{
  ℕ, zero, suc, ◌+◌, ◌<◌, ◌≡◌, ◌≢◌, refl, sym, ap, subst, ◌∙◌, Bool, true, false, ◌&&◌, none, some,
  List, [], ◌∷◌, ◌++◌, map, set, length, arith, get_elem?, length-set, length-append, length-map,
  get_elem?-set_self, get_elem?-set_ne,
}
use snapdb.Result.{ok, err, index_error}
use snapdb.Value.{Value, null}
use snapdb.Schema.{Dtype, Code, struct_code, i8, i16, i32, i64, u8, u16, u32, u64, bool, bytes}
use snapdb.Columnar.Nulls.{at_index, elem_at}
use snapdb.Prelude.Int.{pos}
use snapdb.Prelude.Dict
use snapdb.Columnar.Nulls.{with_nulls}
use snapdb.Columnar.Ints
use snapdb.Columnar.Ints.{fits}
use snapdb.Columnar.Ints.Refine.Run.{init-Stores}
use snapdb.Columnar.Bools
use snapdb.Columnar.Bools.{bool_get, bits_shown}
use snapdb.Columnar.Texts
use snapdb.Columnar.Texts.View.{raw, coded, chosen, in_range}
use snapdb.Columnar.Column.{ints, eligible}
use snapdb.Columnar.Column.{Column, append, get_item, set_item, to_list, nullmask, clear, init}
use snapdb.Columnar.Column.Laws.{kind, Accepts, shown, Stores, append-Stores}
use snapdb.Columnar.Column.Sets.{set_item-Stores}
use snapdb.Columnar.Column.Rows.{get_item_lem, to_list_lem, nullmask_lem, is_null, clear_lem}

-- A column with so many rows
pub record Holds (c : Column) (n : ℕ) : Type 0 where
  pub values : List Value
  pub stores : Stores c values
  pub size : length values ≡ n

-- A change that succeeded: the rows afterwards, the value that one of them reads, and the others.
pub record Changed (c : Column) (d : Column) (n idx : ℕ) (v : Value) : Type 0 where
  pub holds : Holds d n
  pub same_kind : kind d ≡ kind c
  pub here : get_item d idx ≡ ok v
  pub elsewhere : (j : ℕ) → j < n → j ≢ idx → get_item d j ≡ get_item c j

last_at : (vs : List Value) (v : Value) → at_index (vs ++ (v ∷ [])) (length vs) ≡ ok v
unfolding at_index
last_at [] v = refl
last_at (w ∷ vs) v = last_at vs v

before_at :
    (vs : List Value) (v : Value) (j : ℕ)
    → j < length vs
    → at_index (vs ++ (v ∷ [])) j ≡ at_index vs j
unfolding at_index
before_at [] v j h = elim h [ ]
before_at (w ∷ vs) v zero h = refl
before_at (w ∷ vs) v (suc j) h = before_at vs v j (omega arith)

-- A column of any type stands for a list of values: appending a value that it accepts succeeds, the
-- new row reads as the stored value, and every other row as before.
pub append_step :
    (c : Column) (n : ℕ) (v : Value)
    → Holds c n
    → Accepts (kind c) v
    → ((append v c).0 ≡ ok tt) × Changed c (append v c).1 (n + 1) n (shown (kind c) v)
append_step c n v h a =
    let w = shown (kind c) v in
    let (fine, st, k) = append-Stores c h.values v h.stores a in
    (
      fine,
      record {
        holds = record {
          values = h.values ++ (w ∷ []);
          stores = st;
          size = length-append h.values (w ∷ []) ∙ ap (λ m. m + 1) h.size;
        };
        same_kind = k;
        here =
            get_item_lem (append v c).1 (h.values ++ (w ∷ [])) n st
            ∙ subst (λ m. at_index (h.values ++ (w ∷ [])) m ≡ ok w) h.size (last_at h.values w);
        elsewhere = λ j l ne.
            get_item_lem (append v c).1 (h.values ++ (w ∷ [])) j st
            ∙ before_at h.values w j (below j l ne h.size)
            ∙ sym (get_item_lem c h.values j h.stores);
      },
    )
  where
    below : {m : ℕ} (j : ℕ) → j < n + 1 → j ≢ n → m ≡ n → j < m
    below j l ne e = omega (arith, l, ne, e)

written_at :
    (vs : List Value) (idx : ℕ) (v : Value) → idx < length vs → at_index (set vs idx v) idx ≡ ok v
unfolding at_index
written_at vs idx v l = ground (arith, get_elem?-set_self vs idx v l)

other_at :
    (vs : List Value) (idx j : ℕ) (v : Value) → j ≢ idx → at_index (set vs idx v) j ≡ at_index vs j
unfolding at_index
other_at vs idx j v ne =
    ap (λ o. elim o [ none ↦ err index_error | some x ↦ ok x ])
      (get_elem?-set_ne vs v (λ e. ne (sym e)))

written :
    (c d : Column) (n idx : ℕ) (w : Value) (h : Holds c n)
    → Stores d (set h.values idx w)
    → kind d ≡ kind c
    → idx < n
    → Changed c d n idx w
written c d n idx w h st k l = record {
  holds = record {
    values = set h.values idx w;
    stores = st;
    size = length-set h.values idx w ∙ h.size;
  };
  same_kind = k;
  here =
      get_item_lem d (set h.values idx w) idx st
      ∙ written_at h.values idx w (subst (λ m. idx < m) (sym h.size) l);
  elsewhere = λ j _ ne.
      get_item_lem d (set h.values idx w) j st
      ∙ other_at h.values idx j w ne
      ∙ sym (get_item_lem c h.values j h.stores);
}

-- Writing a value that a column of any type accepts at a row that is there succeeds; the row then
-- reads as the stored value, and every other row as before.
pub set_item_step :
    (c : Column) (n idx : ℕ) (v : Value)
    → Holds c n
    → Accepts (kind c) v
    → idx < n
    → ((set_item idx v c).0 ≡ ok tt) × Changed c (set_item idx v c).1 n idx (shown (kind c) v)
set_item_step c n idx v h a l =
    let (fine, st, k) =
      set_item-Stores c h.values idx v h.stores a (subst (λ m. idx < m) (sym h.size) l) in
    (fine, written c (set_item idx v c).1 n idx (shown (kind c) v) h st k l)

length-nullmask : (c : Column) (n : ℕ) → (h : Holds c n) → length (nullmask c) ≡ n
length-nullmask c n h =
    ap length (nullmask_lem c h.values h.stores) ∙ length-map h.values is_null ∙ h.size

pub clear_step : (c : Column) (n idx : ℕ) → Holds c n → idx < n → Changed c (clear idx c) n idx null
unfolding shown
clear_step c n idx h l =
    let (fine, st, k) =
      set_item-Stores c h.values idx null h.stores tt (subst (λ m. idx < m) (sym h.size) l) in
    subst (λ d. Changed c d n idx null)
      (sym (clear_lem c idx (subst (λ m. idx < m) (sym (length-nullmask c n h)) l)))
      (written c (set_item idx null c).1 n idx null h st k l)

mask_at :
    (vs : List Value) (i : ℕ) (v : Value)
    → get_elem? vs i ≡ some v
    → get_elem? (map is_null vs) i ≡ some (is_null v)
mask_at [] i v e = ground (arith, e)
mask_at (w ∷ vs) zero v e = ground (arith, e)
mask_at (w ∷ vs) (suc i) v e = mask_at vs i v e

-- A row that is there reads as a value, and the null mask says whether that is None.
pub read_step :
    (c : Column) (n i : ℕ)
    → Holds c n
    → i < n
    → (v : Value) × (get_item c i ≡ ok v) × (get_elem? (nullmask c) i ≡ some (is_null v))
read_step c n i h l =
    let (v, e) = elem_at h.values i (subst (λ m. i < m) (sym h.size) l) in
    (
      v,
      get_item_lem c h.values i h.stores ∙ (unfold at_index in ground (arith, e)),
      ap (λ r. get_elem? r i) (nullmask_lem c h.values h.stores) ∙ mask_at h.values i v e,
    )

-- `tolist` reads each row as `__getitem__` does.
pub to_list_step :
    (c : Column) (n : ℕ)
    → Holds c n
    → (vs : List Value) × (to_list c ≡ ok vs) × ((j : ℕ) → at_index vs j ≡ get_item c j)
to_list_step c n h =
    (h.values, to_list_lem c h.values h.stores, λ j. sym (get_item_lem c h.values j h.stores))

fresh_ints :
    (code : Code) (delta_encode : Bool) (delta_samples : ℕ) (for_encode : Bool) (for_threshold : ℕ)
    → fits code (pos 0) ≡ true
    → Holds (ints (Ints.init code delta_encode delta_samples for_encode for_threshold)) 0
fresh_ints code de ds fe ft z = record {
  values = [];
  stores = ([], init-Stores code de ds fe ft z, refl);
  size = refl;
}

-- A new column has no row.
pub init-Holds :
    (dtype : Dtype) (dict_encode : Bool) (dict_threshold : ℕ) (delta_encode : Bool)
    (delta_samples : ℕ) (for_encode : Bool) (for_threshold : ℕ)
    → Holds
        (init dtype dict_encode dict_threshold delta_encode delta_samples for_encode for_threshold)
        0
unfolding init struct_code fits Bools.init Bools.to_list bool_get bits_shown Texts.init with_nulls
    chosen in_range Dict.get
init-Holds bool x t de ds fe ft = record {
  values = [];
  stores = ([], record { shown = refl; clear = λ j l. refl }, refl);
  size = refl;
}
init-Holds (bytes n) true t de ds fe ft = record {
  values = [];
  stores = ([], coded refl refl (λ b k e. absurd (no_key e)) refl refl refl, refl);
  size = refl;
}
  where
    no_key : {k : ℕ} → none ≡ some k → ⊥
    no_key e = ground (arith, e)
init-Holds (bytes n) false t de ds fe ft = record {
  values = [];
  stores = ([], raw refl refl refl, refl);
  size = refl;
}
init-Holds i8 x t de ds fe ft =
    fresh_ints (struct_code i8) (de && eligible i8) ds (fe && eligible i8) ft refl
init-Holds i16 x t de ds fe ft =
    fresh_ints (struct_code i16) (de && eligible i16) ds (fe && eligible i16) ft refl
init-Holds i32 x t de ds fe ft =
    fresh_ints (struct_code i32) (de && eligible i32) ds (fe && eligible i32) ft refl
init-Holds i64 x t de ds fe ft =
    fresh_ints (struct_code i64) (de && eligible i64) ds (fe && eligible i64) ft refl
init-Holds u8 x t de ds fe ft =
    fresh_ints (struct_code u8) (de && eligible u8) ds (fe && eligible u8) ft refl
init-Holds u16 x t de ds fe ft =
    fresh_ints (struct_code u16) (de && eligible u16) ds (fe && eligible u16) ft refl
init-Holds u32 x t de ds fe ft =
    fresh_ints (struct_code u32) (de && eligible u32) ds (fe && eligible u32) ft refl
init-Holds u64 x t de ds fe ft =
    fresh_ints (struct_code u64) (de && eligible u64) ds (fe && eligible u64) ft refl
